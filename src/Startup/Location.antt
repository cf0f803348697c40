-- ===== src/Startup/Location.antt =====
-- `main` of the reverse TDoA applications: apps/rtdoa_node/src/main.c and apps/rtdoa_tag/src/main.c.
use uwb_apps.Prelude.{ℕ, Bool, true, false, List, [], ◌∷◌, concat, if◌then◌else◌}
use uwb_apps.Text.{codes}
use uwb_apps.Radio.{set_dblrxbuff}
use uwb_apps.Rtdoa.Node
use uwb_apps.Rtdoa.Tag
use uwb_apps.Rtdoa.Sensors
use uwb_apps.Startup.{
  Setup, register_uwbcfg, load_conf, set_field, radio, set_slot_id, append_interface, start_ccp,
  start_pan, init_ble, init_event, init_callout, init_led, led_blink, print, Device, assign_all,
  calls, ccp_master, ccp_slave, ccp_relay, pan_relay, anchor_role, rxauto_enable, rxdiag_enable,
  dblbuffon_enabled, trxoff_enable, sleep_enable, esp_bypass, set_backhaul_role,
}
use uwb_apps.Startup.Banner.{banner, banner_with}
use uwb_apps.Startup.Ranging.{start_as_pan_master}

module _ {H : Type 0} where
  -- The fields of `udev->config` that both set.
  abbrev pub config_fields : Bool → List (Setup H)
  config_fields rxauto =
      set_field 0 rxauto_enable rxauto
      ∷ set_field 0 trxoff_enable true
      ∷ set_field 0 rxdiag_enable true
      ∷ set_field 0 sleep_enable true
      ∷ set_field 0 dblbuffon_enabled false
      ∷ radio 0 (set_dblrxbuff false)
      ∷ []

  -- NCBWIFI_ESP_PASSTHROUGH
  abbrev pub bypass : Bool → List (Setup H)
  bypass b = if b then esp_bypass ∷ [] else []

-- `main` of apps/rtdoa_node, for `nslots` slots
unfoldable pub rtdoa_node_main : ℕ → Bool → Device → List (Setup Node.Handler)
rtdoa_node_main nslots esp d = concat (
    (init_led led_blink true ∷ register_uwbcfg ∷ load_conf ∷ append_interface 0 ∷ init_event ∷ [])
    ∷ config_fields false
    ∷ (set_slot_id 0xffff ∷ init_ble d.my_long_address ∷ [])
    ∷ (if d.is_ccp_master
        then print (codes "{\"role\":\"ccp_master\"}\n")
          ∷ start_ccp ccp_master
          ∷ start_as_pan_master d
        else start_ccp ccp_relay ∷ start_pan pan_relay anchor_role ∷ [])
    ∷ (print (banner d) ∷ [])
    ∷ assign_all (Node.tdma_allocate_slots nslots)
    ∷ bypass esp
    ∷ [])

-- `main` of apps/rtdoa_tag, where `init_timer` begins with `dpl_callout_init`. The role of the backhaul
-- is RTDOABH_ROLE_BRIDGE.
unfoldable pub rtdoa_tag_main : ℕ → Bool → ℕ → Device → List (Setup Tag.Handler)
rtdoa_tag_main nslots esp rate d = concat (
    (init_led led_blink true ∷ register_uwbcfg ∷ load_conf ∷ [])
    ∷ config_fields true
    ∷ (set_slot_id 0 ∷ init_ble d.my_long_address ∷ print (banner_with [] d) ∷ [])
    ∷ assign_all (Tag.tdma_allocate_slots nslots)
    ∷ (start_ccp ccp_slave ∷ set_backhaul_role 1 ∷ init_callout ∷ [])
    ∷ calls (Sensors.init_timer rate)
    ∷ bypass esp
    ∷ [])
