-- ===== src/Startup/Ranging.antt =====
-- `main` of the two-way ranging applications: apps/twr_nranges_tdma, apps/twr_node_tdma,
-- apps/twr_tag_tdma and apps/twr_aloha, each src/main.c.
use uwb_apps.Prelude.{
  ℕ, zero, suc, ◌-◌, ◌/◌, Bool, true, false, List, [], ◌∷◌, ◌++◌, concat, if◌then◌else◌, ◌==◌,
}
use uwb_apps.Text.{Text, codes, dec}
use uwb_apps.Radio.{set_dblrxbuff, set_autoack, set_autoack_delay}
use uwb_apps.Twr.Nranges
use uwb_apps.Startup.{
  Setup, register_uwbcfg, load_conf, set_field, radio, set_slot_id, set_short_address, set_uid,
  append_interface, sync_to_ext_clock, gpio_ext_txe, gpio_ext_rxe, start_ccp, set_tof_comp,
  start_pan, set_pan_postprocess, set_fw_version, panmaster_postprocess, init_ble, init_event,
  init_callout, reset_callout, print, Device, Single, slot_callback, leds, assign_all, ccp_master,
  ccp_slave, pan_master, pan_relay, anchor_role, tag_role, rxauto_enable, rxdiag_enable,
  dblbuffon_enabled,
}
use uwb_apps.Startup.Banner.{banner, banner_with, role_text, exec_line, usec_line}

-- BLE_ENABLED (BLEPRPH_ENABLED in apps/twr_nranges_tdma), TDMA_NSLOTS, `RNG_VERBOSE > 1` and the name of
-- the source file.
pub record Build : Type 0 where
  pub ble : Bool
  pub nslots : ℕ
  pub verbose : Bool
  pub file : Text

module _ {H : Type 0} where
  -- The messages on the durations.
  abbrev pub duration_lines : Device → List (Setup H)
  duration_lines d =
      print (usec_line d (codes "frame_duration") d.frame_duration)
      ∷ print (usec_line d (codes "SHR_duration") d.shr_duration)
      ∷ print (usec_line d (codes "holdoff") d.holdoff)
      ∷ []

  -- `if (udev->role & UWB_ROLE_CCP_MASTER)`
  abbrev pub start_ccp_by_role : Device → List (Setup H)
  start_ccp_by_role d = start_ccp (if d.is_ccp_master then ccp_master else ccp_slave) ∷ []

  -- A PAN master takes its address and its slot from the list of nodes.
  abbrev pub start_as_pan_master : Device → List (Setup H)
  start_as_pan_master d =
      set_fw_version
      ∷ set_short_address d.node_addr
      ∷ set_slot_id d.node_slot_id
      ∷ panmaster_postprocess
      ∷ start_pan pan_master anchor_role
      ∷ []

  abbrev pub ble_if : Bool → ℕ → List (Setup H)
  ble_if b address = if b then init_ble address ∷ [] else []

-- `main` of apps/twr_nranges_tdma; `survey` and the two slots are those of its `assign_slots`.
unfoldable pub nranges_main : Build → Bool → ℕ × ℕ → Device → List (Setup Nranges.Handler)
nranges_main b survey slots d = concat (
    (register_uwbcfg ∷ load_conf ∷ [])
    ∷ leds
    ∷ (set_field 0 rxauto_enable false
        ∷ set_field 0 dblbuffon_enabled false
        ∷ radio 0 (set_dblrxbuff false)
        ∷ [])
    ∷ (init_event ∷ append_interface 0 ∷ set_slot_id 0xffff ∷ [])
    ∷ ble_if b.ble d.euid
    ∷ (if d.is_ccp_master
        then start_ccp ccp_master ∷ []
        else start_ccp ccp_slave ∷ set_tof_comp ∷ [])
    ∷ (if d.is_pan_master
        then start_as_pan_master d
        else set_pan_postprocess
          ∷ start_pan pan_relay (if d.is_anchor then anchor_role else tag_role)
          ∷ [])
    ∷ (print (exec_line d b.file) ∷ print (banner d) ∷ [])
    ∷ duration_lines d
    ∷ assign_all (Nranges.assign_slots survey slots b.nslots)
    ∷ [])

-- `for (uint16_t i = 1; i < TDMA_NSLOTS; i++)`, with the rounds that are left
unfoldable pub each_slot : ℕ → ℕ → List (ℕ × Single)
each_slot zero i = []
each_slot (suc r) i = (i, slot_callback) ∷ each_slot r (suc i)

-- `udev` of apps/twr_node_tdma: the second radio where there are two.
abbrev pub udev : Bool → ℕ
udev dual = if dual then 1 else 0

-- `uwb_sync_to_ext_clock` of two radios
abbrev pub sync_clock : Device → List (Setup Single)
sync_clock d =
    sync_to_ext_clock 1
    ∷ (if d.ext_sync == 1
        then print (codes "{\"ext_sync\"=\"" ++ (dec d.ext_sync ++ codes "\"}\n")) ∷ []
        else [])

-- `main` of apps/twr_node_tdma, with one radio or two.
unfoldable pub node_main : Build → Bool → Device → List (Setup Single)
node_main b dual d = concat (
    (register_uwbcfg ∷ load_conf ∷ [])
    ∷ leds
    ∷ (radio 0 (set_dblrxbuff false) ∷ [])
    ∷ (if dual then radio 1 (set_dblrxbuff false) ∷ [] else [])
    ∷ (append_interface (udev dual) ∷ [])
    ∷ start_ccp_by_role d
    ∷ (if dual then sync_clock d else [])
    ∷ (print (exec_line d b.file) ∷ print (banner_with (role_text d) d) ∷ [])
    ∷ duration_lines d
    ∷ (if dual then gpio_ext_txe 0 ∷ gpio_ext_txe 1 ∷ gpio_ext_rxe 0 ∷ gpio_ext_rxe 1 ∷ [] else [])
    ∷ ble_if b.ble d.euid
    ∷ (init_event ∷ [])
    ∷ assign_all (each_slot (b.nslots - 1) 1)
    ∷ (set_field (udev dual) rxdiag_enable b.verbose ∷ [])
    ∷ [])

-- `main` of apps/twr_tag_tdma
unfoldable pub tag_main : Build → Device → List (Setup Single)
tag_main b d = concat (
    (register_uwbcfg ∷ load_conf ∷ [])
    ∷ leds
    ∷ (append_interface 0
        ∷ start_ccp ccp_slave
        ∷ print (exec_line d b.file)
        ∷ print (banner_with [] d)
        ∷ [])
    ∷ duration_lines d
    ∷ ble_if b.ble d.euid
    ∷ (init_event ∷ [])
    ∷ assign_all (each_slot (b.nslots - 1) 1)
    ∷ (set_field 0 rxdiag_enable b.verbose ∷ [])
    ∷ [])

-- `main` of apps/twr_aloha; `ack` is TWR_SS_ACK_ENABLED, `ticks` is OS_TICKS_PER_SEC. It has no slots.
unfoldable pub aloha_main : Build → Bool → ℕ → ℕ → Device → List (Setup Single)
aloha_main b ack ticks anchor_address d = concat (
    (register_uwbcfg ∷ load_conf ∷ [])
    ∷ leds
    ∷ (append_interface 0 ∷ print (exec_line d b.file) ∷ print (banner_with [] d) ∷ [])
    ∷ duration_lines d
    ∷ (if ack then radio 0 (set_autoack true) ∷ radio 0 (set_autoack_delay 12) ∷ [] else [])
    ∷ (init_callout ∷ reset_callout (ticks / 25) ∷ init_event ∷ [])
    ∷ (if d.is_anchor then set_short_address anchor_address ∷ set_uid anchor_address ∷ [] else [])
    ∷ (set_field 0 rxdiag_enable b.verbose ∷ [])
    ∷ [])
