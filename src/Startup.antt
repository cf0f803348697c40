-- ===== src/Startup.antt =====
-- The start-up in the `main` of each application, up to its loop over the event queue: the calls in
-- their order. `sysinit`, which starts the services, comes before, and look-ups of an instance that
-- stop the program where there is none are left out.
pub mod Banner
pub mod Ranging
pub mod Location
pub mod Others
pub mod Order
use uwb_apps.Prelude.{ℕ, Bool, true, List, [], ◌∷◌}
use uwb_apps.Text.{Text}
use uwb_apps.Radio.{Cmd}

-- CCP_ROLE_…; UWB_PAN_ROLE_… with NETWORK_ROLE_…
pub data CcpRole : Type 0 where
  ccp_master ccp_slave ccp_relay : CcpRole

pub data PanRole : Type 0 where
  pan_master pan_relay : PanRole

pub data NetworkRole : Type 0 where
  anchor_role tag_role : NetworkRole

-- The fields of `udev->config` that are assigned.
pub data Field : Type 0 where
  rxauto_enable trxoff_enable rxdiag_enable sleep_enable dblbuffon_enabled : Field
  bias_correction_enable lde_enable ldo_enable wakeup_rx_enable cir_enable : Field

pub data Led : Type 0 where
  led_blink led_1 led_3 : Led

-- One call or assignment, where `H` are the slot callbacks of the application. `init_event` is
-- `dpl_event_init` of the event that the completion callback puts.
pub data Setup (H : Type 0) : Type 0 where
  -- settings: uwbcfg_register, conf_register, conf_load
  register_uwbcfg register_conf load_conf : Setup H
  -- the radio n: `udev->config`, a call as in a callback, `udev->slot_id`, `my_short_address`,
  -- uwb_set_uid, uwb_mac_append_interface
  set_field : ℕ → Field → Bool → Setup H
  radio : ℕ → Cmd → Setup H
  set_slot_id : ℕ → Setup H
  set_short_address set_uid : ℕ → Setup H
  append_interface : ℕ → Setup H
  sync_to_ext_clock gpio_ext_txe gpio_ext_rxe : ℕ → Setup H
  -- services: the transport, the clock calibration, the PAN, the list of its nodes, Bluetooth
  append_extension : Setup H
  start_ccp : CcpRole → Setup H
  set_tof_comp : Setup H
  start_pan : PanRole → NetworkRole → Setup H
  set_pan_postprocess : Setup H
  set_fw_version panmaster_postprocess : Setup H
  init_ble : ℕ → Setup H
  set_backhaul_role set_blink_address : ℕ → Setup H
  -- the kernel: an event, a callout, its first run, the pool of messages (filled with 0xdeadbeef first)
  -- and their queue, a network
  init_event init_callout : Setup H
  reset_callout : ℕ → Setup H
  init_pool init_queue start_network esp_bypass : Setup H
  init_led : Led → Bool → Setup H
  fill_test : List ℕ → Setup H
  print : Text → Setup H
  -- tdma_assign_slot
  assign_slot : ℕ → H → Setup H

module _ {H : Type 0} where
  -- `tdma_assign_slot` for each slot of a plan.
  abbrev pub assign_all : List (ℕ × H) → List (Setup H)
  assign_all [] = []
  assign_all ((i, h) ∷ rest) = assign_slot i h ∷ assign_all rest

  -- The calls of a function that callbacks use too.
  abbrev pub calls : List Cmd → List (Setup H)
  calls [] = []
  calls (c ∷ cs) = radio 0 c ∷ calls cs

  -- The three LEDs that most applications switch on.
  abbrev pub leds : List (Setup H)
  leds = init_led led_blink true ∷ init_led led_1 true ∷ init_led led_3 true ∷ []

-- The slot callback of an application that has one.
pub data Single : Type 0 where
  slot_callback : Single

-- What `main` reads from the radio: the bits of `role`, the identities, what `panmaster_idx_find_node`
-- finds, and durations in microseconds.
pub record Device : Type 0 where
  pub is_ccp_master : Bool
  pub is_pan_master : Bool
  pub is_anchor : Bool
  pub role : ℕ
  pub device_id : ℕ
  pub pan_id : ℕ
  pub uid : ℕ
  pub euid : ℕ
  pub my_short_address : ℕ
  pub my_long_address : ℕ
  pub node_addr : ℕ
  pub node_slot_id : ℕ
  pub ext_sync : ℕ
  pub utime : ℕ
  pub frame_duration : ℕ
  pub shr_duration : ℕ
  pub holdoff : ℕ
