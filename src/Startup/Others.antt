-- ===== src/Startup/Others.antt =====
-- `main` of the other applications: apps/streaming, apps/tdoa_tag, apps/ota_uwb_master,
-- apps/ota_uwb_slave and apps/listener, each src/main.c.
use uwb_apps.Prelude.{
  ℕ, zero, suc, ◌%◌, ◌^◌, ◌/◌, Bool, true, false, not, ◌||◌, List, [], ◌∷◌, ◌++◌, concat,
  if◌then◌else◌, ◌==◌, u8,
}
use uwb_apps.Prelude.Int.{pos}
use uwb_apps.Text.{Text, codes, dec}
use uwb_apps.Radio.{set_dblrxbuff, set_rx_timeout, set_rxauto_disable, start_rx}
use uwb_apps.Streaming
use uwb_apps.Tdoa.{Tag, uwb_sleep, init_timer}
use uwb_apps.Startup.{
  Setup, register_uwbcfg, register_conf, load_conf, set_field, radio, append_interface,
  append_extension, sync_to_ext_clock, gpio_ext_txe, gpio_ext_rxe, start_ccp, init_callout,
  reset_callout, init_pool, init_queue, start_network, init_led, led_blink, fill_test, print,
  Device, Single, leds, calls, assign_all, ccp_master, ccp_slave, rxauto_enable, trxoff_enable,
  rxdiag_enable, dblbuffon_enabled, sleep_enable, bias_correction_enable, lde_enable, ldo_enable,
  wakeup_rx_enable, cir_enable, set_blink_address,
}
use uwb_apps.Startup.Banner.{banner_with, banner_listener, exec_line, usec_line, id_line}
use uwb_apps.Startup.Ranging.{ble_if}

module _ {H : Type 0} where
  -- USE_DBLBUFFER
  abbrev pub buffering : Bool → ℕ → List (Setup H)
  buffering double n =
      set_field n dblbuffon_enabled double
      ∷ set_field n rxauto_enable (not double)
      ∷ radio n (set_dblrxbuff double)
      ∷ []

-- `for (uint16_t i=0; i < sizeof(test); i++) test[i] = i;`, with the rounds that are left
unfoldable pub test_loop : ℕ → ℕ → List ℕ
test_loop zero i = []
test_loop (suc r) i = u8 i ∷ test_loop r (suc i)

-- What the build of apps/streaming fixes: USE_DBLBUFFER, UWBCFG_ENABLED, UWB_TRANSPORT_ROLE,
-- BLE_ENABLED, DW1000_DEVICE_0, TDMA_NSLOTS, CONCURRENT_NRNG, the name of the source file, the size of
-- `test`, and DPL_TICKS_PER_SEC.
pub record StreamBuild : Type 0 where
  pub double_buffer : Bool
  pub uwbcfg : Bool
  pub transport_role : ℕ
  pub ble : Bool
  pub dw1000 : Bool
  pub nslots : ℕ
  pub concurrent : Bool
  pub file : Text
  pub test_size : ℕ
  pub ticks : ℕ

-- `main` of apps/streaming
unfoldable pub streaming_main : StreamBuild → Device → List (Setup Streaming.Handler)
unfolding test_loop
streaming_main b d = concat (
    buffering b.double_buffer 0
    ∷ (if b.uwbcfg then register_uwbcfg ∷ load_conf ∷ [] else [])
    ∷ leds
    ∷ (append_extension
        ∷ start_ccp (if d.is_ccp_master || (b.transport_role == 0) then ccp_master else ccp_slave)
        ∷ [])
    ∷ ble_if b.ble d.euid
    ∷ (if b.dw1000 then gpio_ext_txe 0 ∷ gpio_ext_rxe 0 ∷ [] else [])
    ∷ (print (exec_line d b.file)
        ∷ print (banner_with [] d)
        ∷ print (usec_line d (codes "frame_duration") d.frame_duration)
        ∷ print (usec_line d (codes "SHR_duration") d.shr_duration)
        ∷ print (codes "UWB_TRANSPORT_ROLE = " ++ (dec b.transport_role ++ codes "\n"))
        ∷ [])
    ∷ assign_all (Streaming.assign_slots b.concurrent b.nslots)
    ∷ (fill_test (test_loop b.test_size 0) ∷ [])
    ∷ (if b.transport_role == 1 then init_callout ∷ reset_callout b.ticks ∷ [] else [])
    ∷ [])

-- The globals of apps/tdoa_tag before `main`.
abbrev pub initial_tag : Tag
initial_tag = record { blink_rate = pos 1; config_changed = false; seq_num = 0; armed = false }

-- `main` of apps/tdoa_tag, with what it leaves in the globals. It has no `conf_load`.
unfoldable pub tdoa_main : Bool → ℕ → Device → List (Setup Single) × Tag
tdoa_main ble ticks d =
    let (tag, timer) = init_timer ticks initial_tag in
    (
      concat (
          (init_led led_blink true ∷ register_uwbcfg ∷ register_conf ∷ [])
          ∷ (set_field 0 dblbuffon_enabled false
              ∷ set_field 0 bias_correction_enable false
              ∷ set_field 0 lde_enable true
              ∷ set_field 0 ldo_enable false
              ∷ set_field 0 sleep_enable true
              ∷ set_field 0 wakeup_rx_enable false
              ∷ set_field 0 rxauto_enable false
              ∷ [])
          ∷ calls uwb_sleep
          ∷ (print (banner_with [] d) ∷ set_blink_address d.my_long_address ∷ [])
          ∷ ble_if ble d.my_long_address
          ∷ (init_callout ∷ [])
          ∷ calls timer
          ∷ (init_led led_blink false ∷ [])
          ∷ []),
      tag,
    )

-- The lines on the identity in the two applications for updates.
abbrev pub id_lines : Device → Text → List (Setup Single)
id_lines d file =
    print (exec_line d file)
    ∷ print (id_line d (codes "device_id") d.device_id)
    ∷ print (id_line d (codes "PANID") d.pan_id)
    ∷ print (id_line d (codes "DeviceID") d.uid)
    ∷ print (id_line d (codes "partID") (d.euid % 2 ^ 32))
    ∷ print (id_line d (codes "lotID") (d.euid / 2 ^ 32 % 2 ^ 32))
    ∷ print (usec_line d (codes "SHR_duration") d.shr_duration)
    ∷ []

-- `main` of apps/ota_uwb_master; `ticks` is OS_TICKS_PER_SEC.
unfoldable pub ota_master_main : Bool → Text → ℕ → Device → List (Setup Single)
ota_master_main ble file ticks d = concat (
    ble_if ble d.my_short_address
    ∷ id_lines d file
    ∷ (init_callout
        ∷ reset_callout (ticks / 25)
        ∷ radio 0 (set_rx_timeout 0)
        ∷ radio 0 start_rx
        ∷ [])
    ∷ [])

-- `main` of apps/ota_uwb_slave
unfoldable pub ota_slave_main : Text → ℕ → Device → List (Setup Single)
ota_slave_main file ticks d = concat (
    leds
    ∷ id_lines d file
    ∷ (init_callout
        ∷ reset_callout (ticks / 25)
        ∷ radio 0 (set_rx_timeout 0xffff)
        ∷ radio 0 start_rx
        ∷ [])
    ∷ [])

-- The build of apps/listener: two radios, ETH_0, USE_DBLBUFFER, CIR_ENABLED and BLE_ENABLED.
pub record ListenerBuild : Type 0 where
  pub dual : Bool
  pub eth : Bool
  pub double_buffer : Bool
  pub cir : Bool
  pub ble : Bool

-- The settings of radio `n`, and the start of its reception.
abbrev pub prepare_radio : ListenerBuild → Bool → ℕ → Device → List (Setup Single)
prepare_radio b rx_diag n d = concat (
    (set_field n rxdiag_enable rx_diag
      ∷ set_field n bias_correction_enable false
      ∷ set_field n lde_enable true
      ∷ set_field n ldo_enable false
      ∷ set_field n sleep_enable false
      ∷ set_field n wakeup_rx_enable true
      ∷ set_field n trxoff_enable true
      ∷ [])
    ∷ buffering b.double_buffer n
    ∷ (if b.cir then set_field n cir_enable b.dual ∷ set_field n cir_enable true ∷ [] else [])
    ∷ (print (banner_listener d) ∷ append_interface n ∷ [])
    ∷ [])

abbrev pub start_radio : ListenerBuild → ℕ → List (Setup Single)
start_radio b n = concat (
    (radio n (set_rx_timeout 0) ∷ [])
    ∷ (if b.dual then radio n (set_rxauto_disable b.cir) ∷ [] else [])
    ∷ (radio n start_rx ∷ [])
    ∷ [])

-- `main` of apps/listener, with the radios that it has; `rx_diag` is the bit VERBOSE_RX_DIAG of the
-- settings after `conf_load`.
unfoldable pub listener_main : ListenerBuild → Bool → Device → Device → List (Setup Single)
listener_main b rx_diag d0 d1 = concat (
    (init_led led_blink true ∷ register_uwbcfg ∷ register_conf ∷ load_conf ∷ [])
    ∷ (if b.eth then start_network ∷ [] else [])
    ∷ prepare_radio b rx_diag 0 d0
    ∷ (if b.dual then prepare_radio b rx_diag 1 d1 else [])
    ∷ (sync_to_ext_clock 0
        ∷ print (
            codes "{\"ext_sync\"=\""
            ++ (dec d0.ext_sync ++ ((if b.dual then dec d1.ext_sync else []) ++ codes "\"}\n")))
        ∷ [])
    ∷ ble_if b.ble d0.euid
    ∷ (init_pool ∷ init_queue ∷ init_callout ∷ [])
    ∷ start_radio b 0
    ∷ (if b.dual then start_radio b 1 else [])
    ∷ [])
