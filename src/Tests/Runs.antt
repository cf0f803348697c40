-- ===== src/Tests/Runs.antt =====
-- Runs of definitions that no theorem is about.
use uwb_apps.Prelude.{◌≡◌, refl, true, false, [], ◌∷◌, some}
use uwb_apps.Prelude.Int.{pos, negsuc}
use uwb_apps.Radio.{
  nmgr_process_tx, nmgr_listen, callout_reset, set_rx_timeout, start_rx, forcetrxoff, rng_listen,
}
use uwb_apps.Backhaul.Receive.{remaining_timeout}
use uwb_apps.Backhaul.Sensors.{battery_cb, usb_cb}
use uwb_apps.Ota.{master_ev_cb, slave_ev_cb}
use uwb_apps.Tdoa.{blink_ticks}
use uwb_apps.Text.{codes, hex, hex_upper}
use uwb_apps.Ble.{
  infer_addr, ensure_addr, count_cfg, add_svcs, set_callbacks, set_name, advertise, on_sync,
  gatt_svr_init, ble_init, ble_name,
}
use uwb_apps.Listener.Receive.{restart_all}
use uwb_apps.Twr.Aloha.{rx_timeout_cb}
use uwb_apps.Twr.Nranges.{pan_complete_cb}
use uwb_apps.Twr.Tag.{slot_mode}
use uwb_apps.Tests.Fixtures.{ops_ex, bridge_ex}

-- A packet that comes 2^16 units before the end of a listen leaves one microsecond.
remaining_timeout_lem : remaining_timeout 131072 65536 ≡ 1
unfolding remaining_timeout
remaining_timeout_lem = refl

-- A battery of 3 V in the toy arithmetic, and the flag of the battery.
battery_cb_lem : (battery_cb ops_ex 0 bridge_ex).pkg_imu.sensors.battery_voltage ≡ pos 0
unfolding battery_cb
battery_cb_lem = refl

usb_cb_lem : (usb_cb ops_ex 5 bridge_ex).pkg_imu.sensors.has_usb_power ≡ false
unfolding usb_cb
usb_cb_lem = refl

master_ev_cb_lem : master_ev_cb 100 false ≡ callout_reset 4 ∷ nmgr_process_tx 0 ∷ []
unfolding master_ev_cb
master_ev_cb_lem = refl

slave_ev_cb_lem :
    slave_ev_cb 100 false ≡ nmgr_process_tx 0 ∷ nmgr_listen 0 0xffff ∷ callout_reset 2 ∷ []
unfolding slave_ev_cb
slave_ev_cb_lem = refl

-- A rate of -3 makes a callout that fires after 2^32 - 42 ticks.
blink_ticks_lem : blink_ticks 128 (negsuc 2) ≡ 4294967254
unfolding blink_ticks
blink_ticks_lem = refl

-- No address: advertising ends after the first call.
on_sync_lem :
    on_sync (record { device_name = []; infer_rc = 1; fields_rc = 0; start_rc = 0 }) 0
    ≡ some (ensure_addr ∷ infer_addr ∷ [])
unfolding on_sync advertise
on_sync_lem = refl

ble_init_lem :
    ble_init (codes "tag") 0 0 0 4660
    ≡ some (set_callbacks ∷ count_cfg ∷ add_svcs ∷ set_name (codes "tag-1234") ∷ [])
unfolding ble_init gatt_svr_init ble_name hex_upper hex
ble_init_lem = refl

restart_all_lem : restart_all false true ≡ (0, set_rx_timeout 0) ∷ (0, start_rx) ∷ []
unfolding restart_all
restart_all_lem = refl

rx_timeout_cb_lem : rx_timeout_cb true ≡ (forcetrxoff ∷ rng_listen 0xfffff ∷ [], true)
unfolding rx_timeout_cb
rx_timeout_cb_lem = refl

pan_complete_cb_lem : pan_complete_cb 0xffff ≡ []
unfolding pan_complete_cb
pan_complete_cb_lem = refl

-- Slot 35 is the third of its eight.
slot_mode_lem : slot_mode (record { ss = 1; ss_ext = 2; ss_ack = 3; ds = 4; ds_ext = 5 }) 35 ≡ 4
unfolding slot_mode
slot_mode_lem = refl
