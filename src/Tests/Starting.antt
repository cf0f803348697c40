-- ===== src/Tests/Starting.antt =====
-- Examples for the start-ups, and for the timeout that apps/twr_node_tdma keeps.
use uwb_apps.Prelude.{◌≡◌, refl, arith, true, false, [], ◌∷◌, all, count_if, inl, inr}
use uwb_apps.Text.{codes, dec}
use uwb_apps.Startup.{Device}
use uwb_apps.Startup.Banner.{banner, banner_with, role_text, banner_listener, usec_line}
use uwb_apps.Startup.Banner.Documents.{IsDocument, identity_lines}
use uwb_apps.Startup.Ranging.{Build}
use uwb_apps.Startup.Order.{tdoa_tag, start, is_load, is_register, none_after}
use uwb_apps.Startup.Order.Settings.{settings_loaded}
use uwb_apps.Twr.Node.{Codes, slot_cb, uwb_config_updated_func}
use uwb_apps.Twr.Timeouts.{System, change, slot, step, run, agree, run-agree, stale_timeout}
use uwb_apps.Radio.{is_config}
use uwb_apps.Listener.Radios
use uwb_apps.Listener.Radios.{Radios}
use uwb_apps.Tests.Fixtures.{slot_ex, taken_ex}

abbrev device_ex : Device
device_ex = record {
  is_ccp_master = true;
  is_pan_master = true;
  is_anchor = true;
  role = 7;
  device_id = 0xdeca0130;
  pan_id = 0xdeca;
  uid = 0x1234;
  euid = 0x11e4d8fa10203;
  my_short_address = 0x1234;
  my_long_address = 0x11e4d8fa10203;
  node_addr = 0x21;
  node_slot_id = 3;
  ext_sync = 0;
  utime = 4711;
  frame_duration = 180;
  shr_duration = 140;
  holdoff = 900;
}

abbrev build_ex : Build
build_ex = record { ble = true; nslots = 160; verbose = false; file = codes "main.c" }

settings_loaded_example :
    (count_if is_register (start (tdoa_tag true 128) device_ex) ≡ 2)
    × (count_if is_load (start (tdoa_tag true 128) device_ex) ≡ 0)
    × (none_after is_load is_register false (start (tdoa_tag true 128) device_ex) ≡ true)
settings_loaded_example = settings_loaded (tdoa_tag true 128) device_ex

identity_lines_example :
    IsDocument (banner device_ex)
    × ¬ IsDocument (banner_with (role_text device_ex) device_ex)
    × ¬ IsDocument (banner_listener device_ex)
identity_lines_example = identity_lines (role_text device_ex) device_ex

usec_line-ex :
    usec_line device_ex (codes "holdoff") 900
    ≡ codes "{\"utime\": 4711,\"msg\": \"holdoff = 900 usec\"}\n"
unfolding usec_line dec
usec_line-ex = refl

abbrev codes_ex : Codes
codes_ex = record { range = 0x8841; range_ack = 0x8861; nan = 99 }

abbrev system_ex : System
system_ex = record {
  state = record { config_updated = false; timeout = 0; azimuth = 99; zenith = 99 };
  wanted = 300;
  applied = 300;
}

-- Two slots, a change, the slot that writes it, and one more.
run-agree_example :
    all
      (agree codes_ex false true 0 200)
      (run codes_ex false true 0 200
        (slot slot_ex
          ∷ slot slot_ex
          ∷ change 1 400
          ∷ slot taken_ex
          ∷ slot slot_ex
          ∷ slot slot_ex
          ∷ [])
        system_ex).1
    ≡ true
run-agree_example =
    run-agree codes_ex false true 0 200
      (slot slot_ex
        ∷ slot slot_ex
        ∷ change 1 400
        ∷ slot taken_ex
        ∷ slot slot_ex
        ∷ slot slot_ex
        ∷ [])
      system_ex refl (record { kept = inl refl })

-- Its listens.
listens-ex :
    (run codes_ex false true 0 200
      (slot slot_ex
        ∷ slot slot_ex
        ∷ change 1 400
        ∷ slot taken_ex
        ∷ slot slot_ex
        ∷ slot slot_ex
        ∷ [])
      system_ex).1
    ≡ (500, 500) ∷ (500, 500) ∷ (600, 600) ∷ []
unfolding run step slot_cb is_config uwb_config_updated_func
listens-ex = refl

abbrev synced_ex : System
synced_ex = record {
  state = record { config_updated = false; timeout = 500; azimuth = 99; zenith = 99 };
  wanted = 300;
  applied = 300;
}

stale_timeout_example :
    (run codes_ex false true 0 200 (change 0 400 ∷ slot slot_ex ∷ []) synced_ex).1 ≡ (500, 600) ∷ []
stale_timeout_example =
    stale_timeout codes_ex false true 0 200 400 slot_ex synced_ex (λ e. absurd (omega arith)) refl
      refl

abbrev radios_ex : Radios
radios_ex = record { count = 2; double_buffer = true; cir = false }

abbrev listener_ex : Radios.System
listener_ex = record { wanted = 1; applied = λ i. 1; queued = false }

run-IsSettled_example : Radios.IsSettled radios_ex (
    Radios.run radios_ex
      (Radios.change 2 ∷ Radios.change 3 ∷ Radios.serve true ∷ Radios.serve true ∷ [])
      listener_ex)
run-IsSettled_example =
    Radios.run-IsSettled radios_ex
      (Radios.change 2 ∷ Radios.change 3 ∷ Radios.serve true ∷ Radios.serve true ∷ []) listener_ex
      (inr (λ i near. refl))
