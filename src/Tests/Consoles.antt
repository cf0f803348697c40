-- ===== src/Tests/Consoles.antt =====
-- An example for a tag on its way from its slots to its console.
use uwb_apps.Prelude.{ℕ, ◌≡◌, refl, arith, true, false, List, [], ◌∷◌, ◌++◌, map, all}
use uwb_apps.Json.{is_valid}
use uwb_apps.Backhaul.Packet.{initial_pkg, zero_sensors}
use uwb_apps.Backhaul.State.{init, set_role}
use uwb_apps.Backhaul.Send.{quality_field}
use uwb_apps.Backhaul.Send.Ranges.{report}
use uwb_apps.Backhaul.Delivery.{content}
use uwb_apps.Backhaul.Delivery.Text.{console_text, lines_of, documents}
use uwb_apps.Rtdoa.Tag.{AfterListen}
use uwb_apps.Rtdoa.Console.{Event, slot, imu, console, run, IsTag}
use uwb_apps.Rtdoa.Console.Lines.{told_as_json}
use uwb_apps.Tests.Fixtures.{
  ops_ex, params_ex, bridge_ex, send_ex, frames_ex, slot_ex, taken_ex, calls_ok, calls_full,
}

abbrev after_ex : AfterListen
after_ex = record { fails = false; ccp_sem = 1; master_time = 131072; env = send_ex }

-- A slot, a report of the sensor timer, a run of the handler, a slot that the CCP has, and a report that
-- finds the queue full.
abbrev events_ex : List Event
events_ex =
    slot zero_sensors slot_ex after_ex
    ∷ imu zero_sensors calls_ok 7
    ∷ console
    ∷ slot zero_sensors taken_ex after_ex
    ∷ imu zero_sensors calls_full 8
    ∷ []

bridge_ex-IsTag : IsTag ops_ex params_ex bridge_ex
unfolding init set_role initial_pkg
bridge_ex-IsTag = record {
  role = refl;
  slots = refl;
  no_ranges = refl;
  no_anchor = refl;
  printable = refl;
}

told_as_json_example :
    let split_ts : ℕ → ℕ × ℕ = λ t. (t, 0) in
    let out = (run ops_ex params_ex (events_ex ++ console ∷ []) bridge_ex).1 in
    (console_text ops_ex split_ts out ≡ lines_of ops_ex split_ts (documents ops_ex split_ts out))
    × (all is_valid (documents ops_ex split_ts out) ≡ true)
    × (map content out
        ≡ record {
          mid = 0;
          ranges = report ops_ex frames_ex;
          ref_anchor_addr = 0x20;
          sensors = record zero_sensors { ts = 2 };
        }
          ∷ record {
            mid = 1;
            ranges = [];
            ref_anchor_addr = 0;
            sensors = record zero_sensors { ts = 7 };
          }
          ∷ [])
unfolding init set_role initial_pkg quality_field
told_as_json_example =
    told_as_json ops_ex params_ex (omega arith) (omega arith) (λ t. (t, 0)) events_ex bridge_ex
      bridge_ex-IsTag refl
