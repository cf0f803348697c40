-- ===== src/Tests/Sensors.antt =====
-- Examples for the sensor timer of apps/rtdoa_tag.
use uwb_apps.Prelude.{
  ◌+◌, ◌*◌, ◌%◌, ◌≡◌, refl, arith, true, [], some, none, Bool-cases, inl, inr, ◌==◌,
}
use uwb_apps.Prelude.Int.{pos}
use uwb_apps.Float.{DoubleOps}
use uwb_apps.Rtdoa.Sensors.{TimerEnv, TagState, Outcome, sensor_timer_ev_cb}
use uwb_apps.Rtdoa.Sensors.Ends.{IsPatient, sensor_timer_ev_cb-ends, sensor_timer_ev_cb-stuck}
use uwb_apps.Tests.Fixtures.{ops_ex, params_ex, bridge_ex, calls_ok}

-- As with `ops_ex`, a double is the number of its bits, and everything is below 2.9.
abbrev doubles_ex : DoubleOps
doubles_ex = record {
  widen = λ x. x;
  narrow = λ x. x;
  add_d = λ x y. x + y;
  sub_d = λ x y. x;
  mul_d = λ x y. x * y;
  less_d = λ x y. true;
}

-- Every other read of a sensor fails, and the battery gains 100 mV with every round.
abbrev timer_ex : TimerEnv
timer_ex = record {
  now_mp = 5000;
  now_mp_again = 5001;
  now_batt = 5002;
  now_batt_again = 5003;
  ticks_50ms = 50;
  ticks_1s = 1000;
  attempt = λ n t. record { found = true; readings = []; rc = n % 2 };
  batt_mv = pos 2700;
  usb_mv = pos 0;
  volts = λ n. pos (2700 + 100 * n);
  blocks_used = 0;
  ccp_valid = true;
  master_time = 77;
  mbuf = calls_ok;
}

abbrev tag_ex : TagState
tag_ex = record {
  last_batt_update = 0;
  last_mp_update = 0;
  battery_voltage = 0;
  backhaul = bridge_ex;
}

IsPatient-ex : IsPatient timer_ex.attempt 2
IsPatient-ex n t = elim (Bool-cases ((n % 2) == 0)) [
  | inl even ↦ (0, omega arith, ground arith)
  | inr odd ↦ (1, omega arith, ground arith)
]

sensor_timer_ev_cb-ends_example :
    (o : Outcome) × (sensor_timer_ev_cb ops_ex doubles_ex params_ex 1000 100 12 timer_ex tag_ex
      ≡ some o)
sensor_timer_ev_cb-ends_example =
    sensor_timer_ev_cb-ends ops_ex doubles_ex params_ex 1000 100 2 3 12 timer_ex tag_ex IsPatient-ex
      refl (omega arith)

abbrev broken_ex : TimerEnv
broken_ex = record timer_ex { attempt = λ n t. record { found = true; readings = []; rc = 5 } }

sensor_timer_ev_cb-stuck_example :
    sensor_timer_ev_cb ops_ex doubles_ex params_ex 1000 100 40 broken_ex tag_ex ≡ none
sensor_timer_ev_cb-stuck_example =
    sensor_timer_ev_cb-stuck ops_ex doubles_ex params_ex 1000 100 40 broken_ex tag_ex (λ i. refl)
