-- ===== src/Tests/Fixtures.antt =====
-- The inputs of the examples.
use uwb_apps.Prelude.{◌+◌, ◌-◌, ◌*◌, true, false, List, [], ◌∷◌, ◌==◌}
use uwb_apps.Prelude.Int.{pos, abs_ℤ}
use uwb_apps.Tdma.{Slot}
use uwb_apps.Float.{FloatOps}
use uwb_apps.Backhaul.Packet.{Params, initial_pkg}
use uwb_apps.Backhaul.State.{Backhaul, MbufCalls, bridge, init, set_role}
use uwb_apps.Backhaul.Send.{Frame, SendEnv}
use uwb_apps.Backhaul.Receive.{RxEnv}

-- A toy arithmetic in which a float is the number of its bits, and 99 is not a number.
abbrev pub ops_ex : FloatOps
ops_ex = record {
  is_nan = λ x. x == 99;
  add = λ x y. x + y;
  sub = λ x y. x - y;
  mul = λ x y. x * y;
  div = λ x y. x;
  quotient = λ x y. x;
  fabs = λ x. x;
  roundf = λ x. x;
  nan = 99;
  less = λ x y. false;
  round = λ x. pos x;
  floor = λ x. pos x;
  to_int = λ x. pos x;
  of_int = λ z. abs_ℤ z;
}

abbrev pub params_ex : Params
params_ex = record { head_size = 11; max_ranges = 4; broadcast = 0xffff; enomem = 1 }

abbrev pub calls_ok : MbufCalls
calls_ok = record { alloc = true; copy_rc = 0; put_rc = 0 }

-- The first call of the queue fails.
abbrev pub calls_full : MbufCalls
calls_full = record { alloc = true; copy_rc = 0; put_rc = 4 }

abbrev pub bridge_ex : Backhaul
bridge_ex = set_role bridge (init params_ex 7)

-- Three anchors: one is reported, one has no difference, one no address.
abbrev pub frames_ex : List Frame
frames_ex =
    record { src_address = 0x21; diff = 5; rssi = 3; los = 1 }
    ∷ record { src_address = 0x22; diff = 99; rssi = 3; los = 1 }
    ∷ record { src_address = 0; diff = 6; rssi = 3; los = 1 }
    ∷ []

abbrev pub send_ex : SendEnv
send_ex = record {
  req_src_address = 0x20;
  frames = frames_ex;
  start_tx_error = false;
  mbuf = calls_ok;
}

-- A packet that reaches the bridge.
abbrev pub rx_ex : RxEnv
rx_ex = record {
  fctrl = 0x88C1;
  rxtimestamp = 1000;
  my_short_address = 7;
  frame_len = 62;
  rxbuf =
      let p = initial_pkg params_ex in
      let h = p.head in record p { head = record h { src_address = 9; seq_num = 1 } };
  mbuf = calls_ok;
}

-- An anchor's view of slot 31, which the CCP leaves free.
abbrev pub slot_ex : Slot
slot_ex = record {
  idx = 31;
  nslots = 160;
  ccp_sem = 1;
  ccp_period = 1000000;
  ccp_local_epoch = 12345;
  ccp_seq_num = 10;
  slot_id = 2;
  is_anchor = false;
  is_ccp_master = false;
  rx_slot_start = λ i. i * 10000;
  tx_slot_start = λ i. i * 10000;
  frame_duration = 180;
  rx_timeout_delay = 500;
  nmgr_sends = false;
  broadcast = 0xffff;
}

-- The same slot while the CCP has the radio.
abbrev pub taken_ex : Slot
taken_ex = record slot_ex { ccp_sem = 0 }
