-- ===== src/Tests/Devices.antt =====
-- Examples for apps/streaming, apps/tdoa_tag and apps/listener.
use Prim.Native.String.{String}
use uwb_apps.Prelude.{
  ℕ, ◌+◌, ◌≡◌, ◌≢◌, refl, arith, Bool, true, false, List, [], ◌∷◌, length, map, take, none, some,
  u32,
}
use uwb_apps.Prelude.Int.{pos, negsuc}
use uwb_apps.Streaming.{Packet, Receiver, stream_loop, stream_timer}
use uwb_apps.Streaming.Loss.{nth, receive_all}
use uwb_apps.Streaming.Transport.{sent, Passes, rest_lost, lose, pass_on, stream_exact}
use uwb_apps.Tdoa.{Tag, uwb_conf_commit, uwb_config_updated, init_timer}
use uwb_apps.Tdoa.Blink.{Runs, start, configs, config, blinks, negative_strands}
use uwb_apps.Listener.Conf.{Config, verbose_key, find_key, lstnr_get, lstnr_set}
use uwb_apps.Listener.Structs.{State, RadioDiag, Env, Write, diag}
use uwb_apps.Listener.Receive.{
  diag_loop, measure, message_of, rx_complete_cb, diag_read_offset, cir_read_offset,
}
use uwb_apps.Listener.Laws.{get-set, rx_complete_cb-chains, lost_chains, diag_misread}
use uwb_apps.Tests.Fixtures.{ops_ex}

-- A checksum that is always 0.
abbrev calc_ex : List ℕ → ℕ
calc_ex bytes = 0

abbrev packet_ex : Packet
packet_ex = record { crc = 0; index = 0; rest = 7 ∷ [] }

abbrev receiver_ex : Receiver
receiver_ex = record { idx = 0; missed = 0; ok = 0 }

-- The timer runs with three chains, and then with one: packet 1 arrives, packets 2 and 3 are lost, packet
-- 4 arrives.
Passes-ex :
    Passes calc_ex 0
      (sent calc_ex 128 5 (3 ∷ 1 ∷ []) packet_ex)
      (nth calc_ex (7 ∷ []) 1 ∷ nth calc_ex (7 ∷ []) 4 ∷ [])
      2
unfolding sent stream_timer stream_loop
Passes-ex = pass_on (omega arith) (lose (lose (pass_on (omega arith) rest_lost)))

stream_exact_example :
    let r' =
      receive_all calc_ex 3 (nth calc_ex (7 ∷ []) 1 ∷ nth calc_ex (7 ∷ []) 4 ∷ []) receiver_ex in
    (u32 r'.missed ≡ u32 (0 + 2)) × (u32 r'.ok ≡ u32 (0 + 2))
stream_exact_example =
    stream_exact calc_ex 128 5 3 (3 ∷ 1 ∷ []) packet_ex receiver_ex (omega arith) (omega arith) refl
      Passes-ex

abbrev tag_ex : Tag
tag_ex = record { blink_rate = pos 4; config_changed = false; seq_num = 0; armed = false }

Runs-ex :
    Runs 128 12
      (init_timer 128 tag_ex).0
      (uwb_config_updated (init_timer 128 tag_ex).0)
      (config ∷ [])
Runs-ex = configs start refl

blinks_example : (uwb_config_updated (init_timer 128 tag_ex).0).armed ≡ true
unfolding uwb_config_updated init_timer
blinks_example = blinks 128 12 4 tag_ex refl Runs-ex tt refl

negative_strands_example :
    let stopped = record tag_ex { blink_rate = pos 0 } in
    let u = (uwb_conf_commit 128 (negsuc 0) stopped).0 in
    let w = (uwb_conf_commit 128 (pos 10) u).0 in (w.blink_rate ≡ pos 10) × (w.armed ≡ false)
negative_strands_example =
    negative_strands 128 0 10 (record tag_ex { blink_rate = pos 0 }) refl refl

abbrev config_ex : Config
config_ex = record {
  acc_samples = "0";
  verbose = "0x1";
  udp_tx_addr = "192.168.10.255";
  udp_tx_port = "8787";
}

abbrev fits_ex : ℕ → String → Bool
fits_ex size v = true

get-set_example :
    let (c', rc) = lstnr_set fits_ex 1 2 false ("verbose" ∷ []) "0x3" config_ex in
    (rc ≡ 0) × (lstnr_get false ("verbose" ∷ []) c' ≡ some "0x3")
unfolding find_key
get-set_example =
    get-set fits_ex 1 2 false ("verbose" ∷ []) ("verbose" ∷ []) "0x3" config_ex verbose_key
      verbose_key refl refl refl

-- A single radio hears a frame of 20 bytes, with 40 bytes of diagnostics.
abbrev radio_ex : RadioDiag
radio_ex = record { rxd_len = 40; copy_rc = 0; rxtimestamp = 123; lde_error = false }

abbrev pub env_ex : Env
env_ex = record {
  ops = ops_ex;
  dual = false;
  cir_enabled = true;
  acc_samples = 16;
  cir_size = 100;
  ticks_per_sec = 128;
  is_last = true;
  rx_restarted = false;
  same_data = true;
  utime = 5;
  frame_len = 20;
  carrier_integrator = pos 0;
  alloc = true;
  frame_rc = 0;
  radios = radio_ex ∷ [];
  boards = none;
  edge = record { valid = false; raw_ts = pos 0; fp_idx = 0 };
  ts_steps = λ a b. pos 0;
  both_valid = false;
  pdoa = 0;
  put_rc = 4;
}

abbrev state_ex : State
state_ex = record { held = 0; queue = []; buffers = 0; has_socket = false }

rx_complete_cb-chains_example :
    let s' = (rx_complete_cb env_ex state_ex).0 in
    s'.held + 0 ≡ 0 + length s'.queue + lost_chains env_ex
rx_complete_cb-chains_example = rx_complete_cb-chains env_ex state_ex

abbrev writes_ex : List Write
writes_ex = record { part = diag 0; offset = 20; size = 40 } ∷ []

diag_misread_example :
    let m = message_of env_ex writes_ex (123 ∷ []) 60 in
    (map (λ w. w.offset) (take 2 m.writes) ≡ 0 ∷ m.diag_offset ∷ [])
    × (diag_read_offset m ≢ m.diag_offset)
    × (cir_read_offset 100 0 m ≡ m.diag_offset)
unfolding diag_loop measure
diag_misread_example =
    diag_misread env_ex radio_ex [] writes_ex (123 ∷ []) 60 refl refl (omega arith) refl
      (omega arith)
