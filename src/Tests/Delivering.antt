-- ===== src/Tests/Delivering.antt =====
-- An example for reports on their way from a tag to the console of a bridge.
use uwb_apps.Prelude.{
  ℕ, ◌^◌, ◌&&◌, Bool, leb, ltb, all, ◌≡◌, refl, arith, true, List, [], ◌∷◌, ◌++◌, map,
}
use uwb_apps.Backhaul.Packet.{zero_sensors, initial_pkg}
use uwb_apps.Backhaul.State.{Backhaul, producer, init, set_role}
use uwb_apps.Backhaul.Send.{
  quality_field, send, air_calls, packet_len, begin_packet, range_loop, add_range, clear_packet,
}
use uwb_apps.Backhaul.Receive.{RxEnv}
use uwb_apps.Backhaul.Fifo.{Event, frame, console, run}
use uwb_apps.Backhaul.Delivery.{
  AirPacket, Round, content, sends, expected, IsTag, Carries, silence, handled, delivered,
}
use uwb_apps.Json.{is_valid}
use uwb_apps.Backhaul.Delivery.Text.{console_text, lines_of, documents, delivered_as_json}
use uwb_apps.Tests.Fixtures.{ops_ex, params_ex, bridge_ex, send_ex, rx_ex}

abbrev tag_ex : Backhaul
tag_ex = set_role producer (init params_ex 9)

abbrev rounds_ex : List Round
rounds_ex =
    record { sensors = zero_sensors; env = send_ex; dx_time = 500 }
    ∷ record {
      sensors = record zero_sensors { ts = 8 };
      env = record send_ex { frames = [] };
      dx_time = 900;
    }
    ∷ []

-- Each packet arrives, and is printed before the next one.
abbrev received : AirPacket → RxEnv
received p = record rx_ex { rxbuf = p.packet; frame_len = p.announced }

abbrev arrivals : List AirPacket → List Event
arrivals [] = []
arrivals (p ∷ ps) = frame (received p) ∷ console ∷ arrivals ps

abbrev is_frame : AirPacket → Bool
is_frame p = leb 39 p.announced && ltb p.announced (2 ^ 15)

arrivals-Carries :
    (ps : List AirPacket) → all is_frame ps ≡ true → Carries params_ex (arrivals ps) ps
arrivals-Carries [] h = silence
arrivals-Carries (p ∷ ps) h =
    delivered
      (record {
        body = refl;
        full = omega arith;
        counted_in = ground (arith, h);
        kind = refl;
        long = ground (arith, h);
        served = refl;
      })
      (handled (arrivals-Carries ps (ground arith)))

tag_ex-IsTag : IsTag params_ex tag_ex
unfolding init set_role initial_pkg
tag_ex-IsTag = record { slots = refl; everybody = refl }

sends-frames : all is_frame (sends ops_ex params_ex rounds_ex tag_ex) ≡ true
unfolding sends send air_calls packet_len begin_packet init set_role initial_pkg range_loop
    add_range clear_packet quality_field
sends-frames = refl

delivered_as_json_example :
    let split_ts : ℕ → ℕ × ℕ = λ t. (t, 0) in
    let es = arrivals (sends ops_ex params_ex rounds_ex tag_ex) in
    let out = (run params_ex (λ _. true) (es ++ console ∷ []) bridge_ex).1 in
    (console_text ops_ex split_ts out ≡ lines_of ops_ex split_ts (documents ops_ex split_ts out))
    × (all is_valid (documents ops_ex split_ts out) ≡ true)
    × (map content out ≡ expected ops_ex params_ex 0 0 rounds_ex)
unfolding init set_role initial_pkg quality_field
delivered_as_json_example =
    delivered_as_json ops_ex (λ t. (t, 0)) params_ex (omega arith) (omega arith) rounds_ex
      (arrivals (sends ops_ex params_ex rounds_ex tag_ex)) tag_ex bridge_ex tag_ex-IsTag refl
      (arrivals-Carries (sends ops_ex params_ex rounds_ex tag_ex) sends-frames) refl refl refl
