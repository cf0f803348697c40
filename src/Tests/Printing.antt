-- ===== src/Tests/Printing.antt =====
-- Examples for the text that lib/rtdoa_backhaul prints.
use uwb_apps.Prelude.{◌≡◌, refl, arith, true, [], ◌∷◌, ◌++◌, List}
use uwb_apps.Prelude.Int.{pos, negsuc}
use uwb_apps.Text.{Text, codes}
use uwb_apps.Json.{emit, is_valid}
use uwb_apps.Backhaul.Packet.{ResultsPkg, RangeData, initial_pkg, zero_sensors, no_axes}
use uwb_apps.Backhaul.State.{set_role}
use uwb_apps.Backhaul.Receive.{RxEnv}
use uwb_apps.Backhaul.Print.{dd_text, ddist_text, print_compact, print_full}
use uwb_apps.Backhaul.Print.Compact.{compact_document, print_compact_lem}
use uwb_apps.Backhaul.Print.Full.{full_document, stray_bracket}
use uwb_apps.Backhaul.Print.Decimals.{read_millimetres, read-ddist}
use uwb_apps.Backhaul.Fifo.{Event, frame, console, run, numbered, reported, run-reported}
use uwb_apps.Tests.Fixtures.{ops_ex, params_ex, bridge_ex, rx_ex}

abbrev entry_ex : RangeData
entry_ex = record {
  anchor_addr = 0x21;
  diff_dist_mm = negsuc 1004;
  rssi = negsuc 799;
  quality = pos 1;
}

-- A packet with two ranges, of a tag that sent its acceleration.
abbrev packet_ex : ResultsPkg
packet_ex =
    let p = initial_pkg params_ex in
    record p {
      sensors = record zero_sensors {
        ts = 5;
        sensors_valid = 16;
        acceleration = record no_axes { a0 = pos 1 };
      };
      num_ranges = 2;
      ranges = entry_ex ∷ record entry_ex { anchor_addr = 0x22; diff_dist_mm = pos 7 } ∷ [];
    }

print_compact_lem_example :
    (print_compact ops_ex (λ t. (t, 0)) 3 packet_ex
      ≡ emit (compact_document ops_ex (λ t. (t, 0)) 3 packet_ex) ++ codes "\n")
    × (is_valid (compact_document ops_ex (λ t. (t, 0)) 3 packet_ex) ≡ true)
print_compact_lem_example = print_compact_lem ops_ex (λ t. (t, 0)) 3 packet_ex (omega arith) refl

stray_bracket_example :
    (t : Text) × (emit (full_document ops_ex (λ u. (u, 0)) 3 packet_ex) ≡ t ++ codes "}")
    × (print_full ops_ex (λ u. (u, 0)) true 3 packet_ex ≡ t ++ codes "]}\n")
stray_bracket_example = stray_bracket ops_ex (λ u. (u, 0)) 3 packet_ex (omega arith) (omega arith)

read-ddist_example :
    (read_millimetres (dd_text entry_ex) ≡ (negsuc 1004, 3))
    × (read_millimetres (ddist_text entry_ex) ≡ (negsuc 1004, 3))
read-ddist_example = read-ddist entry_ex

-- A frame, the same again, a run of the handler, and the next frame.
abbrev events_ex : List Event
events_ex =
    let p = rx_ex.rxbuf in
    let h = p.head in
    let later : RxEnv = record rx_ex { rxbuf = record p { head = record h { seq_num = 2 } } } in
    frame rx_ex ∷ frame rx_ex ∷ console ∷ frame later ∷ []

run-reported_example :
    (run params_ex (λ m. true) (events_ex ++ console ∷ []) bridge_ex).1
    ≡ numbered params_ex
        (λ m. true)
        bridge_ex.msg_id
        (bridge_ex.queue
          ++ reported params_ex (λ m. true) bridge_ex.last_address bridge_ex.last_seq_num events_ex)
unfolding set_role
run-reported_example = run-reported params_ex (λ m. true) events_ex bridge_ex refl
