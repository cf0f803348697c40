-- ===== src/Backhaul/Delivery/Text.antt =====
-- From a tag to the text on the console of a bridge, in the compact form of lib/rtdoa_backhaul.
use uwb_apps.Prelude.{
  ℕ, length-take-le, ◌+◌, ◌^◌, ◌≤◌, ◌<◌, ◌≡◌, refl, sym, ap, ◌∙◌, Bool, true, false, ◌&&◌, List, [],
  ◌∷◌, ◌++◌, length, all, map, u8, u32, ◌==◌, leb, arith,
}
use mathlib.Core.List.{append_assoc}
use uwb_apps.Float.{FloatOps}
use uwb_apps.Text.{Text, codes}
use uwb_apps.Json.{Json, emit, is_valid}
use uwb_apps.Backhaul.Packet.{Params, ResultsPkg, sizeof_pkg}
use uwb_apps.Backhaul.Copied.Whole.{View, view}
use uwb_apps.Backhaul.State.{Backhaul, Mbuf, Printed, bridge, shown}
use uwb_apps.Backhaul.Send.{send}
use uwb_apps.Backhaul.Send.Ranges.{counted, report}
use uwb_apps.Backhaul.Send.Packing.{air_copy}
use uwb_apps.Backhaul.Fifo.{Event, console, run, numbered, reported, run-reported}
use uwb_apps.Backhaul.Print.{print_compact}
use uwb_apps.Backhaul.Print.Compact.{is_quality, compact_document, print_compact_lem}
use uwb_apps.Backhaul.Delivery.{
  AirPacket, Round, with_sensors, sends, is_sent, IsTag, Carries, reported_lem, sends-fresh,
  send-IsTag, ready, content, expected, delivered_in_order,
}

-- A packet that can be printed: its entries lie in the array, with qualities 0 or 1.
abbrev pub can_print : View → Bool
can_print v = leb v.num_ranges v.slots && all is_quality v.ranges

abbrev pub is_printable : ResultsPkg → Bool
is_printable p = can_print (view p)

pub within-counted :
    (p : ResultsPkg) → p.num_ranges ≡ length (counted p) → p.num_ranges ≤ length p.ranges
within-counted p h = omega (arith, h, length-take-le p.num_ranges p.ranges)

numbered-bodies :
    (k : Params) (mid : ℕ) (ms : List Mbuf)
    → map (λ l. view l.body) (numbered k (λ _. true) mid ms) ≡ map (λ m. view (shown k m)) ms
unfolding numbered
numbered-bodies k mid [] = refl
numbered-bodies k mid (m ∷ ms) =
    ap (λ vs. view (shown k m) ∷ vs) (numbered-bodies k (u32 (mid + 1)) ms)

all-map :
    {A : Type 0} (f : A → View) (q : View → Bool) (ls : List A)
    → all q (map f ls) ≡ all (λ l. q (f l)) ls
all-map f q [] = refl
all-map f q (l ∷ ls) = ap (◌&&◌ (q (f l))) (all-map f q ls)

module _ (ops : FloatOps) (split_ts : ℕ → ℕ × ℕ) where
  -- What goes to the console for these lines.
  abbrev pub console_text : List Printed → Text
  console_text [] = []
  console_text (l ∷ ls) = print_compact ops split_ts l.mid l.body ++ console_text ls

  abbrev pub documents : List Printed → List Json
  documents [] = []
  documents (l ∷ ls) = compact_document ops split_ts l.mid l.body ∷ documents ls

  -- Documents, a line for each.
  abbrev pub lines_of : List Json → Text
  lines_of [] = []
  lines_of (d ∷ ds) = emit d ++ (codes "\n" ++ lines_of ds)

  pub console_text_lem :
      (ls : List Printed)
      → all (λ l. is_printable l.body) ls ≡ true
      → (console_text ls ≡ lines_of (documents ls)) × (all is_valid (documents ls) ≡ true)
  console_text_lem [] h = (refl, refl)
  console_text_lem (l ∷ ls) h =
      let (shown, ok) = print_compact_lem ops split_ts l.mid l.body (ground arith) (ground arith) in
      let (rest, oks) = console_text_lem ls (ground arith) in
      (
        ap (λ t. t ++ console_text ls) shown
            ∙ append_assoc (emit (compact_document ops split_ts l.mid l.body)) (codes "\n") _
            ∙ ap (λ t. emit (compact_document ops split_ts l.mid l.body) ++ (codes "\n" ++ t)) rest,
        rw (ok, oks) refl,
      )

module _ (ops : FloatOps) (split_ts : ℕ → ℕ × ℕ) (k : Params) (few : k.max_ranges ≤ 255)
    (fits : sizeof_pkg k < 2 ^ 15) where
  -- The send goes out, and the qualities that it reports are 0 or 1.
  abbrev pub is_reportable : Round → Bool
  is_reportable r = is_sent k r && all is_quality (report ops r.env.frames)

  sends-printable :
      (rs : List Round) (b : Backhaul)
      → IsTag k b
      → all is_reportable rs ≡ true
      → all (λ a. is_printable a.packet) (sends ops k rs b) ≡ true
  unfolding sends
  sends-printable [] b t h = refl
  sends-printable (r ∷ rs) b t h =
      let b1 = with_sensors r.sensors b in
      let sent : is_sent k r ≡ true = ground arith in
      let ok = ready ops k few fits r b t sent in
      let (p, air, ranges, number, _, _, _) = air_copy ops k r.env r.dx_time b1 ok (ground arith) in
      let rest =
        sends-printable rs (send ops k r.env r.dx_time b1).0 (send-IsTag ops k few fits r b t sent)
          (ground arith) in
      let within = within-counted p (number ∙ sym (ap length ranges)) in
      let quality : all is_quality (counted p) ≡ true = rw ranges (ground arith) in
      rw (air, rest) (ground arith)

  reportable-sent : (rs : List Round) → all is_reportable rs ≡ true → all (is_sent k) rs ≡ true
  reportable-sent [] h = refl
  reportable-sent (r ∷ rs) h = ground (arith, reportable-sent rs)

  -- A tag makes a series of sends, each at a start time, with slots for all its frames, without an
  -- error of the radio and with qualities 0 or 1. A bridge with an empty queue gets them, each in at
  -- least the length that the send announced and less than 2 ^ 15 bytes, has room for each, and did not take a frame with the number of the first just before; its queue handler runs in
  -- between at any time, and once more at the end. In the compact form, what it writes to the console
  -- is then a line of valid JSON for each send, in order, which tells its number, exactly the ranges to
  -- report, the readings stored, and the reference anchor of the send before.
  pub delivered_as_json :
      (rs : List Round) (es : List Event) (tag b : Backhaul)
      → IsTag k tag
      → all is_reportable rs ≡ true
      → Carries k es (sends ops k rs tag)
      → b.role ≡ bridge
      → b.queue ≡ []
      → (tag.pkg.head.src_address == b.last_address)
          && (u8 (tag.pkg.head.seq_num + 1) == b.last_seq_num)
        ≡ false
      → let out = (run k (λ _. true) (es ++ console ∷ []) b).1 in
        (console_text ops split_ts out ≡ lines_of ops split_ts (documents ops split_ts out))
        × (all is_valid (documents ops split_ts out) ≡ true)
        × (map content out ≡ expected ops k b.msg_id tag.pkg.ref_anchor_addr rs)
  delivered_as_json rs es tag b t h c role empty new =
      let out = (run k (λ _. true) (es ++ console ∷ []) b).1 in
      let sent = reportable-sent rs h in
      let ms = reported k (λ _. true) b.last_address b.last_seq_num es in
      let bodies : map (λ l. view l.body) out ≡ map (λ a. view a.packet) (sends ops k rs tag) =
        ap (map (λ l. view l.body)) (run-reported k (λ _. true) es b role)
        ∙ rw empty (numbered-bodies k b.msg_id ms)
        ∙ reported_lem k (λ _. true) c b.last_address b.last_seq_num
            (sends-fresh ops k few fits rs b.last_address b.last_seq_num tag t sent new) in
      let printable =
        sym (all-map (λ (l : Printed). view l.body) can_print out)
        ∙ ap (all can_print) bodies
        ∙ all-map (λ (a : AirPacket). view a.packet) can_print (sends ops k rs tag)
        ∙ sends-printable rs tag t h in
      let (shown, ok) = console_text_lem ops split_ts out printable in
      (shown, ok, delivered_in_order ops k few fits rs es tag b t sent c role empty new)
