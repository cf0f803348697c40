-- ===== src/Backhaul/Print/Full.antt =====
-- The full form of `rtdoa_backhaul_print` against JSON documents.
use mathlib.Core.List.{append_assoc}
use uwb_apps.Prelude.{
  ℕ, zero, suc, ◌+◌, ◌≤◌, ◌≡◌, ◌≢◌, refl, sym, ap, ◌∙◌, true, false, List, [], ◌∷◌, ◌++◌, length,
  take, ltb, arith,
}
use uwb_apps.Float.{FloatOps}
use uwb_apps.Text.{Text, codes, hex}
use uwb_apps.Json.{Json, str, arr, obj, field, no_fields, emit, emit_items, emit_fields}
use uwb_apps.Json.Parts.{
  emit-arr, emit-obj, emit-str, emit_items-one, emit_items-more, emit-no_fields, field_if,
  more_fields, int, emit-int, items,
}
use uwb_apps.Backhaul.Packet.{ResultsPkg, RangeData}
use uwb_apps.Backhaul.Send.Ranges.{length-take_le}
use uwb_apps.Backhaul.Print.{
  entries, rssi_text, ddist_text, print_readings, full_entry, full_loop, print_full,
}
use uwb_apps.Backhaul.Print.Readings.{reading_fields, print_readings_lem}

take-cons {ℓ} :
    {A : Type ℓ} (n : ℕ) (xs : List A)
    → n ≢ 0
    → n ≤ length xs
    → (y : A) × (ys : List A) × (take n xs ≡ y ∷ ys) × (n ≡ suc (length ys))
take-cons zero xs some h = absurd (some refl)
take-cons (suc n) [] some h = absurd (omega arith)
take-cons (suc n) (x ∷ xs) some h =
    (x, take n xs, refl, sym (ap suc (length-take_le n xs (omega arith))))

module _ (ops : FloatOps) (split_ts : ℕ → ℕ × ℕ) where
  -- An entry: distance and signal strength are texts.
  abbrev pub entry_value : RangeData → Json
  entry_value r = obj (
      field (codes "addr") (str (hex r.anchor_addr)) (
        field (codes "ddist") (str (ddist_text r)) (
          field (codes "tqf") (int r.quality)
            (field (codes "rssi") (str (rssi_text ops r)) no_fields))))

  -- The document of a packet.
  abbrev pub full_document : ℕ → ResultsPkg → Json
  full_document mid p = obj (
      reading_fields ops split_ts mid p (
        field_if true (codes "ref_anchor") (str (hex p.ref_anchor_addr))
          (field_if true (codes "meas") (arr (items entry_value (entries p))) no_fields)))

  entry_text : (r : RangeData) → full_entry ops r ≡ emit (entry_value r)
  unfolding full_entry emit
  entry_text r = simp (append_assoc, emit-int)

  -- The loop closes the array itself, unless it has no round.
  loop_lem :
      (n i : ℕ) (r : RangeData) (rs : List RangeData)
      → n ≡ suc (i + length rs)
      → full_loop ops true n i (r ∷ rs) ≡ emit_items (items entry_value (r ∷ rs)) true
  unfolding full_loop
  loop_lem n i r [] e =
      let last : ltb (i + 1) n ≡ false = ground arith in
      rw (last, entry_text r) (sym (emit_items-one (entry_value r)))
  loop_lem n i r (s ∷ rs) e =
      let more : ltb (i + 1) n ≡ true = ground arith in
      rw (more, entry_text r)
        (ap (λ t. emit (entry_value r) ++ b',' ∷ t) (loop_lem n (suc i) s rs (omega (arith, e)))
          ∙ sym (emit_items-more (entry_value r) (entry_value s) (items entry_value rs)))

  -- What the printed line begins with: all but the end of the document.
  abbrev front : ℕ → ResultsPkg → Text
  front mid p =
      print_readings ops split_ts mid p
      ++ (codes ",\"ref_anchor\":\""
          ++ (hex p.ref_anchor_addr ++ codes "\",\"meas\":[")
          ++ full_loop ops true p.num_ranges 0 (entries p))

  pieces_lem :
      (p : ResultsPkg)
      → emit_fields
          (field_if true
            (codes "ref_anchor")
            (str (hex p.ref_anchor_addr))
            (field_if true (codes "meas") (arr (items entry_value (entries p))) no_fields))
          false
        ≡ codes ",\"ref_anchor\":\""
          ++ (hex p.ref_anchor_addr ++ codes "\",\"meas\":[")
          ++ (emit_items (items entry_value (entries p)) true ++ b'}' ∷ [])
  pieces_lem p =
      let meas = arr (items entry_value (entries p)) in
      rw
        (
          more_fields true (codes "ref_anchor") (str (hex p.ref_anchor_addr))
              (field (codes "meas") meas no_fields),
          more_fields true (codes "meas") meas no_fields,
          emit-no_fields false,
          emit-str (hex p.ref_anchor_addr),
          emit-arr (items entry_value (entries p)),
        )
        (simp append_assoc)

  whole_loop :
      (p : ResultsPkg)
      → p.num_ranges ≢ 0
      → p.num_ranges ≤ length p.ranges
      → full_loop ops true p.num_ranges 0 (entries p)
        ≡ emit_items (items entry_value (entries p)) true
  whole_loop p some_ranges within =
      let (r, rs, eq, size) = take-cons p.num_ranges p.ranges some_ranges within in
      rw eq (loop_lem p.num_ranges 0 r rs (omega (arith, size)))

-- In the full form a packet with ranges is printed with a stray bracket: the text is a JSON document
-- with a second `]` behind its list of ranges.
pub stray_bracket :
    (ops : FloatOps) (split_ts : ℕ → ℕ × ℕ) (mid : ℕ) (p : ResultsPkg)
    → p.num_ranges ≢ 0
    → p.num_ranges ≤ length p.ranges
    → (t : Text) × (emit (full_document ops split_ts mid p) ≡ t ++ codes "}")
      × (print_full ops split_ts true mid p ≡ t ++ codes "]}\n")
unfolding print_full
stray_bracket ops split_ts mid p some_ranges within =
    let whole = whole_loop ops split_ts p some_ranges within in
    (
      front ops split_ts mid p,
      emit-obj _
          ∙ print_readings_lem ops split_ts mid p _
          ∙ rw (pieces_lem ops split_ts p, ← whole) (simp append_assoc),
      simp append_assoc,
    )
