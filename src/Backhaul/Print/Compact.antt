-- ===== src/Backhaul/Print/Compact.antt =====
-- The compact form of `rtdoa_backhaul_print` against JSON documents.
use mathlib.Core.List.{append_assoc}
use uwb_apps.Prelude.{
  ℕ, zero, suc, ◌+◌, ◌/◌, ◌%◌, ◌≤◌, ◌≡◌, refl, sym, ap, ◌∙◌, Bool, true, false, not, ◌&&◌, List, [],
  ◌∷◌, ◌++◌, length, all, leb, ◌==◌, if◌then◌else◌, arith, Bool-cases, inl, inr,
}
use uwb_apps.Prelude.Int.{ℤ, pos, negsuc, abs_ℤ, pos_part, to_unsigned, is_negative, ltb_ℤ}
use uwb_apps.Float.{FloatOps, f_10, places}
use uwb_apps.Text.{Text, codes, dec, hex}
use uwb_apps.Text.Decimal.{all-hex}
use uwb_apps.Json.{Json, str, arr, obj, field, no_fields, emit, emit_items, emit_fields, is_valid}
use uwb_apps.Json.Parts.{
  emit_obj_rest, emit-no_fields, is_valid-obj, is_valid-arr, field_if, more_fields, fields_valid-if,
  int, is_valid-int, items, are_valid-items, is_valid-str, fields_valid-no_fields, after_loop,
}
use uwb_apps.Json.Numbers.{decimal, emit-decimal, emit-decimal_ℤ, is_valid-decimal}
use uwb_apps.Backhaul.Packet.{ResultsPkg, RangeData}
use uwb_apps.Backhaul.Send.Ranges.{length-take_le}
use uwb_apps.Backhaul.Print.{
  entries, over, column, dd_text, rssi_text, print_readings, compact_meas, print_compact,
}
use uwb_apps.Backhaul.Print.Readings.{reading_fields, print_readings_lem, reading_fields-valid}

-- A distance in metres, with its sign where it is not above 0; a signal strength; a quality.
abbrev dd_value : RangeData → Json
dd_value r =
    decimal (not (ltb_ℤ (pos 0) r.diff_dist_mm)) (abs_ℤ r.diff_dist_mm / 1000) 3
      (abs_ℤ r.diff_dist_mm % 1000)

abbrev quality_value : RangeData → Json
quality_value r = int (pos (pos_part r.quality))

-- A 2-bit field holds 0 or 1 where it is not negative.
abbrev pub is_quality : RangeData → Bool
is_quality r = not (is_negative r.quality) && leb (pos_part r.quality) 1

abbrev always : RangeData → Bool
always r = true

all-always : (rs : List RangeData) → all always rs ≡ true
all-always [] = refl
all-always (r ∷ rs) = all-always rs

addr_text :
    (r : RangeData) → b'"' ∷ (hex r.anchor_addr ++ b'"' ∷ []) ≡ emit (str (hex r.anchor_addr))
unfolding emit
addr_text r = refl

dd_text_lem : (r : RangeData) → dd_text r ≡ emit (dd_value r)
dd_text_lem r =
    let m = abs_ℤ r.diff_dist_mm / 1000 in
    let k = abs_ℤ r.diff_dist_mm % 1000 in
    elim (Bool-cases (ltb_ℤ (pos 0) r.diff_dist_mm)) [
      | inl above ↦ rw above (sym (emit-decimal false m 3 k))
      | inr below ↦ rw below (sym (emit-decimal true m 3 k))
    ]

quality_digit :
    (q : ℤ)
    → not (is_negative q) && leb (pos_part q) 1 ≡ true
    → hex (to_unsigned 32 q) ≡ emit (int (pos (pos_part q)))
unfolding hex dec emit
quality_digit (pos zero) h = refl
quality_digit (pos (suc zero)) h = refl
quality_digit (pos (suc (suc n))) h = absurd (ground arith)
quality_digit (negsuc n) h = cc

module _ (ops : FloatOps) (split_ts : ℕ → ℕ × ℕ) where
  abbrev pub rssi_value : RangeData → Json
  rssi_value r =
      let x = over ops f_10 r.rssi in
      decimal (is_negative (ops.to_int x)) (abs_ℤ (ops.to_int x)) 0 (places ops f_10 x)

  rssi_text_lem : (r : RangeData) → rssi_text ops r ≡ emit (rssi_value r)
  rssi_text_lem r =
      let x = over ops f_10 r.rssi in sym (emit-decimal_ℤ (ops.to_int x) 0 (places ops f_10 x))

  abbrev meas_value : ResultsPkg → Json
  meas_value p = obj (
      field (codes "ref") (str (hex p.ref_anchor_addr)) (
        field (codes "a") (arr (items (λ r. str (hex r.anchor_addr)) (entries p))) (
          field (codes "dd") (arr (items dd_value (entries p))) (
            field (codes "rs") (arr (items rssi_value (entries p)))
              (field (codes "qf") (arr (items quality_value (entries p))) no_fields)))))

  -- The document of a packet.
  abbrev pub compact_document : ℕ → ResultsPkg → Json
  compact_document mid p = obj (
      reading_fields ops split_ts mid p
        (field_if (not (p.num_ranges == 0)) (codes "meas") (meas_value p) no_fields))

  module _ (p : ResultsPkg) (within : p.num_ranges ≤ length p.ranges) where
    size : p.num_ranges ≡ 0 + length (entries p)
    size = omega (arith, length-take_le p.num_ranges p.ranges within)

    column_lem :
        (P : RangeData → Bool) (f : RangeData → Text) (g : RangeData → Json)
        → ((r : RangeData) → P r ≡ true → f r ≡ emit (g r))
        → all P (entries p) ≡ true
        → column f p ++ b']' ∷ [] ≡ emit_items (items g (entries p)) true
    column_lem P f g same h = after_loop f g P same p.num_ranges 0 (entries p) size h

    column_rest :
        (P : RangeData → Bool) (f : RangeData → Text) (g : RangeData → Json)
        → ((r : RangeData) → P r ≡ true → f r ≡ emit (g r))
        → all P (entries p) ≡ true
        → (t : Text) → column f p ++ b']' ∷ t ≡ emit_items (items g (entries p)) true ++ t
    column_rest P f g same h t =
        sym (append_assoc (column f p) (b']' ∷ []) t) ∙ ap (λ u. u ++ t) (column_lem P f g same h)

    meas_lem :
        all is_quality (entries p) ≡ true
        → compact_meas ops p ≡ codes ",\"meas\":" ++ emit (meas_value p)
    unfolding compact_meas emit
    meas_lem h =
        let every = all-always (entries p) in
        let a =
          column_rest always (λ r. b'"' ∷ (hex r.anchor_addr ++ b'"' ∷ []))
            (λ r. str (hex r.anchor_addr)) (λ r _. addr_text r) every in
        let dd = column_rest always dd_text dd_value (λ r _. dd_text_lem r) every in
        let rs = column_rest always (rssi_text ops) rssi_value (λ r _. rssi_text_lem r) every in
        let qf =
          column_rest is_quality (λ r. hex (to_unsigned 32 r.quality)) quality_value
            (λ r k. quality_digit r.quality k) h in
        simp (append_assoc, a, dd, rs, qf)

    tail_lem :
        all is_quality (entries p) ≡ true
        → (if p.num_ranges == 0 then [] else compact_meas ops p) ++ codes "}\n"
          ≡ emit_fields
              (field_if (not (p.num_ranges == 0)) (codes "meas") (meas_value p) no_fields)
              false
            ++ codes "\n"
    tail_lem h = elim (Bool-cases (p.num_ranges == 0)) [
      | inl empty ↦ rw (empty, emit-no_fields false) refl
      | inr some_ranges ↦
          rw
            (
              some_ranges,
              meas_lem h,
              more_fields true (codes "meas") (meas_value p) no_fields,
              emit-no_fields false,
            )
            (simp append_assoc)
    ]

    meas-valid : is_valid (meas_value p) ≡ true
    meas-valid =
        let all_valid = λ (g : RangeData → Json) (v : (r : RangeData) → is_valid (g r) ≡ true).
          is_valid-arr (items g (entries p)) ∙ are_valid-items g v (entries p) in
        let text = λ (n : ℕ). is_valid-str (hex n) ∙ all-hex n in
        is_valid-obj _
        ∙ fields_valid-if true (codes "ref") _ _ refl (text p.ref_anchor_addr)
        ∙ fields_valid-if true (codes "a") _ _ refl
            (all_valid (λ r. str (hex r.anchor_addr)) (λ r. text r.anchor_addr))
        ∙ fields_valid-if true (codes "dd") _ _ refl
            (all_valid dd_value (λ r. is_valid-decimal _ _ _ _))
        ∙ fields_valid-if true (codes "rs") _ _ refl
            (all_valid rssi_value (λ r. is_valid-decimal _ _ _ _))
        ∙ fields_valid-if true (codes "qf") _ _ refl
            (all_valid quality_value (λ r. is_valid-int (pos (pos_part r.quality))))
        ∙ fields_valid-no_fields

-- In the compact form a packet whose entries lie in the array, with qualities 0 or 1, is printed as
-- one line of JSON.
pub print_compact_lem :
    (ops : FloatOps) (split_ts : ℕ → ℕ × ℕ) (mid : ℕ) (p : ResultsPkg)
    → p.num_ranges ≤ length p.ranges
    → all is_quality (entries p) ≡ true
    → (print_compact ops split_ts mid p ≡ emit (compact_document ops split_ts mid p) ++ codes "\n")
      × (is_valid (compact_document ops split_ts mid p) ≡ true)
unfolding print_compact
print_compact_lem ops split_ts mid p within h =
    let rest =
      field_if (not (p.num_ranges == 0)) (codes "meas") (meas_value ops split_ts p) no_fields in
    (
      ap (◌++◌ (print_readings ops split_ts mid p)) (tail_lem ops split_ts p within h)
          ∙ sym (emit_obj_rest _ rest _ (codes "\n") (print_readings_lem ops split_ts mid p rest)),
      is_valid-obj _
          ∙ reading_fields-valid ops split_ts mid p rest
          ∙ fields_valid-if (not (p.num_ranges == 0)) (codes "meas") _ no_fields refl
              (meas-valid ops split_ts p within)
          ∙ fields_valid-no_fields,
    )
