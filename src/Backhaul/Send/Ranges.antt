-- ===== src/Backhaul/Send/Ranges.antt =====
-- The loop of `rtdoa_backhaul_send` over the anchors' frames, against the list of frames that it
-- reports.
use uwb_apps.Prelude.{
  ℕ, zero, suc, ◌+◌, ◌%◌, ◌^◌, ◌≤◌, ◌<◌, ◌≡◌, refl, sym, ap, ◌∙◌, Bool, not, ◌&&◌, List, [], ◌∷◌,
  ◌++◌, get_or, set, take, map, length, select, length-set, length-select-le, length-append,
  length-map, ◌==◌, arith, Bool-cases, inl, inr,
}
use mathlib.Core.List.{append_assoc, append-nil}
use uwb_apps.Float.{FloatOps}
use uwb_apps.Backhaul.Packet.{ResultsPkg, RangeData, zero_range}
use uwb_apps.Backhaul.State.{Stats}
use uwb_apps.Backhaul.Send.{
  Frame, diff_mm, rssi_field, quality_field, add_range, count_range, range_loop,
}

module _ {ℓ} {A : Type ℓ} where
  -- A write at the end of a prefix extends it, and leaves the prefix alone.
  take-set_end :
      (xs : List A) (n : ℕ) (v : A)
      → n < length xs
      → take (suc n) (set xs n v) ≡ take n xs ++ v ∷ []
  take-set_end [] n v h = elim h [ ]
  take-set_end (x ∷ xs) zero v h = refl
  take-set_end (x ∷ xs) (suc n) v h = ap (◌∷◌ x) (take-set_end xs n v (omega arith))

  take-set_lem : (xs : List A) (n : ℕ) (v : A) → take n (set xs n v) ≡ take n xs
  take-set_lem [] n v = refl
  take-set_lem (x ∷ xs) zero v = refl
  take-set_lem (x ∷ xs) (suc n) v = ap (◌∷◌ x) (take-set_lem xs n v)

  pub length-take_le : (n : ℕ) (xs : List A) → n ≤ length xs → length (take n xs) ≡ n
  length-take_le zero xs h = refl
  length-take_le (suc n) [] h = elim h [ ]
  length-take_le (suc n) (x ∷ xs) h = ap suc (length-take_le n xs (omega arith))

-- The entries that the packet counts.
abbrev pub counted : ResultsPkg → List RangeData
counted p = take p.num_ranges p.ranges

module _ (ops : FloatOps) where
  -- The frames that are reported: the difference is a number, and the anchor has an address.
  abbrev pub is_reported : Frame → Bool
  is_reported f = not (ops.is_nan f.diff) && not (f.src_address == 0)

  -- The entry that reports a frame.
  abbrev pub entry : Frame → RangeData
  entry f = record {
    anchor_addr = f.src_address;
    diff_dist_mm = diff_mm ops f.diff;
    rssi = rssi_field ops f.rssi;
    quality = quality_field ops f.los;
  }

  abbrev pub report : List Frame → List RangeData
  report fs = map entry (select is_reported fs)

  -- The slot that the next entry goes to, as the loop leaves it for a frame.
  abbrev slot : Frame → ResultsPkg → RangeData
  slot f p =
      let old = get_or p.ranges p.num_ranges zero_range in
      record old { diff_dist_mm = diff_mm ops f.diff }

  -- One turn appends the entry of a reported frame, and changes nothing that is counted otherwise.
  add_range_lem :
      (f : Frame) (p : ResultsPkg)
      → p.num_ranges < length p.ranges
      → length p.ranges ≤ 255
      → let q = add_range ops f p in
        (counted q ≡ counted p ++ report (f ∷ []))
        × (q.num_ranges ≡ p.num_ranges + length (report (f ∷ [])))
        × (length q.ranges ≡ length p.ranges)
  unfolding add_range
  add_range_lem f p h b =
      let e : (p.num_ranges + 1) % 2 ^ 8 ≡ suc p.num_ranges = omega arith in
      elim (Bool-cases (ops.is_nan f.diff)) [
        | inl nan ↦ rw nan (sym (append-nil _), omega arith, refl)
        | inr num ↦ rw num (elim (Bool-cases (f.src_address == 0)) [
          | inl none' ↦ rw none' (
            take-set_lem p.ranges p.num_ranges (slot f p) ∙ sym (append-nil _),
            omega arith,
            length-set p.ranges p.num_ranges (slot f p),
          )
          | inr some' ↦
              rw (some', e)
                (
                  take-set_end p.ranges p.num_ranges (entry f) h,
                  omega arith,
                  length-set p.ranges p.num_ranges (entry f),
                )
        ])
      ]

  report-cons : (f : Frame) (fs : List Frame) → report (f ∷ fs) ≡ report (f ∷ []) ++ report fs
  report-cons f fs = elim (Bool-cases (is_reported f)) [ inl e ↦ rw e | inr e ↦ rw e ]

  pub length-report-le : (fs : List Frame) → length (report fs) ≤ length fs
  length-report-le fs = rw length-map (length-select-le is_reported fs)

  -- The loop appends the entries of the reported frames in order, and leaves the rest of the packet
  -- as it was, if every frame could have a slot and slots are numbered by a byte.
  pub range_loop_lem :
      (fs : List Frame) (i : ℕ) (p : ResultsPkg) (s : Stats)
      → p.num_ranges + length fs ≤ length p.ranges
      → length p.ranges ≤ 255
      → let q = (range_loop ops i fs (p, s)).0 in
        (counted q ≡ counted p ++ report fs)
        × (q.num_ranges ≡ p.num_ranges + length (report fs))
        × (length q.ranges ≡ length p.ranges)
  unfolding range_loop
  range_loop_lem [] i p s h b = (sym (append-nil _), omega arith, refl)
  range_loop_lem (f ∷ fs) i p s h b =
      let (content, number, size) = add_range_lem f p (omega arith) b in
      let few = length-report-le (f ∷ []) in
      let (content', number', size') =
        range_loop_lem fs (suc i) (add_range ops f p) (count_range ops i f s) (omega arith)
          (omega arith) in
      (
        content' ∙ rw (content, append_assoc) (ap (◌++◌ (counted p)) (sym (report-cons f fs))),
        rw (report-cons f fs, length-append) (omega arith),
        size' ∙ size,
      )

  -- The loop does not touch the header, the sensors and the reference anchor.
  pub range_loop_frame :
      (fs : List Frame) (i : ℕ) (p : ResultsPkg) (s : Stats)
      → let q = (range_loop ops i fs (p, s)).0 in
        (q.head ≡ p.head) × (q.sensors ≡ p.sensors) × (q.ref_anchor_addr ≡ p.ref_anchor_addr)
  unfolding range_loop add_range
  range_loop_frame [] i p s = (refl, refl, refl)
  range_loop_frame (f ∷ fs) i p s =
      ground (arith, range_loop_frame fs (suc i) (add_range ops f p) (count_range ops i f s))
