-- ===== src/Twr/Sharing.antt =====
-- How the tags of apps/twr_nranges_tdma share the slots, and the mask of the nodes that they ask.
use uwb_apps.Prelude.{
  ℕ, zero, suc, ◌+◌, ◌-◌, ◌*◌, ◌%◌, ◌/◌, ◌^◌, ◌≤◌, ◌<◌, ◌≡◌, ◌∙◌, ap, sym, Bool, true, any, arith,
}
use native.Mathlib.Nat.{pow-suc, add-zero, zero-add, one-le-pow, div-eq_of_lt}
use uwb_apps.Radio.{is_request}
use uwb_apps.Tdma.{Slot, or_bit, mask_loop, slot_mask}
use uwb_apps.Twr.Nranges.{Settings, slot_cb, range_in_slot}

or_bit_fresh : (i m : ℕ) → m < 2 ^ i → or_bit i m ≡ m + 2 ^ i
or_bit_fresh i m h = let none' : m / 2 ^ i ≡ 0 = div-eq_of_lt h in ground (arith, none')

-- The loop sets each bit from `i` on, if none of them is set yet.
mask_loop_lem : (r i m : ℕ) → m < 2 ^ i → mask_loop r i m + 2 ^ i ≡ m + 2 ^ (i + r)
unfolding mask_loop
mask_loop_lem zero i m h = rw add-zero
mask_loop_lem (suc r) i m h =
    let double : 2 ^ suc i ≡ 2 ^ i * 2 = pow-suc 2 i in
    let same : 2 ^ (i + suc r) ≡ 2 ^ (suc i + r) = ap (λ k. 2 ^ k) (omega arith) in
    rw (or_bit_fresh i m h)
      (omega (arith, double, same, mask_loop_lem r (suc i) (m + 2 ^ i) (omega (arith, double))))

-- The request goes to exactly the nodes from `start` to `end`: the mask is the sum of their bits.
slot_mask_lem : (start end : ℕ) → start ≤ end → slot_mask start end + 2 ^ start ≡ 2 ^ (end + 1)
unfolding slot_mask
slot_mask_lem start end h =
    let top : start + (end + 1 - start) ≡ end + 1 = omega arith in
    mask_loop_lem (end + 1 - start) start 0 (one-le-pow start 2 (omega arith)) ∙ rw top (zero-add _)

-- A tag asks for ranges only in slots whose number, modulo the number of tags, is its own number.
request_owns :
    (c : Settings) (t : Slot) (fails pending : Bool)
    → any is_request (slot_cb c t fails pending).1 ≡ true
    → t.idx % c.ntags ≡ t.slot_id
unfolding slot_cb range_in_slot is_request
request_owns c t fails pending h = ground arith

-- Two tags that ask for ranges in the same slot have the same number: tags with different numbers
-- never collide.
pub tags_apart :
    (c : Settings) (t u : Slot) (f g p q : Bool)
    → t.idx ≡ u.idx
    → any is_request (slot_cb c t f p).1 ≡ true
    → any is_request (slot_cb c u g q).1 ≡ true
    → t.slot_id ≡ u.slot_id
tags_apart c t u f g p q same a b =
    sym (request_owns c t f p a) ∙ ap (λ i. i % c.ntags) same ∙ request_owns c u g q b
