-- ===== src/Ble/Name.antt =====
-- The name under which a device of lib/bleprph advertises, and how its identity reads back from it.
use native.Mathlib.Nat.{pow-succ'}
use mathlib.Core.List.{append_assoc}
use uwb_apps.Prelude.{
  ℕ, zero, suc, ◌+◌, ◌*◌, ◌-◌, ◌/◌, ◌%◌, ◌^◌, ◌≤◌, ◌<◌, ◌≡◌, refl, sym, ap, ◌∙◌, true, [], ◌∷◌,
  ◌++◌, length, length-append, length-replicate, replicate, take, drop, take-all, take-append,
  drop-append, ltb, leb, if◌then◌else◌, arith, tests, Bool-cases, inl, inr,
}
use uwb_apps.Text.{Text, hex_loop, hex, hex_digit, to_upper, upper, hex_upper}
use uwb_apps.Ble.{ble_name}

-- What digits in base 16 read as, after `n`.
abbrev digit : ℕ → ℕ
digit c = if leb c b'9' then c - 48 else c - 55

abbrev read_on : ℕ → Text → ℕ
read_on n [] = n
read_on n (c ∷ t) = read_on (n * 16 + digit c) t

abbrev pub read_hex : Text → ℕ
read_hex t = read_on 0 t

read_on-append : (n : ℕ) (s t : Text) → read_on n (s ++ t) ≡ read_on (read_on n s) t
read_on-append n [] t = refl
read_on-append n (c ∷ s) t = read_on-append (n * 16 + digit c) s t

upper-append : (s t : Text) → upper (s ++ t) ≡ upper s ++ upper t
upper-append [] t = refl
upper-append (c ∷ s) t = ap (λ u. to_upper c ∷ u) (upper-append s t)

length-upper : (t : Text) → length (upper t) ≡ length t
length-upper [] = refl
length-upper (c ∷ t) = ap suc (length-upper t)

digit_lem : (d : ℕ) → d < 16 → digit (to_upper (hex_digit d)) ≡ d
digit_lem d h = ground arith

read-hex_loop : (f n : ℕ) → n < f → read_hex (upper (hex_loop f n)) ≡ n
unfolding hex_loop
read-hex_loop zero n h = absurd (omega arith)
read-hex_loop (suc f) n h =
    let last = digit_lem (n % 16) (omega arith) in
    elim (Bool-cases (ltb n 16)) [
      | inl small ↦ rw small (omega (tests, last))
      | inr large ↦
          let ih = read-hex_loop f (n / 16) (ground arith) in
          let more = upper-append (hex_loop f (n / 16)) (hex_digit (n % 16) ∷ []) in
          let cut =
            read_on-append 0 (upper (hex_loop f (n / 16))) (to_upper (hex_digit (n % 16)) ∷ []) in
          rw (large, more, cut, ih) (omega (arith, last))
    ]

length-hex_loop : (f n w : ℕ) → n < 16 ^ suc w → length (hex_loop f n) ≤ suc w
unfolding hex_loop
length-hex_loop zero n w h = omega arith
length-hex_loop (suc f) n zero h =
    let small : ltb n 16 ≡ true = ground arith in rw small (omega arith)
length-hex_loop (suc f) n (suc w) h =
    let next : n < 16 * 16 ^ suc w = rw (pow-succ' 16 (suc w)) at h in
    let ih = length-hex_loop f (n / 16) w (omega (arith, next)) in
    elim (Bool-cases (ltb n 16)) [
      | inl small ↦ rw small (omega arith)
      | inr large ↦
          rw large
            (omega (arith, ih, length-append (hex_loop f (n / 16)) (hex_digit (n % 16) ∷ [])))
    ]

read-zeros : (z : ℕ) → read_on 0 (replicate z b'0') ≡ 0
read-zeros zero = refl
read-zeros (suc z) = read-zeros z

-- With a prefix of at most 22 characters, the name starts with the prefix and a dash, and the low 32 bits
-- of the identity read back from what follows.
pub read-ble_name :
    (prefix : Text) (ble_id : ℕ)
    → length prefix ≤ 22
    → let name = ble_name prefix ble_id in
      (take (length prefix + 1) name ≡ prefix ++ b'-' ∷ [])
      × (read_hex (drop (length prefix + 1) name) ≡ ble_id % 2 ^ 32)
unfolding ble_name hex_upper hex
read-ble_name prefix ble_id short =
    let m = ble_id % 2 ^ 32 in
    let u = upper (hex_loop (suc m) m) in
    let zeros : Text = replicate (4 - length u) b'0' in
    let t = zeros ++ u in
    let start = prefix ++ b'-' ∷ [] in
    let digits = length-hex_loop (suc m) m 7 (omega arith) in
    let few : length t ≤ 8 = omega (
      arith,
      digits,
      length-upper (hex_loop (suc m) m),
      length-append zeros u,
      length-replicate {A = ℕ} (4 - length u) b'0',
    ) in
    let size : length start ≡ length prefix + 1 = length-append prefix (b'-' ∷ []) in
    let split : prefix ++ b'-' ∷ t ≡ start ++ t = sym (append_assoc prefix (b'-' ∷ []) t) in
    let fit : length (start ++ t) ≤ 31 = omega (arith, few, size, short, length-append start t) in
    let whole : ble_name prefix ble_id ≡ start ++ t =
      ap (take 31) split ∙ take-all 31 (start ++ t) fit in
    let read : read_hex t ≡ m =
      read_on-append 0 zeros u
      ∙ ap (λ n. read_on n u) (read-zeros (4 - length u))
      ∙ read-hex_loop (suc m) m (omega arith) in
    rw (whole, sym size) (take-append start t, ap read_hex (drop-append start t) ∙ read)
