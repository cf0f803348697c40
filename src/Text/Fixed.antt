-- ===== src/Text/Fixed.antt =====
-- Numerals with a point: a reader of them, and what it makes of the texts that `printf` writes.
use native.Mathlib.Nat.{pow-suc}
use uwb_apps.Prelude.{
  ℕ, zero, suc, ◌+◌, ◌*◌, ◌-◌, ◌/◌, ◌%◌, ◌^◌, ◌≤◌, ◌<◌, ◌≡◌, refl, ap, ◌∙◌, Bool, true, false, [],
  ◌∷◌, ◌++◌, length, length-append, length-replicate, replicate, all, ltb, ◌==◌, if◌then◌else◌,
  arith,
}
use uwb_apps.Prelude.Int.{ℤ, pos, negsuc}
use uwb_apps.Text.{Text, dec_loop, dec, pad, is_digit}
use uwb_apps.Text.Decimal.{read_on, read, length-dec_pos, read-dec, all-dec}

-- The parts of a text before and behind its first point.
pub split_point : Text → Text × Text
split_point [] = ([], [])
split_point (c ∷ t) =
    let (whole, places) = split_point t in if c == b'.' then ([], t) else (c ∷ whole, places)

-- The digits of a numeral read as one number, and how many stand behind the point: the value is the
-- first divided by 10 to the power of the second.
unfoldable pub read_decimal : Text → ℕ × ℕ
unfolding split_point
read_decimal t = let (whole, places) = split_point t in (read_on (read whole) places, length places)

split_point-digits : (s t : Text) → all is_digit s ≡ true → split_point (s ++ b'.' ∷ t) ≡ (s, t)
unfolding split_point
split_point-digits [] t h = refl
split_point-digits (c ∷ s) t h =
    let other : (c == b'.') ≡ false = ground arith in
    rw (other, split_point-digits s t (ground arith)) refl

-- A numeral of a whole part, a point and more digits.
pub read_decimal_lem :
    (n : ℕ) (t : Text) → read_decimal (dec n ++ b'.' ∷ t) ≡ (read_on n t, length t)
unfolding read_decimal
read_decimal_lem n t = rw (split_point-digits (dec n) t (all-dec n), read-dec n) refl

read_on-eq : (n : ℕ) (t : Text) → read_on n t ≡ n * 10 ^ length t + read t
read_on-eq n [] = omega arith
read_on-eq n (c ∷ t) =
    let d = c - 48 in
    let p = 10 ^ length t in
    let left : read_on (n * 10 + d) t ≡ (n * 10 + d) * p + read t = read_on-eq (n * 10 + d) t in
    let right : read_on (0 * 10 + d) t ≡ (0 * 10 + d) * p + read t = read_on-eq (0 * 10 + d) t in
    let power : 10 ^ suc (length t) ≡ p * 10 = pow-suc 10 (length t) in
    let spread : (n * 10 + d) * p ≡ n * (p * 10) + d * p = grind arith in
    let plain : (0 * 10 + d) * p ≡ d * p = grind arith in
    rw power (omega (arith, left, right, spread, plain))

length-dec_loop_one : (f n : ℕ) → n < f → n < 10 → length (dec_loop f n) ≡ 1
unfolding dec_loop
length-dec_loop_one zero n h k = absurd (omega arith)
length-dec_loop_one (suc f) n h k = ground arith

length-dec_loop_two : (f n : ℕ) → n < f → 10 ≤ n → n < 100 → length (dec_loop f n) ≡ 2
unfolding dec_loop
length-dec_loop_two zero n h k l = absurd (omega arith)
length-dec_loop_two (suc f) n h k l = ground (
  arith,
  length-append (dec_loop f (n / 10)) ((48 + n % 10) ∷ []),
  length-dec_loop_one f (n / 10),
)

length-dec_loop_three : (f n : ℕ) → n < f → 100 ≤ n → n < 1000 → length (dec_loop f n) ≡ 3
unfolding dec_loop
length-dec_loop_three zero n h k l = absurd (omega arith)
length-dec_loop_three (suc f) n h k l = ground (
  arith,
  length-append (dec_loop f (n / 10)) ((48 + n % 10) ∷ []),
  length-dec_loop_two f (n / 10),
)

-- How many digits a number below 1000 has.
pub length-dec :
    (n : ℕ) → n < 1000 → length (dec n) ≡ (if ltb n 10 then 1 else if ltb n 100 then 2 else 3)
unfolding dec
length-dec n h = ground (
  arith,
  length-dec_loop_one (suc n) n,
  length-dec_loop_two (suc n) n,
  length-dec_loop_three (suc n) n,
)

read_on-zeros : (n k : ℕ) (t : Text) → read_on n (replicate k b'0' ++ t) ≡ read_on (n * 10 ^ k) t
read_on-zeros n zero t = ap (λ m. read_on m t) (omega arith)
read_on-zeros n (suc k) t =
    let power : 10 ^ suc k ≡ 10 ^ k * 10 = pow-suc 10 k in
    let same : (n * 10 + 0) * 10 ^ k ≡ n * 10 ^ suc k = rw power (grind arith) in
    read_on-zeros (n * 10 + 0) k t ∙ ap (λ m. read_on m t) same

length-pad : (w : ℕ) (t : Text) → length t ≤ w → length (pad w t) ≡ w
length-pad w t h = omega (
  arith,
  length-append (replicate (w - length t) b'0') t,
  length-replicate {A = ℕ} (w - length t) b'0',
)

read_on-pad : (w n k : ℕ) → read_on n (pad w (dec k)) ≡ n * 10 ^ length (pad w (dec k)) + k
read_on-pad w n k =
    let padded = read_on-eq n (pad w (dec k)) in
    let zeros = read_on-zeros 0 (w - length (dec k)) (dec k) in
    let digits : read_on (0 * 10 ^ (w - length (dec k))) (dec k) ≡ k =
      ap (λ m. read_on m (dec k)) (omega arith) ∙ read-dec k in
    omega (arith, padded, zeros ∙ digits)

-- `%d.%03d` of a number of thousandths reads as that number.
pub read_decimal-thousandths :
    (m : ℕ) → read_decimal (dec (m / 1000) ++ b'.' ∷ pad 3 (dec (m % 1000))) ≡ (m, 3)
read_decimal-thousandths m =
    let k = m % 1000 in
    let short : length (dec k) ≤ 3 = ground (arith, length-dec k) in
    let three = length-pad 3 (dec k) short in
    let value : m / 1000 * 10 ^ 3 + k ≡ m = omega arith in
    read_decimal_lem (m / 1000) (pad 3 (dec k)) ∙ rw (read_on-pad 3 (m / 1000) k, three, value) refl

-- A number of thousandths with a sign in front.
unfoldable pub read_signed : Text → Bool × ℕ × ℕ
read_signed [] = let (n, k) = read_decimal [] in (false, n, k)
read_signed (c ∷ t) =
    let (n, k) = read_decimal t in
    let (m, l) = read_decimal (c ∷ t) in if c == b'-' then (true, n, k) else (false, m, l)

read_signed_digits :
    (s t : Text)
    → 0 < length s
    → all is_digit s ≡ true
    → let (n, k) = read_decimal (s ++ t) in read_signed (s ++ t) ≡ (false, n, k)
unfolding read_signed
read_signed_digits [] t h d = absurd (omega arith)
read_signed_digits (c ∷ s) t h d = let other : (c == b'-') ≡ false = ground arith in rw other refl

-- The integer of a sign and a magnitude.
abbrev pub signed : Bool → ℕ → ℤ
signed true zero = pos 0
signed true (suc n) = negsuc n
signed false n = pos n

-- `%s%d.%03d` of a number of thousandths, with the sign printed apart, reads as these.
pub read_signed-thousandths :
    (b : Bool) (m : ℕ)
    → read_signed
        ((if b then b'-' ∷ [] else []) ++ (dec (m / 1000) ++ b'.' ∷ pad 3 (dec (m % 1000))))
      ≡ (b, m, 3)
unfolding read_signed
read_signed-thousandths true m = rw (read_decimal-thousandths m) refl
read_signed-thousandths false m =
    read_signed_digits (dec (m / 1000)) (b'.' ∷ pad 3 (dec (m % 1000))) (length-dec_pos (m / 1000))
      (all-dec (m / 1000))
    ∙ rw (read_decimal-thousandths m) refl
