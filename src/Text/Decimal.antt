-- ===== src/Text/Decimal.antt =====
-- Decimal numerals: what they consist of, and what they read as.
use uwb_apps.Prelude.{
  ℕ, zero, suc, ◌+◌, ◌*◌, ◌-◌, ◌/◌, ◌%◌, ◌<◌, ◌≡◌, refl, ◌∙◌, true, [], ◌∷◌, ◌++◌, length,
  length-append, all, all-append, ltb, if◌then◌else◌, arith, Bool-cases, inl, inr,
}
use uwb_apps.Text.{Text, dec_loop, dec, hex_loop, hex, is_digit, is_plain}

-- The number that digits read as, after `n`.
abbrev pub read_on : ℕ → Text → ℕ
read_on n [] = n
read_on n (c ∷ t) = read_on (n * 10 + (c - 48)) t

abbrev pub read : Text → ℕ
read t = read_on 0 t

pub read_on-append : (n : ℕ) (s t : Text) → read_on n (s ++ t) ≡ read_on (read_on n s) t
read_on-append n [] t = refl
read_on-append n (c ∷ s) t = read_on-append (n * 10 + (c - 48)) s t

read-dec_loop : (f n : ℕ) → n < f → read (dec_loop f n) ≡ n
unfolding dec_loop
read-dec_loop zero n h = absurd (omega arith)
read-dec_loop (suc f) n h = elim (Bool-cases (ltb n 10)) [
  | inl small ↦ rw small (ground arith)
  | inr large ↦ rw large (
      read_on-append 0 (dec_loop f (n / 10)) ((48 + n % 10) ∷ [])
      ∙ rw (read-dec_loop f (n / 10) (ground arith)) (omega arith))
]

-- A numeral reads as its number.
pub read-dec : (n : ℕ) → read (dec n) ≡ n
unfolding dec
read-dec n = read-dec_loop (suc n) n (omega arith)

all_digits_loop : (f n : ℕ) → all is_digit (dec_loop f n) ≡ true
unfolding dec_loop
all_digits_loop zero n = refl
all_digits_loop (suc f) n = ground (
  arith,
  all_digits_loop f (n / 10),
  all-append is_digit (dec_loop f (n / 10)) ((48 + n % 10) ∷ []),
)

pub all-dec : (n : ℕ) → all is_digit (dec n) ≡ true
unfolding dec
all-dec n = all_digits_loop (suc n) n

all_plain_hex_loop : (f n : ℕ) → all is_plain (hex_loop f n) ≡ true
unfolding hex_loop
all_plain_hex_loop zero n = refl
all_plain_hex_loop (suc f) n = ground (
  arith,
  all_plain_hex_loop f (n / 16),
  all-append is_plain (hex_loop f (n / 16))
      ((if ltb (n % 16) 10 then 48 + n % 16 else 87 + n % 16) ∷ []),
)

pub all-hex : (n : ℕ) → all is_plain (hex n) ≡ true
unfolding hex
all-hex n = all_plain_hex_loop (suc n) n

digits_plain : (t : Text) → all is_digit t ≡ true → all is_plain t ≡ true
digits_plain [] h = refl
digits_plain (c ∷ t) h = ground (arith, digits_plain t)

pub all_plain-dec : (n : ℕ) → all is_plain (dec n) ≡ true
all_plain-dec n = digits_plain (dec n) (all-dec n)

pub length-dec_pos : (n : ℕ) → 0 < length (dec n)
unfolding dec dec_loop
length-dec_pos n = ground (arith, length-append (dec_loop n (n / 10)) ((48 + n % 10) ∷ []))
