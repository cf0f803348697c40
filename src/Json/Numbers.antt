-- ===== src/Json/Numbers.antt =====
-- Decimal numbers in documents, and the texts that `printf` makes of them.
use mathlib.Core.List.{append-nil}
use uwb_apps.Prelude.{
  ℕ, zero, suc, ◌-◌, ◌<◌, ◌≡◌, refl, ◌∙◌, Bool, true, false, [], ◌∷◌, ◌++◌, length, length-append,
  replicate, all, all-append, none, some, arith, if◌then◌else◌,
}
use uwb_apps.Prelude.Int.{ℤ, pos, negsuc, abs_ℤ, is_negative}
use uwb_apps.Text.{Text, dec, dec_ℤ, pad, is_digit, is_plain}
use uwb_apps.Text.Decimal.{all-dec, length-dec_pos, all_plain-dec}
use uwb_apps.Float.{Float, FloatOps, dotted, places}
use uwb_apps.Json.{Json, num, emit, is_valid, point}

all_digits-replicate : (n : ℕ) → all is_digit (replicate n b'0') ≡ true
all_digits-replicate zero = refl
all_digits-replicate (suc n) = all_digits-replicate n

all_plain-replicate : (n : ℕ) → all is_plain (replicate n b'0') ≡ true
all_plain-replicate zero = refl
all_plain-replicate (suc n) = all_plain-replicate n

pub all_digits-pad : (w n : ℕ) → all is_digit (pad w (dec n)) ≡ true
all_digits-pad w n =
    all-append is_digit (replicate (w - length (dec n)) b'0') (dec n)
    ∙ rw (all_digits-replicate (w - length (dec n)), all-dec n) refl

pub all_plain-pad : (w : ℕ) (t : Text) → all is_plain t ≡ true → all is_plain (pad w t) ≡ true
all_plain-pad w t h =
    all-append is_plain (replicate (w - length t) b'0') t
    ∙ rw (all_plain-replicate (w - length t), h) refl

pub all_plain-dec_ℤ : (z : ℤ) → all is_plain (dec_ℤ z) ≡ true
all_plain-dec_ℤ (pos n) = all_plain-dec n
all_plain-dec_ℤ (negsuc n) = all_plain-dec (suc n)

point_lem : (t : Text) → 0 < length t → point t ≡ b'.' ∷ t
point_lem [] h = absurd (omega arith)
point_lem (c ∷ t) h = refl

length-pad_pos : (w : ℕ) (t : Text) → 0 < length t → 0 < length (pad w t)
length-pad_pos w t h = omega (arith, length-append (replicate (w - length t) b'0') t)

-- A whole part with `n` behind the point, in `w` places at least.
abbrev pub decimal : Bool → ℕ → ℕ → ℕ → Json
decimal negative whole w n =
    num (record { negative = negative; whole = whole; places = pad w (dec n); exponent = none })

pub is_valid-decimal : (b : Bool) (m w n : ℕ) → is_valid (decimal b m w n) ≡ true
unfolding is_valid
is_valid-decimal b m w n = all_digits-pad w n

-- `%s%d.%0wd` with a sign that is printed apart
pub emit-decimal :
    (b : Bool) (m w n : ℕ)
    → emit (decimal b m w n) ≡ (if b then b'-' ∷ [] else []) ++ (dec m ++ b'.' ∷ pad w (dec n))
unfolding emit
emit-decimal b m w n =
    rw
      (
        point_lem (pad w (dec n)) (length-pad_pos w (dec n) (length-dec_pos n)),
        append-nil (b'.' ∷ pad w (dec n)),
      )
      refl

-- `%d.%0wd` of a signed whole part
pub emit-decimal_ℤ :
    (z : ℤ) (w n : ℕ)
    → emit (decimal (is_negative z) (abs_ℤ z) w n) ≡ dec_ℤ z ++ b'.' ∷ pad w (dec n)
emit-decimal_ℤ (pos m) w n = emit-decimal false m w n
emit-decimal_ℤ (negsuc m) w n = emit-decimal true (suc m) w n

-- `%d.%0wde%d`
pub emit-scaled :
    (z : ℤ) (w n : ℕ) (e : ℤ)
    → emit (
        num (record {
          negative = is_negative z;
          whole = abs_ℤ z;
          places = pad w (dec n);
          exponent = some e;
        }))
      ≡ dec_ℤ z ++ b'.' ∷ (pad w (dec n) ++ b'e' ∷ dec_ℤ e)
unfolding emit
emit-scaled (pos m) w n e =
    rw (point_lem (pad w (dec n)) (length-pad_pos w (dec n) (length-dec_pos n))) refl
emit-scaled (negsuc m) w n e =
    rw (point_lem (pad w (dec n)) (length-pad_pos w (dec n) (length-dec_pos n))) refl

-- The texts of floats hold no characters that need an escape.
pub all_plain-dotted :
    (ops : FloatOps) (w : ℕ) (scale x : Float) → all is_plain (dotted ops w scale x) ≡ true
all_plain-dotted ops w scale x =
    let tail : all is_plain (b'.' ∷ pad w (dec (places ops scale x))) ≡ true =
      all_plain-pad w (dec (places ops scale x)) (all_plain-dec (places ops scale x)) in
    all-append is_plain (dec_ℤ (ops.to_int x)) (b'.' ∷ pad w (dec (places ops scale x)))
    ∙ rw (all_plain-dec_ℤ (ops.to_int x), tail) refl
