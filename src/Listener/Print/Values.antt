-- ===== src/Listener/Print/Values.antt =====
-- The values in a printed line of apps/listener/src/main.c against JSON values.
use uwb_apps.Prelude.{
  ℕ, ◌≡◌, ◌⊎◌, ◌∙◌, inl, inr, refl, sym, ap, true, false, List, [], ◌∷◌, ◌++◌, Option, none, some,
  all, all-append, if◌then◌else◌, Bool-cases,
}
use uwb_apps.Prelude.Int.{ℤ, pos, negsuc, abs_ℤ, pos_part, is_negative}
use uwb_apps.Float.{Float, FloatOps, f_10, f_1000, places}
use uwb_apps.Text.{codes, dec, dec_ℤ, hex, pad, pad_ℤ, is_plain}
use uwb_apps.Text.Decimal.{all-hex}
use uwb_apps.Json.{Json, null, num, emit, emit_items, is_valid}
use uwb_apps.Json.Parts.{items, commas_before, list_lem}
use uwb_apps.Json.Numbers.{
  decimal, emit-decimal, emit-decimal_ℤ, all_digits-pad, emit-scaled, all_plain-pad,
}
use uwb_apps.Listener.Print.{Line, bytes_text, in_range, level_text, pd_text, ppm, ppb, single_text}

pub bytes_plain : (xs : List ℕ) → all is_plain (bytes_text xs) ≡ true
bytes_plain [] = refl
bytes_plain (x ∷ xs) =
    all-append is_plain (pad 2 (hex x)) (bytes_text xs)
    ∙ rw (all_plain-pad 2 (hex x) (all-hex x), bytes_plain xs) refl

pad_ℤ-pos : (w : ℕ) (z : ℤ) → is_negative z ≡ false → pad_ℤ w z ≡ pad w (dec (pos_part z))
pad_ℤ-pos w (pos n) h = refl
pad_ℤ-pos w (negsuc n) h = cc

module _ (ops : FloatOps) where
  abbrev pub level_value : Float → Json
  level_value x =
      if in_range ops x
      then decimal (is_negative (ops.to_int x)) (abs_ℤ (ops.to_int x)) 1 (places ops f_10 x)
      else null

  pub level_lem : (x : Float) → level_text ops x ≡ emit (level_value x)
  unfolding emit
  level_lem x = elim (Bool-cases (in_range ops x)) [
    | inl h ↦ rw h (sym (emit-decimal_ℤ (ops.to_int x) 1 (places ops f_10 x)))
    | inr h ↦ rw h refl
  ]

  pub level_valid : (x : Float) → is_valid (level_value x) ≡ true
  unfolding is_valid
  level_valid x = elim (Bool-cases (in_range ops x)) [
    | inl h ↦ rw h (all_digits-pad 1 (places ops f_10 x))
    | inr h ↦ rw h refl
  ]

  abbrev pub pd_value : Float → Json
  pd_value x =
      if ops.is_nan x
      then null
      else decimal (ops.less x 0) (abs_ℤ (ops.to_int x)) 3 (places ops f_1000 x)

  pub pd_lem : (x : Float) → pd_text ops x ≡ emit (pd_value x)
  unfolding emit
  pd_lem x = elim (Bool-cases (ops.is_nan x)) [
    | inl h ↦ rw h refl
    | inr h ↦
        rw h (sym (emit-decimal (ops.less x 0) (abs_ℤ (ops.to_int x)) 3 (places ops f_1000 x)))
  ]

  pub pd_valid : (x : Float) → is_valid (pd_value x) ≡ true
  unfolding is_valid
  pd_valid x = elim (Bool-cases (ops.is_nan x)) [
    | inl h ↦ rw h refl
    | inr h ↦ rw h (all_digits-pad 3 (places ops f_1000 x))
  ]

  -- The phase differences of a line.
  abbrev pub differences : Line → List Float
  differences l = (elim l.single_pdoa [ none ↦ [] | some x ↦ x ∷ [] ]) ++ l.pd

  abbrev pub ccor_value : Line → Json
  ccor_value l = num (record {
    negative = is_negative (ppm ops l);
    whole = abs_ℤ (ppm ops l);
    places = pad 3 (dec (pos_part (ppb ops l)));
    exponent = some (negsuc 5);
  })

  pub ccor_lem :
      (l : Line)
      → is_negative (ppb ops l) ≡ false
      → dec_ℤ (ppm ops l) ++ b'.' ∷ (pad_ℤ 3 (ppb ops l) ++ codes "e-6") ≡ emit (ccor_value l)
  unfolding dec
  ccor_lem l h =
      ap (λ u. dec_ℤ (ppm ops l) ++ b'.' ∷ (u ++ codes "e-6")) (pad_ℤ-pos 3 (ppb ops l) h)
      ∙ sym (emit-scaled (ppm ops l) 3 (pos_part (ppb ops l)) (negsuc 5))

  pub ccor_valid : (l : Line) → is_valid (ccor_value l) ≡ true
  unfolding is_valid
  ccor_valid l = all_digits-pad 3 (pos_part (ppb ops l))

  pub single_lem :
      (s : Option Float) (pd : List Float)
      → (s ≡ none) ⊎ (pd ≡ [])
      → single_text ops s ++ (commas_before (pd_text ops) 0 pd ++ b']' ∷ [])
        ≡ emit_items (items pd_value ((elim s [ none ↦ [] | some x ↦ x ∷ [] ]) ++ pd)) true
  unfolding emit commas_before
  single_lem none pd h = list_lem (pd_text ops) pd_value pd_lem pd
  single_lem (some x) [] h = rw (pd_lem x) refl
  single_lem (some x) (y ∷ ys) (inl h) = cc
  single_lem (some x) (y ∷ ys) (inr h) = cc
