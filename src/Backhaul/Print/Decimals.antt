-- ===== src/Backhaul/Print/Decimals.antt =====
-- What the numbers in a printed line read as.
use uwb_apps.Prelude.{
  ℕ, zero, suc, ◌/◌, ◌%◌, ◌≡◌, refl, ap, ◌∙◌, Bool, true, false, not, List, [], ◌∷◌, ◌++◌,
  if◌then◌else◌, arith,
}
use uwb_apps.Prelude.Int.{ℤ, pos, negsuc, abs_ℤ, is_negative, ltb_ℤ}
use uwb_apps.Text.{dec, pad}
use uwb_apps.Text.Fixed.{read_signed, signed, read_signed-thousandths}
use uwb_apps.Backhaul.Packet.{RangeData}
use uwb_apps.Backhaul.Print.{dd_text, ddist_text}

-- The number that a text reads as, in thousandths, where it has three places.
abbrev pub read_millimetres : List ℕ → ℤ × ℕ
read_millimetres t = let (negative, n, k) = read_signed t in (signed negative n, k)

signed_above : (d : ℤ) → signed (not (ltb_ℤ (pos 0) d)) (abs_ℤ d) ≡ d
signed_above (pos zero) = refl
signed_above (pos (suc n)) = ground arith
signed_above (negsuc n) = ground arith

signed_below : (d : ℤ) → signed (is_negative d) (abs_ℤ d) ≡ d
signed_below (pos n) = refl
signed_below (negsuc n) = refl

sign_first :
    (b : Bool)
    → let minus : List ℕ = b'-' ∷ [] in
      let none : List ℕ = [] in (if b then none else minus) ≡ (if not b then minus else none)
sign_first true = refl
sign_first false = refl

-- The difference of distances of an entry reads back from the printed line, to the millimetre and
-- with its sign, in the compact form and in the full one.
pub read-ddist :
    (r : RangeData)
    → (read_millimetres (dd_text r) ≡ (r.diff_dist_mm, 3))
      × (read_millimetres (ddist_text r) ≡ (r.diff_dist_mm, 3))
read-ddist r =
    let d = r.diff_dist_mm in
    let value : Bool × ℕ × ℕ → ℤ × ℕ = λ q. (signed q.0 q.1, q.2) in
    (
      ap
            (λ u.
              read_millimetres (u ++ (dec (abs_ℤ d / 1000) ++ b'.' ∷ pad 3 (dec (abs_ℤ d % 1000)))))
            (sign_first (ltb_ℤ (pos 0) d))
          ∙ ap value (read_signed-thousandths (not (ltb_ℤ (pos 0) d)) (abs_ℤ d))
          ∙ ap (λ z. (z, 3)) (signed_above d),
      ap value (read_signed-thousandths (is_negative d) (abs_ℤ d))
          ∙ ap (λ z. (z, 3)) (signed_below d),
    )
