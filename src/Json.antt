-- ===== src/Json.antt =====
-- JSON documents and their text, as RFC 8259 has it, without white space: what the printed lines of
-- the programs are compared with.
pub mod Parts
pub mod Numbers
use uwb_apps.Prelude.{
  ℕ, Bool, true, false, not, ◌&&◌, List, [], ◌∷◌, ◌++◌, Option, none, some, all, ltb, ◌==◌,
  if◌then◌else◌,
}
use uwb_apps.Prelude.Int.{ℤ}
use uwb_apps.Text.{Text, dec, dec_ℤ, is_digit, is_plain}

-- A number: its sign, its whole part, the digits behind the point (none: no point), and its exponent.
pub record Number : Type 0 where
  pub negative : Bool
  pub whole : ℕ
  pub places : Text
  pub exponent : Option ℤ

mutual
  pub data Json : Type 0 where
    null : Json
    num : Number → Json
    str : Text → Json
    arr : Items → Json
    obj : Fields → Json

  pub data Items : Type 0 where
    no_items : Items
    item : Json → Items → Items

  pub data Fields : Type 0 where
    no_fields : Fields
    field : Text → Json → Fields → Fields

abbrev pub sep : Bool → Text
sep first = if first then [] else b',' ∷ []

abbrev pub point : Text → Text
point [] = []
point (c ∷ t) = b'.' ∷ c ∷ t

abbrev pub raised : Option ℤ → Text
raised none = []
raised (some z) = b'e' ∷ dec_ℤ z

abbrev pub emit_number : Number → Text
emit_number n =
    (if n.negative then b'-' ∷ [] else []) ++ (dec n.whole ++ (point n.places ++ raised n.exponent))

abbrev pub quoted : Text → Text
quoted t = b'"' ∷ (t ++ b'"' ∷ [])

unfoldable mutual
  pub emit : Json → Text
  emit null = b'n' ∷ b'u' ∷ b'l' ∷ b'l' ∷ []
  emit (num n) = emit_number n
  emit (str t) = quoted t
  emit (arr xs) = b'[' ∷ emit_items xs true
  emit (obj fs) = b'{' ∷ emit_fields fs true

  pub emit_items : Items → Bool → Text
  emit_items no_items first = b']' ∷ []
  emit_items (item v xs) first = sep first ++ (emit v ++ emit_items xs false)

  pub emit_fields : Fields → Bool → Text
  emit_fields no_fields first = b'}' ∷ []
  emit_fields (field k v fs) first =
      sep first ++ b'"' ∷ (k ++ b'"' ∷ b':' ∷ (emit v ++ emit_fields fs false))

-- A document whose text is JSON: names and strings need no escapes, and behind a point stand digits.
unfoldable mutual
  pub is_valid : Json → Bool
  is_valid null = true
  is_valid (num n) = all is_digit n.places
  is_valid (str t) = all is_plain t
  is_valid (arr xs) = are_valid xs
  is_valid (obj fs) = fields_valid fs

  pub are_valid : Items → Bool
  are_valid no_items = true
  are_valid (item v xs) = is_valid v && are_valid xs

  pub fields_valid : Fields → Bool
  fields_valid no_fields = true
  fields_valid (field k v fs) = all is_plain k && (is_valid v && fields_valid fs)
