-- ===== src/Startup/Banner/Documents.antt =====
-- The lines of the start-up beside JSON documents.
use mathlib.Core.List.{append_assoc, append-nil}
use uwb_apps.Prelude.{
  ℕ, ◌≡◌, ◌≢◌, refl, sym, ◌∙◌, true, false, List, [], ◌∷◌, ◌++◌, all, length, ◌<◌, Bool-cases, inl,
  inr, arith,
}
use uwb_apps.Text.{Text, codes, dec, hex, is_plain, is_digit, upper, hex_upper}
use uwb_apps.Text.Decimal.{all-hex, all-dec, length-dec_pos}
use uwb_apps.Json.{
  Json, null, num, str, arr, obj, Fields, Number, emit_number, emit_fields, point, raised,
  no_fields, field, emit, is_valid,
}
use uwb_apps.Startup.{Device}
use uwb_apps.Startup.Banner.{part_id, lot_id, banner, banner_with, banner_listener}

-- A line is the text of a valid JSON document.
abbrev pub IsDocument : Text → Type 0
IsDocument t = (v : Json) × (is_valid v ≡ true) × (t ≡ emit v ++ 10 ∷ [])

all_plain-upper : (t : Text) → all is_plain t ≡ true → all is_plain (upper t) ≡ true
all_plain-upper [] h = refl
all_plain-upper (c ∷ t) h = ground (arith, all_plain-upper t)

all_plain-hex_upper : (n : ℕ) → all is_plain (hex_upper n) ≡ true
unfolding hex_upper
all_plain-hex_upper n = all_plain-upper (hex n) (all-hex n)

-- Two plain texts that a quote ends are the same, and so is what comes behind.
plain_split :
    (k l r s : Text)
    → all is_plain k ≡ true
    → all is_plain l ≡ true
    → k ++ b'"' ∷ r ≡ l ++ b'"' ∷ s
    → r ≡ s
plain_split [] [] r s hk hl e = cc
plain_split [] (c ∷ l) r s hk hl e = ground arith
plain_split (c ∷ k) [] r s hk hl e = ground arith
plain_split (c ∷ k) (d ∷ l) r s hk hl e = plain_split k l r s (ground arith) (ground arith) (cc)

-- `{"name":"text"`, … with one field for each
abbrev hex_fields : List (Text × ℕ) → Fields
hex_fields [] = no_fields
hex_fields ((k, n) ∷ ks) = field k (str (hex_upper n)) (hex_fields ks)

banner-IsDocument : (d : Device) → IsDocument (banner d)
unfolding banner emit is_valid
banner-IsDocument d = (
  obj (
      hex_fields (
        (codes "device_id", d.device_id)
        ∷ (codes "panid", d.pan_id)
        ∷ (codes "addr", d.uid)
        ∷ (codes "part_id", part_id d)
        ∷ (codes "lot_id", lot_id d)
        ∷ [])),
  rw
      (
        all_plain-hex_upper d.device_id,
        all_plain-hex_upper d.pan_id,
        all_plain-hex_upper d.uid,
        all_plain-hex_upper (part_id d),
        all_plain-hex_upper (lot_id d),
      )
      refl,
  simp (append_assoc, append-nil),
)

digits_head : (ds rest t : Text) → all is_digit ds ≡ true → 0 < length ds → ds ++ rest ≢ b'{' ∷ t
digits_head [] rest t h some_digit = absurd (omega arith)
digits_head (c ∷ ds) rest t h some_digit = λ e. ground arith

number_head : (n : Number) (rest t : Text) → emit_number n ++ rest ≢ b'{' ∷ t
number_head n rest t = elim (Bool-cases n.negative) [
  | inl minus ↦ rw minus (λ e. ground arith)
  | inr plus ↦ rw plus (λ e.
      digits_head (dec n.whole) ((point n.places ++ raised n.exponent) ++ rest) t (all-dec n.whole)
        (length-dec_pos n.whole)
        (sym (append_assoc (dec n.whole) (point n.places ++ raised n.exponent) rest) ∙ e))
]

-- A document that begins with a name: the name is plain, and a colon follows.
named_object :
    (v : Json) (t : Text)
    → is_valid v ≡ true
    → emit v ++ 10 ∷ [] ≡ b'{' ∷ b'"' ∷ t
    → (k : Text) × (r : Text) × (all is_plain k ≡ true) × (t ≡ k ++ b'"' ∷ b':' ∷ r)
unfolding emit is_valid
named_object null t h e = absurd (ground arith)
named_object (num n) t h e = absurd (number_head n (10 ∷ []) (b'"' ∷ t) e)
named_object (str u) t h e = absurd (ground arith)
named_object (arr xs) t h e = absurd (ground arith)
named_object (obj no_fields) t h e = absurd (ground arith)
named_object (obj (field k v fs)) t h e =
    let e' : t ≡ (k ++ b'"' ∷ b':' ∷ (emit v ++ emit_fields fs false)) ++ 10 ∷ [] = cc in
    (k, emit v ++ (emit_fields fs false ++ 10 ∷ []), ground arith, e' ∙ simp append_assoc)

-- With `=` behind the name no line is the text of a document.
unnamed_object :
    (k t : Text) → all is_plain k ≡ true → ¬ IsDocument (b'{' ∷ b'"' ∷ (k ++ b'"' ∷ b'=' ∷ t))
unnamed_object k t h (v, valid, e) =
    let (k', r, plain, e') = named_object v (k ++ b'"' ∷ b'=' ∷ t) valid (sym e) in
    absurd (ground (arith, plain_split k k' (b'=' ∷ t) (b':' ∷ r) h plain e'))

-- apps/rtdoa_node and apps/twr_nranges_tdma print the identity of the device as a line of JSON. The lines of
-- apps/twr_node_tdma, apps/twr_tag_tdma, apps/twr_aloha, apps/streaming, apps/tdoa_tag, apps/rtdoa_tag and
-- apps/listener are not one, in the form without white space that a line is compared with, since `=`
-- stands behind the first name. The lines of the two of ota_uwb are not meant.
pub identity_lines :
    (role : Text) (d : Device)
    → IsDocument (banner d) × ¬ IsDocument (banner_with role d) × ¬ IsDocument (banner_listener d)
unfolding banner_with banner_listener
identity_lines role d = (
  banner-IsDocument d,
  unnamed_object (codes "device_id") _ refl,
  unnamed_object (codes "device_id") _ refl,
)
