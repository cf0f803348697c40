-- ===== src/Text.antt =====
-- The text that the programs print: lists of code points, and the conversions of `printf` that they
-- use on integers.
use Prim.Native.Char.{code}
use Prim.Native.String.{String}
use uwb_apps.Prelude.{
  ℕ, zero, suc, ◌+◌, ◌-◌, ◌/◌, ◌%◌, Bool, true, false, not, ◌&&◌, List, [], ◌∷◌, ◌++◌, length,
  replicate, ltb, leb, ◌==◌, if◌then◌else◌,
}
use uwb_apps.Prelude.Int.{ℤ, pos, negsuc}
pub mod Decimal
pub mod Fixed

abbrev pub Text : Type 0
Text = List ℕ

-- The code points of a literal.
abbrev pub codes : String → Text
codes String.[] = []
codes (String.◌∷◌ c s) = code c ∷ codes s

-- Digits in decimal, and in lower-case hexadecimal. The rounds are one more than the number, so that
-- they do not run out.
unfoldable pub dec_loop : ℕ → ℕ → Text
dec_loop zero n = []
dec_loop (suc f) n =
    let more = dec_loop f (n / 10) in (if ltb n 10 then [] else more) ++ (48 + n % 10) ∷ []

unfoldable pub dec : ℕ → Text
unfolding dec_loop
dec n = dec_loop (suc n) n

abbrev pub hex_digit : ℕ → ℕ
hex_digit d = if ltb d 10 then 48 + d else 87 + d

unfoldable pub hex_loop : ℕ → ℕ → Text
hex_loop zero n = []
hex_loop (suc f) n =
    let more = hex_loop f (n / 16) in (if ltb n 16 then [] else more) ++ hex_digit (n % 16) ∷ []

unfoldable pub hex : ℕ → Text
unfolding hex_loop
hex n = hex_loop (suc n) n

-- Letters in upper case, and `%X`.
abbrev pub to_upper : ℕ → ℕ
to_upper c = if leb b'a' c && leb c b'f' then c - 32 else c

abbrev pub upper : Text → Text
upper [] = []
upper (c ∷ t) = to_upper c ∷ upper t

unfoldable pub hex_upper : ℕ → Text
hex_upper n = upper (hex n)

-- A text filled up with zeros on the left.
abbrev pub pad : ℕ → Text → Text
pad width t = replicate (width - length t) b'0' ++ t

-- `%d`
abbrev pub dec_ℤ : ℤ → Text
dec_ℤ (pos n) = dec n
dec_ℤ (negsuc n) = b'-' ∷ dec (suc n)

-- `%0wd` for a width of w
abbrev pub pad_ℤ : ℕ → ℤ → Text
pad_ℤ width (pos n) = pad width (dec n)
pad_ℤ width (negsuc n) = b'-' ∷ pad (width - 1) (dec (suc n))

abbrev pub is_digit : ℕ → Bool
is_digit c = leb b'0' c && leb c b'9'

-- What a text between quotes may hold as it stands: no quote, no backslash, no control character.
abbrev pub is_plain : ℕ → Bool
is_plain c = leb 32 c && not (c == b'"') && not (c == b'\\')
