-- ===== src/Float.antt =====
-- Floating-point numbers. A `float` is its bit pattern, so 0 is what `memset` leaves. The compiler's
-- arithmetic on floats is a parameter: what is shown of the programs holds for every arithmetic.
use uwb_apps.Prelude.{ℕ, Bool, ◌++◌, ◌∷◌}
use uwb_apps.Prelude.Int.{ℤ, abs_ℤ}
use uwb_apps.Text.{Text, dec, dec_ℤ, pad}

abbrev pub Float : Type 0
Float = ℕ

-- `to_int` drops the fraction, as a cast does; `div` is a division in `double`, `quotient` one in
-- `float`; `fabs` is the magnitude, `roundf` the nearest whole number as a `float`, and `nan` what
-- `nanf` gives.
pub record FloatOps : Type 0 where
  pub is_nan : Float → Bool
  pub add : Float → Float → Float
  pub sub : Float → Float → Float
  pub mul : Float → Float → Float
  pub div : Float → Float → Float
  pub quotient : Float → Float → Float
  pub fabs : Float → Float
  pub roundf : Float → Float
  pub nan : Float
  pub less : Float → Float → Bool
  pub round : Float → ℤ
  pub floor : Float → ℤ
  pub to_int : Float → ℤ
  pub of_int : ℤ → Float

-- The literals of the sources, by value.
abbrev pub f_1000 : Float
f_1000 = 0x447A0000

abbrev pub f_1 : Float
f_1 = 0x3F800000

abbrev pub f_half : Float
f_half = 0x3F000000

abbrev pub f_10 : Float
f_10 = 0x41200000

abbrev pub f_100 : Float
f_100 = 0x42C80000

abbrev pub f_128 : Float
f_128 = 0x43000000

abbrev pub f_5 : Float
f_5 = 0x40A00000

abbrev pub f_3 : Float
f_3 = 0x40400000

abbrev pub f_1000000 : Float
f_1000000 = 0x49742400

abbrev pub f_1000000000 : Float
f_1000000000 = 0x4E6E6B28

abbrev pub f_minus_200 : Float
f_minus_200 = 0xC3480000

abbrev pub f_minus_101300 : Float
f_minus_101300 = 0xC7C5DA00

-- `0.001f` and `0.10`, as floats
abbrev pub f_one_thousandth : Float
f_one_thousandth = 0x3A83126F

abbrev pub f_tenth : Float
f_tenth = 0x3DCCCCCD

-- A `double`, as its bit pattern.
abbrev pub Double : Type 0
Double = ℕ

-- Arithmetic in `double`, with the conversions from and to `float`.
pub record DoubleOps : Type 0 where
  pub widen : Float → Double
  pub narrow : Double → Float
  pub add_d : Double → Double → Double
  pub sub_d : Double → Double → Double
  pub mul_d : Double → Double → Double
  pub less_d : Double → Double → Bool

abbrev pub d_1 : Double
d_1 = 0x3FF0000000000000

-- `2.900`
abbrev pub d_2_9 : Double
d_2_9 = 0x4007333333333333

abbrev pub d_5 : Double
d_5 = 0x4014000000000000

module _ (ops : FloatOps) where
  -- `x-(int)x`
  abbrev pub fraction : Float → Float
  fraction x = ops.sub x (ops.of_int (ops.to_int x))

  -- `abs((int)(scale*(x-(int)x)))`, or the same product the other way round
  abbrev pub places : Float → Float → ℕ
  places scale x = abs_ℤ (ops.to_int (ops.mul scale (fraction x)))

  -- `%d.%0wd` of `(int)x` and these places; `%d.%d` is the one for a width of 0
  abbrev pub dotted : ℕ → Float → Float → Text
  dotted width scale x = dec_ℤ (ops.to_int x) ++ b'.' ∷ pad width (dec (places scale x))
