-- ===== src/Tdoa/Conf.antt =====
-- The configuration of apps/tdoa_tag/src/main.c: the handler `main` of the settings subsystem, with
-- the text of the blink rate as its state.
use text.Mathlib.Text.{◌==◌ as str_eq}
use Prim.Native.String.{String}
use uwb_apps.Prelude.{
  ℕ, ◌≡◌, refl, Bool, false, List, [], ◌∷◌, Option, none, some, if◌then◌else◌, Bool-cases, inl, inr,
}

-- `argc == 1` and `strcmp` with the key of the rate.
abbrev is_rate : List String → Bool
is_rate [] = false
is_rate (a ∷ []) = str_eq a "blink_rate"
is_rate (a ∷ b ∷ rest) = false

-- `uwb_conf_get`
uwb_conf_get : List String → String → Option String
uwb_conf_get argv rate = if is_rate argv then some rate else none

-- `uwb_conf_set`. `fits size v` is whether CONF_VALUE_SET can store a text in an array; else it
-- returns `einval` and stores nothing. The result is the return code.
uwb_conf_set : (ℕ → String → Bool) → ℕ → ℕ → List String → String → String → String × ℕ
uwb_conf_set fits einval enoent argv v rate =
    if is_rate argv then (if fits 8 v then (v, 0) else (rate, einval)) else (rate, enoent)

-- `uwb_conf_export`: the names and texts that are exported.
abbrev uwb_conf_export : String → List (String × String)
uwb_conf_export rate = ("main/blink_rate", rate) ∷ []

-- After a set, a get of the same key gives the new text where it fits its array, and the old one
-- where it does not; for other keys it gives nothing.
rate_get-set :
    (fits : ℕ → String → Bool) (einval enoent : ℕ) (argv : List String) (v rate : String)
    → uwb_conf_get argv (uwb_conf_set fits einval enoent argv v rate).0
      ≡ (if is_rate argv then (if fits 8 v then some v else some rate) else none)
unfolding uwb_conf_get uwb_conf_set
rate_get-set fits einval enoent argv v rate = elim (Bool-cases (is_rate argv)) [
  | inl key ↦ elim (Bool-cases (fits 8 v)) [ inl h ↦ rw (key, h) refl | inr h ↦ rw (key, h) refl ]
  | inr other ↦ rw other refl
]
