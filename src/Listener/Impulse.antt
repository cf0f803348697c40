-- ===== src/Listener/Impulse.antt =====
-- The impulse responses in a line of apps/listener/src/main.c, which builds with CIR_ENABLED print.
use mathlib.Core.List.{append_assoc}
use uwb_apps.Prelude.{
  ◌≡◌, refl, sym, ap, ◌∙◌, Bool, true, false, not, ◌&&◌, List, ◌∷◌, ◌++◌, all, arith,
}
use uwb_apps.Prelude.Int.{ℤ, pos, negsuc, abs_ℤ, is_negative}
use uwb_apps.Float.{Float, FloatOps, f_1000, fraction}
use uwb_apps.Text.{Text, codes, dec_ℤ, pad_ℤ}
use uwb_apps.Json.{Json, arr, obj, field, no_fields, emit, is_valid}
use uwb_apps.Json.Parts.{
  text_if, commas_before, int, emit-int, is_valid-int, items, field_if, fields_valid-if,
  fields_valid-no_fields, is_valid-obj, is_valid-arr, are_valid-items, list_lem, before_loop,
  emit-arr,
}
use uwb_apps.Json.Numbers.{decimal, emit-decimal_ℤ, is_valid-decimal}

-- What is printed of an impulse response; `real` and `imag` hold the samples that were asked for.
pub record Response : Type 0 where
  pub offset : ℤ
  pub fp_idx : Float
  pub rcphase : Float
  pub angle : Float
  pub raw_ts : ℤ
  pub real : List ℤ
  pub imag : List ℤ

module _ (ops : FloatOps) where
  -- `(int)(1000*(x-(int)x))`, and the same of its magnitude
  abbrev pub signed_places : Float → ℤ
  signed_places x = ops.to_int (ops.mul f_1000 (fraction ops x))

  abbrev pub size_places : Float → ℤ
  size_places x = ops.to_int (ops.fabs (ops.mul f_1000 (fraction ops x)))

  -- `%d.%03d`
  abbrev pub with_places : ℤ → Float → Text
  with_places n x = dec_ℤ (ops.to_int x) ++ b'.' ∷ pad_ℤ 3 n

  -- One response; `samples` is `acc_samples_to_load` as a condition.
  unfoldable pub response_text : Bool → Response → Text
  response_text samples r =
      codes "{\"o\":"
      ++ (dec_ℤ r.offset
          ++ (codes ",\"fp_idx\":"
              ++ (with_places (signed_places r.fp_idx) r.fp_idx
                  ++ (codes ",\"rcphase\":"
                      ++ (with_places (size_places r.rcphase) r.rcphase
                          ++ (codes ",\"angle\":"
                              ++ (with_places (size_places r.angle) r.angle
                                  ++ (codes ",\"rts\":"
                                      ++ (dec_ℤ r.raw_ts
                                          ++ (text_if samples (
                                                codes ",\"real\":["
                                                ++ (commas_before dec_ℤ 0 r.real
                                                    ++ (codes "],\"imag\":["
                                                        ++ (commas_before dec_ℤ 0 r.imag
                                                            ++ codes "]"))))
                                              ++ codes "}"))))))))))

  -- The list of them, on the bit VERBOSE_CIR.
  unfoldable pub print_cir : (on samples : Bool) → List Response → Text
  print_cir on samples rs =
      text_if on (codes ",\"cir\":[" ++ (commas_before (response_text samples) 0 rs ++ codes "]"))

  abbrev places_value : ℤ → Float → Json
  places_value n x = decimal (is_negative (ops.to_int x)) (abs_ℤ (ops.to_int x)) 3 (abs_ℤ n)

  places_lem :
      (n : ℤ) (x : Float) → is_negative n ≡ false → with_places n x ≡ emit (places_value n x)
  places_lem (pos n) x h = sym (emit-decimal_ℤ (ops.to_int x) 3 n)
  places_lem (negsuc n) x h = absurd (ground arith)

  -- The document of a response, and what it asks: no digits behind a point are negative.
  abbrev pub response_value : Bool → Response → Json
  response_value samples r = obj (
      field (codes "o") (int r.offset) (
        field (codes "fp_idx") (places_value (signed_places r.fp_idx) r.fp_idx) (
          field (codes "rcphase") (places_value (size_places r.rcphase) r.rcphase) (
            field (codes "angle") (places_value (size_places r.angle) r.angle) (
              field (codes "rts") (int r.raw_ts) (
                field_if samples (codes "real") (arr (items int r.real))
                  (field_if samples (codes "imag") (arr (items int r.imag)) no_fields)))))))

  abbrev pub has_places : Response → Bool
  has_places r =
      not (is_negative (signed_places r.fp_idx))
      && (not (is_negative (size_places r.rcphase)) && not (is_negative (size_places r.angle)))

  response_lem :
      (samples : Bool) (r : Response)
      → has_places r ≡ true
      → response_text samples r ≡ emit (response_value samples r)
  unfolding response_text emit
  response_lem true r h =
      let idx = places_lem (signed_places r.fp_idx) r.fp_idx (ground arith) in
      let phase = places_lem (size_places r.rcphase) r.rcphase (ground arith) in
      let angle = places_lem (size_places r.angle) r.angle (ground arith) in
      let real = list_lem dec_ℤ int (λ z. sym (emit-int z)) r.real in
      let imag = list_lem dec_ℤ int (λ z. sym (emit-int z)) r.imag in
      rw (idx, phase, angle, ← emit-int r.offset, ← emit-int r.raw_ts, ← real, ← imag)
        (simp append_assoc)
  response_lem false r h =
      let idx = places_lem (signed_places r.fp_idx) r.fp_idx (ground arith) in
      let phase = places_lem (size_places r.rcphase) r.rcphase (ground arith) in
      let angle = places_lem (size_places r.angle) r.angle (ground arith) in
      rw (idx, phase, angle, ← emit-int r.offset, ← emit-int r.raw_ts) refl

  response_valid : (samples : Bool) (r : Response) → is_valid (response_value samples r) ≡ true
  response_valid samples r =
      let numbers : (zs : List ℤ) → is_valid (arr (items int zs)) ≡ true =
        λ zs. is_valid-arr _ ∙ are_valid-items int is_valid-int zs in
      is_valid-obj _
      ∙ fields_valid-if true (codes "o") _ _ refl (is_valid-int r.offset)
      ∙ fields_valid-if true (codes "fp_idx") _ _ refl (is_valid-decimal _ _ _ _)
      ∙ fields_valid-if true (codes "rcphase") _ _ refl (is_valid-decimal _ _ _ _)
      ∙ fields_valid-if true (codes "angle") _ _ refl (is_valid-decimal _ _ _ _)
      ∙ fields_valid-if true (codes "rts") _ _ refl (is_valid-int r.raw_ts)
      ∙ fields_valid-if samples (codes "real") _ _ refl (numbers r.real)
      ∙ fields_valid-if samples (codes "imag") _ _ refl (numbers r.imag)
      ∙ fields_valid-no_fields

  -- The list of responses as a value, its text and its validity.
  abbrev pub responses_value : Bool → List Response → Json
  responses_value samples rs = arr (items (response_value samples) rs)

  pub print_cir_lem :
      (on samples : Bool) (rs : List Response)
      → all has_places rs ≡ true
      → print_cir on samples rs
        ≡ text_if on (codes ",\"cir\":" ++ emit (responses_value samples rs))
  unfolding print_cir
  print_cir_lem on samples rs h =
      let list =
        before_loop (response_text samples) (response_value samples) has_places
          (response_lem samples) 0 rs h in
      ap (λ u. text_if on (codes ",\"cir\":[" ++ u)) list
      ∙ ap (λ u. text_if on (codes ",\"cir\":" ++ u)) (sym (emit-arr _))

  pub responses_valid :
      (samples : Bool) (rs : List Response) → is_valid (responses_value samples rs) ≡ true
  responses_valid samples rs =
      is_valid-arr _ ∙ are_valid-items (response_value samples) (response_valid samples) rs
