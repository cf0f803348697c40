-- ===== src/Listener/Print/Document.antt =====
-- The printed line of apps/listener/src/main.c against JSON documents.
use mathlib.Core.List.{append_assoc}
use uwb_apps.Prelude.{
  ℕ, ◌≡◌, ◌⊎◌, ◌∙◌, inl, inr, refl, sym, ap, true, false, List, [], ◌∷◌, ◌++◌, none, some, take,
  Bool-cases, all,
}
use uwb_apps.Prelude.Int.{pos, is_negative}
use uwb_apps.Float.{Float, FloatOps}
use uwb_apps.Text.{Text, codes, dec}
use uwb_apps.Json.{
  Json, str, arr, obj, Fields, field, no_fields, emit, emit_items, emit_fields, is_valid,
}
use uwb_apps.Json.Parts.{
  field_if, text_if, more_fields, fields_valid-if, fields_valid-no_fields, is_valid-obj,
  emit-no_fields, is_valid-arr, is_valid-str, int, emit-int, is_valid-int, items, are_valid-items,
  commas_before, list_lem,
}
use uwb_apps.Listener.Impulse.{
  print_cir, has_places, responses_value, print_cir_lem, responses_valid,
}
use uwb_apps.Listener.Print.{
  Line, Verbose, has_ccor, bytes_text, level_text, ppb, print_diag, print_ccor, print_pd,
  print_line,
}
use uwb_apps.Listener.Print.Values.{
  bytes_plain, level_value, level_lem, level_valid, pd_value, pd_lem, pd_valid, differences,
  ccor_value, ccor_lem, ccor_valid, single_lem,
}

module _ (ops : FloatOps) where
  abbrev cir_fields : Verbose → Line → Fields
  cir_fields v l =
      field_if v.cir (codes "cir") (responses_value ops v.samples l.responses) no_fields

  -- The document of a line.
  abbrev pub line_document : Verbose → Line → Json
  line_document v l = obj (
      field (codes "utime") (int (pos l.utime)) (
        field (codes "ts") (arr (items (λ t. int (pos t)) l.ts)) (
          field_if v.rx_diag (codes "rssi") (arr (items (level_value ops) l.rssi)) (
            field_if v.rx_diag (codes "fppl") (arr (items (level_value ops) l.fppl)) (
              field_if (has_ccor v l) (codes "ccor") (ccor_value ops l) (
                field (codes "pd") (arr (items (pd_value ops) (differences ops l))) (
                  field (codes "dlen") (int (pos l.dlen)) (
                    field (codes "d") (str (bytes_text (take l.dlen l.buffer)))
                      (cir_fields v l)))))))))

  module _ (v : Verbose) (l : Line) where
    abbrev last_fields : Fields
    last_fields =
        field (codes "dlen") (int (pos l.dlen))
          (field (codes "d") (str (bytes_text (take l.dlen l.buffer))) (cir_fields v l))

    abbrev pd_fields : Fields
    pd_fields = field (codes "pd") (arr (items (pd_value ops) (differences ops l))) last_fields

    abbrev ccor_fields : Fields
    ccor_fields = field_if (has_ccor v l) (codes "ccor") (ccor_value ops l) pd_fields

    abbrev diag_fields : Fields
    diag_fields =
        field_if v.rx_diag (codes "rssi") (arr (items (level_value ops) l.rssi))
          (field_if v.rx_diag (codes "fppl") (arr (items (level_value ops) l.fppl)) ccor_fields)

    cir_lem :
        all (has_places ops) l.responses ≡ true
        → print_cir ops v.cir v.samples l.responses ++ codes "}"
          ≡ emit_fields (cir_fields v l) false
    cir_lem h =
        ap (λ u. u ++ codes "}") (print_cir_lem ops v.cir v.samples l.responses h)
        ∙ ap
            (λ u.
              text_if v.cir (codes ",\"cir\":" ++ emit (responses_value ops v.samples l.responses))
              ++ u)
            (sym (emit-no_fields false))
        ∙ sym
            (more_fields v.cir (codes "cir") (responses_value ops v.samples l.responses) no_fields)

    last_lem :
        (t : Text)
        → t ≡ emit_fields (cir_fields v l) false
        → codes ",\"dlen\":"
            ++ (dec l.dlen
                ++ (codes ",\"d\":\"" ++ (bytes_text (take l.dlen l.buffer) ++ (codes "\"" ++ t))))
          ≡ emit_fields last_fields false
    unfolding emit
    last_lem t e = rw e (simp append_assoc)

    pd_fields_lem :
        (l.single_pdoa ≡ none) ⊎ (l.pd ≡ [])
        → (t : Text) → t ≡ emit_fields last_fields false
        → print_pd ops l ++ t ≡ emit_fields pd_fields false
    unfolding emit print_pd
    pd_fields_lem h t e =
        ap (λ u. codes ",\"pd\":[" ++ (u ++ t)) (single_lem ops l.single_pdoa l.pd h)
        ∙ ap
            (λ u.
              codes ",\"pd\":["
              ++ (emit_items (items (pd_value ops) (differences ops l)) true ++ u))
            e

    ccor_fields_lem :
        (is_negative (ppb ops l) ≡ false)
        → (t : Text) → t ≡ emit_fields pd_fields false
        → print_ccor ops v l ++ t ≡ emit_fields ccor_fields false
    unfolding print_ccor
    ccor_fields_lem h t e =
        ap (λ u. text_if (has_ccor v l) (codes ",\"ccor\":" ++ u) ++ t) (ccor_lem ops l h)
        ∙ ap (λ u. text_if (has_ccor v l) (codes ",\"ccor\":" ++ emit (ccor_value ops l)) ++ u) e
        ∙ sym (more_fields (has_ccor v l) (codes "ccor") (ccor_value ops l) pd_fields)

    diag_fields_lem :
        (t : Text)
        → t ≡ emit_fields ccor_fields false
        → print_diag ops v l ++ t ≡ emit_fields diag_fields false
    unfolding emit print_diag
    diag_fields_lem t e = elim (Bool-cases v.rx_diag) [
      | inl on ↦ rw on (
          rw
            (
              e,
              ← list_lem (level_text ops) (level_value ops) (level_lem ops) l.rssi,
              ← list_lem (level_text ops) (level_value ops) (level_lem ops) l.fppl,
            )
            (simp append_assoc))
      | inr off ↦ rw off e
    ]

  head_lem :
      (l : Line) (fs : Fields) (t : Text)
      → t ≡ emit_fields fs false
      → codes "{\"utime\":"
          ++ (dec l.utime ++ (codes ",\"ts\":[" ++ (commas_before dec 0 l.ts ++ codes "]" ++ t)))
        ≡ emit (
            obj (
              field
                (codes "utime")
                (int (pos l.utime))
                (field (codes "ts") (arr (items (λ time. int (pos time)) l.ts)) fs)))
  unfolding emit
  head_lem l fs t e =
      rw (e, ← list_lem dec (λ time. int (pos time)) (λ time. sym (emit-int (pos time))) l.ts)
        (simp append_assoc)

  -- What a line of JSON asks of the measurements.
  abbrev pub IsPrintable : Line → Type 0
  IsPrintable l =
      ((l.single_pdoa ≡ none) ⊎ (l.pd ≡ []))
      × (is_negative (ppb ops l) ≡ false)
      × (all (has_places ops) l.responses ≡ true)

  -- In the builds that are modelled, a line is the text of a JSON document, and valid: unless a radio
  -- with the capability single_receiver_pdoa has a second radio beside it, and as long as no thousandths
  -- are negative, those of the clock offset and those of each impulse response.
  pub print_line_lem :
      (v : Verbose) (l : Line)
      → IsPrintable l
      → (print_line ops v l ≡ emit (line_document v l)) × (is_valid (line_document v l) ≡ true)
  unfolding print_line
  print_line_lem v l (h, sign, responses) =
      let times : ℕ → Json = λ time. int (pos time) in
      let levels : (xs : List Float) → is_valid (arr (items (level_value ops) xs)) ≡ true =
        λ xs. is_valid-arr _ ∙ are_valid-items (level_value ops) (level_valid ops) xs in
      (
        head_lem l (diag_fields v l) _ (
            diag_fields_lem v l _ (
              ccor_fields_lem v l sign _
                (pd_fields_lem v l h _ (last_lem v l _ (cir_lem v l responses))))),
        is_valid-obj _
            ∙ fields_valid-if true (codes "utime") _ _ refl (is_valid-int (pos l.utime))
            ∙ fields_valid-if true (codes "ts") _ _ refl
                (is_valid-arr _ ∙ are_valid-items times (λ time. is_valid-int (pos time)) l.ts)
            ∙ fields_valid-if v.rx_diag (codes "rssi") _ _ refl (levels l.rssi)
            ∙ fields_valid-if v.rx_diag (codes "fppl") _ _ refl (levels l.fppl)
            ∙ fields_valid-if (has_ccor v l) (codes "ccor") _ _ refl (ccor_valid ops l)
            ∙ fields_valid-if true (codes "pd") _ _ refl
                (is_valid-arr _ ∙ are_valid-items (pd_value ops) (pd_valid ops) (differences ops l))
            ∙ fields_valid-if true (codes "dlen") _ _ refl (is_valid-int (pos l.dlen))
            ∙ fields_valid-if true (codes "d") _ _ refl
                (is_valid-str _ ∙ bytes_plain (take l.dlen l.buffer))
            ∙ fields_valid-if v.cir (codes "cir") _ _ refl
                (responses_valid ops v.samples l.responses)
            ∙ fields_valid-no_fields,
      )

  -- With two radios, of which the first has the capability single_receiver_pdoa, its phase difference
  -- and that between the radios are printed one behind the other with nothing between them.
  pub no_comma :
      (v : Verbose) (l : Line) (x y : Float)
      → l.single_pdoa ≡ some x
      → l.pd ≡ y ∷ []
      → (s t : Text) × (print_line ops v l
          ≡ s ++ (emit (pd_value ops x) ++ (emit (pd_value ops y) ++ t)))
  unfolding print_line print_pd commas_before
  no_comma v l x y single pd = (
    codes "{\"utime\":"
        ++ (dec l.utime
            ++ (codes ",\"ts\":["
                ++ (commas_before dec 0 l.ts
                    ++ (codes "]"
                        ++ (print_diag ops v l ++ (print_ccor ops v l ++ codes ",\"pd\":[")))))),
    codes "],\"dlen\":"
        ++ (dec l.dlen
            ++ (codes ",\"d\":\""
                ++ (bytes_text (take l.dlen l.buffer)
                    ++ (codes "\"" ++ (print_cir ops v.cir v.samples l.responses ++ codes "}"))))),
    rw (single, pd, ← pd_lem ops x, ← pd_lem ops y) (simp append_assoc),
  )
