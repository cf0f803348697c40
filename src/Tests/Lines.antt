-- ===== src/Tests/Lines.antt =====
-- Examples for the lines of apps/listener.
use uwb_apps.Prelude.{◌≡◌, refl, true, false, [], ◌∷◌, ◌++◌, some, none, inl}
use uwb_apps.Prelude.Int.{pos, negsuc}
use uwb_apps.Text.{Text}
use uwb_apps.Json.{emit, is_valid}
use uwb_apps.Listener.Impulse.{Response}
use uwb_apps.Listener.Print.{Line, Verbose, print_line}
use uwb_apps.Listener.Print.Values.{pd_value}
use uwb_apps.Listener.Print.Document.{line_document, print_line_lem, no_comma}
use uwb_apps.Tests.Fixtures.{ops_ex}

abbrev pub response_ex : Response
response_ex = record {
  offset = pos 3;
  fp_idx = 745;
  rcphase = 2;
  angle = 3;
  raw_ts = pos 100;
  real = pos 1 ∷ negsuc 2 ∷ [];
  imag = pos 0 ∷ pos 5 ∷ [];
}

-- Two radios, with a phase difference that is not a number.
abbrev line_ex : Line
line_ex = record {
  utime = 12;
  ts = 100 ∷ 200 ∷ [];
  rssi = 80 ∷ 81 ∷ [];
  fppl = 82 ∷ 83 ∷ [];
  carrier_integrator = pos 3;
  clock_offset = 0;
  single_pdoa = none;
  pd = 99 ∷ [];
  dlen = 2;
  buffer = 0xC5 ∷ 1 ∷ 0 ∷ [];
  responses = response_ex ∷ response_ex ∷ [];
}

abbrev pub verbose_ex : Verbose
verbose_ex = record {
  rx_diag = true;
  carrier = true;
  not_to_console = false;
  cir = true;
  samples = true;
}

print_line_lem_example :
    (print_line ops_ex verbose_ex line_ex ≡ emit (line_document ops_ex verbose_ex line_ex))
    × (is_valid (line_document ops_ex verbose_ex line_ex) ≡ true)
print_line_lem_example = print_line_lem ops_ex verbose_ex line_ex (inl refl, refl, refl)

abbrev single_ex : Line
single_ex = record line_ex { single_pdoa = some 7 }

no_comma_example :
    (s t : Text) × (print_line ops_ex verbose_ex single_ex
      ≡ s ++ (emit (pd_value ops_ex 7) ++ (emit (pd_value ops_ex 99) ++ t)))
no_comma_example = no_comma ops_ex verbose_ex single_ex 7 99 refl refl
