-- ===== src/Tctools/Tests.antt =====
-- Bandwidths and rates at concrete inputs.
use ciccni.Base.{
  String, ◌≡◌, refl, [], ◌∷◌, ok, some, ◌*◌, ◌%◌, ◌/◌, ◌^◌, ◌<>◌, dec, arith, lookup, string_eq,
  Dict,
}
use ciccni.Base.Text.{read}
use ciccni.Tctools.Bandwidth.{
  validate_bandwith_format, starts_nonzero, unit_factor, span_digits, construct_tc_config,
}
use ciccni.Tctools.Bandwidth.Printed.{upper_m, show_unit, factor, validate_bandwith_format-dec}
use ciccni.Tctools.Bandwidth.Rates.{construct_tc_config-dec}

validate_bandwith_format-dec_example :
    validate_bandwith_format (dec 5000 <> show_unit upper_m) ≡ ok ((5000 * factor upper_m) % 2 ^ 32)
validate_bandwith_format-dec_example =
    validate_bandwith_format-dec 5000 upper_m (omega arith) (omega arith)

-- The rate is cut: five gigabits become about 705 megabits.
cut_rate : validate_bandwith_format "5000M" ≡ ok 705032704
unfolding validate_bandwith_format starts_nonzero unit_factor string_eq span_digits read
cut_rate = refl

abbrev annotations : Dict String String
annotations = ("ciccni/egress-rate", dec 10 <> show_unit upper_m) ∷ []

annotated : lookup "ciccni/egress-rate" annotations ≡ some (dec 10 <> show_unit upper_m)
unfolding lookup string_eq
annotated = refl

construct_tc_config-dec_example :
    construct_tc_config (some annotations)
    ≡ ok (
        some (record {
          rate = (10 * factor upper_m) % 2 ^ 32;
          burst = (10 * factor upper_m) % 2 ^ 32 / 10;
        }))
construct_tc_config-dec_example =
    construct_tc_config-dec annotations 10 upper_m (omega arith) (omega arith) annotated
