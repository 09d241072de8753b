-- ===== src/Tctools/Bandwidth/Rates.antt =====
-- The rates of the class that addHTBClass of pkg/tctools/tctools.go creates.
use ciccni.Base.{
  ℕ, ◌+◌, ◌*◌, ◌/◌, ◌%◌, ◌^◌, ◌<◌, String, ◌≡◌, refl, some, Dict, lookup, string_eq, ◌<>◌, dec, ok,
  arith,
}
use ciccni.Tctools.Bandwidth.{create_class_object, add_htb_class, construct_tc_config}
use ciccni.Tctools.Bandwidth.Printed.{
  BandwidthUnit, show_unit, factor, validate_bandwith_format-dec,
}

-- A class for a limit and a burst has the limit as its rate, and twice the limit and the burst, cut to
-- 32 bits, as its ceiling.
pub add_htb_class-ceil :
    (limit burst : ℕ)
    → ((add_htb_class limit burst).rate ≡ limit)
      × ((add_htb_class limit burst).ceil ≡ (2 * limit + burst) % 2 ^ 32)
unfolding add_htb_class create_class_object
add_htb_class-ceil limit burst = (refl, omega arith)

-- A pod that is annotated with a positive number below 2^32 and a unit of the format gets the number
-- times the unit's factor, cut to 32 bits, as its rate, and a tenth of that as its burst.
pub construct_tc_config-dec :
    (annotations : Dict String String) (n : ℕ) (u : BandwidthUnit)
    → 0 < n
    → n < 2 ^ 32
    → lookup "ciccni/egress-rate" annotations ≡ some (dec n <> show_unit u)
    → construct_tc_config (some annotations)
      ≡ ok (some (record { rate = (n * factor u) % 2 ^ 32; burst = (n * factor u) % 2 ^ 32 / 10 }))
unfolding construct_tc_config
construct_tc_config-dec annotations n u p h e =
    rw (e, construct_tc_config, validate_bandwith_format-dec n u p h) refl
