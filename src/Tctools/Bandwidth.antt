-- ===== src/Tctools/Bandwidth.antt =====
-- validateBandwithFormat and createClassObject of pkg/tctools/tctools.go, addHTBClass as far as it
-- computes rates, and ConstructTcConfig of tcFacade.go for the annotations of a pod.
pub mod Printed
pub mod Rates
use Prim.Native.Char.{Char, code}
use ciccni.Base.{
  ℕ, ◌+◌, ◌*◌, ◌/◌, ◌%◌, ◌^◌, String, Bool, true, false, not, ◌&&◌, ◌||◌, ◌==◌, string_eq, leb, ltb,
  nat_eqb, if◌then◌else◌, Option, none, some, Dict, lookup, Outcome, ok, err, Error, parse_failed,
  external,
}
use ciccni.Base.Partial.{◌>>=◌}
use ciccni.Base.Text.{read}

abbrev pub is_digit : Char → Bool
is_digit c = leb b'0' (code c) && leb (code c) b'9'

-- the digits that a text begins with, and what follows them
unfoldable pub span_digits : String → String × String
span_digits String.[] = ("", "")
span_digits (String.◌∷◌ c s) =
    let (digits, rest) = span_digits s in
    if is_digit c then (String.◌∷◌ c digits, rest) else ("", String.◌∷◌ c s)

-- [1-9] at the head of the text
unfoldable pub starts_nonzero : String → Bool
starts_nonzero String.[] = false
starts_nonzero (String.◌∷◌ c s) = is_digit c && not (nat_eqb (code c) b'0')

-- the factor of a unit; `none` for what the format does not allow
unfoldable pub unit_factor : String → Option ℕ
unit_factor u =
    if u == ""
    then some 1
    else if u == "k" || u == "K" || u == "kbps" || u == "Kbps"
    then some 1000
    else if u == "m" || u == "M" || u == "mbps" || u == "Mbps"
    then some 1000000
    else none

-- what follows the match: ParseUint(numStr, 10, 32), the unit, and the cut to a uint32
abbrev pub scaled : String → Option ℕ → Outcome ℕ
scaled digits none = err (external "带宽格式不正确")
scaled digits (some factor) =
    if ltb (read 0 digits) (2 ^ 32)
    then ok ((read 0 digits * factor) % 2 ^ 32)
    else err (external "解析带宽数字失败")

-- validateBandwithFormat
unfoldable pub validate_bandwith_format : String → Outcome ℕ
validate_bandwith_format bandwidth =
    let (digits, rest) = span_digits bandwidth in
    if starts_nonzero bandwidth then scaled digits (unit_factor rest) else err (external "带宽格式不正确")

-- TCArgs
pub record TcArgs : Type 0 where
  pub rate : ℕ
  pub burst : ℕ

-- ConstructTcConfig, given the annotations of the pod, which may be nil
unfoldable pub construct_tc_config : Option (Dict String String) → Outcome (Option TcArgs)
construct_tc_config none = ok none
construct_tc_config (some annotations) = elim (lookup "ciccni/egress-rate" annotations) [
  | none ↦ ok (some (record { rate = 0; burst = 0 }))
  | some text ↦ do
    rate ← validate_bandwith_format text
    ok (some (record { rate = rate; burst = rate / 10 }))
]

-- the rates of a class, tc.HtbOpt
pub record ClassRates : Type 0 where
  pub rate : ℕ
  pub ceil : ℕ

-- createClassObject; the sum is a uint32
unfoldable pub create_class_object : ℕ → ℕ → ClassRates
create_class_object rate burst = record { rate = rate; ceil = (rate + burst) % 2 ^ 32 }

-- addHTBClass
unfoldable pub add_htb_class : ℕ → ℕ → ClassRates
add_htb_class limit burst = create_class_object limit ((limit + burst) % 2 ^ 32)
