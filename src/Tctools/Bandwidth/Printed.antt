-- ===== src/Tctools/Bandwidth/Printed.antt =====
-- validateBandwithFormat of pkg/tctools/tctools.go on every text of its format.
use Prim.Native.Char.{Char, code}
use text.Mathlib.TextLemmas.{nil-append, cons-append}
use ciccni.Base.{
  ℕ, zero, suc, ◌+◌, ◌*◌, ◌/◌, ◌%◌, ◌^◌, ◌<◌, String, ◌≡◌, refl, ap, ◌∙◌, inl, inr, true,
  Bool-cases, ltb, ◌<>◌, digit, digits_from, dec, some, ok, arith, string_eq,
}
use ciccni.Base.Text.{read-dec, digit-cons}
use ciccni.Tctools.Bandwidth.{
  is_digit, span_digits, starts_nonzero, unit_factor, validate_bandwith_format,
}

-- the units of the format, their texts and their factors
pub data BandwidthUnit : Type 0 where
  bare lower_k upper_k lower_m upper_m lower_kbps lower_mbps upper_kbps upper_mbps : BandwidthUnit

abbrev pub show_unit : BandwidthUnit → String
show_unit bare = ""
show_unit lower_k = "k"
show_unit upper_k = "K"
show_unit lower_m = "m"
show_unit upper_m = "M"
show_unit lower_kbps = "kbps"
show_unit lower_mbps = "mbps"
show_unit upper_kbps = "Kbps"
show_unit upper_mbps = "Mbps"

abbrev pub factor : BandwidthUnit → ℕ
factor bare = 1
factor lower_k = 1000
factor upper_k = 1000
factor lower_m = 1000000
factor upper_m = 1000000
factor lower_kbps = 1000
factor lower_mbps = 1000000
factor upper_kbps = 1000
factor upper_mbps = 1000000

unit_factor_lem : (u : BandwidthUnit) → unit_factor (show_unit u) ≡ some (factor u)
unfolding unit_factor string_eq
unit_factor_lem bare = refl
unit_factor_lem lower_k = refl
unit_factor_lem upper_k = refl
unit_factor_lem lower_m = refl
unit_factor_lem upper_m = refl
unit_factor_lem lower_kbps = refl
unit_factor_lem lower_mbps = refl
unit_factor_lem upper_kbps = refl
unit_factor_lem upper_mbps = refl

span_digits-unit : (u : BandwidthUnit) → span_digits (show_unit u) ≡ ("", show_unit u)
unfolding span_digits
span_digits-unit bare = refl
span_digits-unit lower_k = refl
span_digits-unit upper_k = refl
span_digits-unit lower_m = refl
span_digits-unit upper_m = refl
span_digits-unit lower_kbps = refl
span_digits-unit lower_mbps = refl
span_digits-unit upper_kbps = refl
span_digits-unit upper_mbps = refl

abbrev AllDigits : String → Type 0
AllDigits String.[] = Unit {0}
AllDigits (String.◌∷◌ c s) = (is_digit c ≡ true) × AllDigits s

span_digits-AllDigits :
    (s t : String) → AllDigits s → span_digits t ≡ ("", t) → span_digits (s <> t) ≡ (s, t)
unfolding span_digits
span_digits-AllDigits String.[] t h e = ap span_digits (nil-append t) ∙ e
span_digits-AllDigits (String.◌∷◌ c s) t h e =
    ap span_digits (cons-append c s t) ∙ rw (h.0, span_digits-AllDigits s t h.1 e) refl

is_digit-code : (c : Char) (d : ℕ) → d < 10 → code c ≡ b'0' + d → is_digit c ≡ true
is_digit-code c d h e = ground (arith, h, e)

AllDigits-cons : (d : ℕ) (s : String) → d < 10 → AllDigits s → AllDigits (digit d <> s)
AllDigits-cons d s h l =
    let (c, e, k) = digit-cons d s h in
    let whole : AllDigits (String.◌∷◌ c s) = (is_digit-code c d h k, l) in rw e whole

AllDigits-digits_from :
    (f n : ℕ) (s : String) → n < f → AllDigits s → AllDigits (digits_from 10 f n s)
unfolding digits_from
AllDigits-digits_from zero n s h l = l
AllDigits-digits_from (suc f) n s h l = elim (Bool-cases (ltb n 10)) [
  | inl small ↦ rw small (AllDigits-cons n s (ground arith) l)
  | inr large ↦ rw large (
      AllDigits-digits_from f (n / 10) (digit (n % 10) <> s) (ground arith)
        (AllDigits-cons (n % 10) s (omega arith) l))
]

starts_nonzero-digits_from :
    (f n : ℕ) (s : String) → n < f → 0 < n → starts_nonzero (digits_from 10 f n s) ≡ true
unfolding digits_from starts_nonzero
starts_nonzero-digits_from zero n s h p = absurd (omega arith)
starts_nonzero-digits_from (suc f) n s h p = elim (Bool-cases (ltb n 10)) [
  | inl small ↦
      let (c, e, k) = digit-cons n s (ground arith) in
      rw (small, e) (ground (arith, is_digit-code c n (ground arith) k, k, p))
  | inr large ↦
      rw large
        (starts_nonzero-digits_from f (n / 10) (digit (n % 10) <> s) (ground arith) (ground arith))
]

starts_nonzero-append : (s t : String) → starts_nonzero s ≡ true → starts_nonzero (s <> t) ≡ true
unfolding starts_nonzero
starts_nonzero-append String.[] t e = absurd (cc e)
starts_nonzero-append (String.◌∷◌ c s) t e = ap starts_nonzero (cons-append c s t) ∙ e

-- A positive number below 2^32 with a unit of the format is read as the number times the unit's
-- factor, cut to 32 bits.
pub validate_bandwith_format-dec :
    (n : ℕ) (u : BandwidthUnit)
    → 0 < n
    → n < 2 ^ 32
    → validate_bandwith_format (dec n <> show_unit u) ≡ ok ((n * factor u) % 2 ^ 32)
unfolding validate_bandwith_format dec
validate_bandwith_format-dec n u p h =
    rw
      (
        starts_nonzero-append (dec n) (show_unit u)
            (starts_nonzero-digits_from (suc n) n "" (omega arith) p),
        span_digits-AllDigits (dec n) (show_unit u)
            (AllDigits-digits_from (suc n) n "" (omega arith) tt) (span_digits-unit u),
        unit_factor_lem u,
        read-dec n,
      )
      (ground (arith, h))
