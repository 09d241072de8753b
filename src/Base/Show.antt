-- ===== src/Base/Show.antt =====
-- Texts: `fmt`'s %d and %x, and `strings.Join`.
use Prim.Native.Nat.{ℕ, zero, suc, ◌/◌, ◌%◌}
use Prim.Native.String.{String}
use Prim.Native.String
use mathlib.Core.Path.{◌≡◌, refl}
use mathlib.Core.List.{List, [], ◌∷◌}
use ciccni.Base.Tests.{ltb, if◌then◌else◌}

infixr 65 ◌<>◌
abbrev pub ◌<>◌ : String → String → String
s <> t = String.◌++◌ s t

-- the digits of `0123456789abcdef`
unfoldable pub digit : ℕ → String
digit zero = "0"
digit (suc zero) = "1"
digit (suc (suc zero)) = "2"
digit (suc (suc (suc zero))) = "3"
digit (suc (suc (suc (suc zero)))) = "4"
digit (suc (suc (suc (suc (suc zero))))) = "5"
digit (suc (suc (suc (suc (suc (suc zero)))))) = "6"
digit (suc (suc (suc (suc (suc (suc (suc zero))))))) = "7"
digit (suc (suc (suc (suc (suc (suc (suc (suc zero)))))))) = "8"
digit (suc (suc (suc (suc (suc (suc (suc (suc (suc zero))))))))) = "9"
digit (suc (suc (suc (suc (suc (suc (suc (suc (suc (suc zero)))))))))) = "a"
digit (suc (suc (suc (suc (suc (suc (suc (suc (suc (suc (suc zero))))))))))) = "b"
digit (suc (suc (suc (suc (suc (suc (suc (suc (suc (suc (suc (suc zero)))))))))))) = "c"
digit (suc (suc (suc (suc (suc (suc (suc (suc (suc (suc (suc (suc (suc zero))))))))))))) = "d"
digit (suc (suc (suc (suc (suc (suc (suc (suc (suc (suc (suc (suc (suc (suc zero)))))))))))))) = "e"
digit (suc (suc (suc (suc (suc (suc (suc (suc (suc (suc (suc (suc (suc (suc (suc n))))))))))))))) =
    "f"

-- The digits of `n` in front of `out`. Every round divides by the base, which is at least two, so
-- `n + 1` rounds are enough.
unfoldable pub digits_from : ℕ → ℕ → ℕ → String → String
unfolding digit
digits_from base zero n out = out
digits_from base (suc f) n out =
    let rest = digits_from base f (n / base) (digit (n % base) <> out) in
    if ltb n base then digit n <> out else rest

-- fmt.Sprintf("%d", n)
unfoldable pub dec : ℕ → String
unfolding digits_from
dec n = digits_from 10 (suc n) n ""

-- fmt.Sprintf("%x", n)
unfoldable pub hex : ℕ → String
unfolding digits_from
hex n = digits_from 16 (suc n) n ""

-- strings.Join(parts, sep)
unfoldable pub join : String → List String → String
join sep [] = ""
join sep (s ∷ []) = s
join sep (s ∷ t ∷ parts) = s <> sep <> join sep (t ∷ parts)

dec_test : dec 4294967295 ≡ "4294967295"
unfolding dec
dec_test = refl

hex_test : hex 65520 ≡ "fff0"
unfolding hex
hex_test = refl

join_test : join "," ("ip" ∷ "nw_dst=10.0.0.1" ∷ []) ≡ "ip,nw_dst=10.0.0.1"
unfolding join
join_test = refl
