-- ===== src/Base/Partial.antt =====
-- Code that changes no state and may fail or panic, in `do` blocks over `Outcome`.
use ciccni.Base.Effects.{Outcome, ok, err, panic}

infixl 5 ◌>>=◌
abbrev pub ◌>>=◌ {ℓ κ} : {A : Type ℓ} {B : Type κ} → Outcome A → (A → Outcome B) → Outcome B
ok a >>= f = f a
err e >>= f = err e
panic >>= f = panic
