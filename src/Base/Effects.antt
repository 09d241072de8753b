-- ===== src/Base/Effects.antt =====
-- What a Go call comes back with, and the actions that change a state of type `S`.
use Prim.Native.Nat.{ℕ}
use Prim.Native.String.{String}
use mathlib.Core.Bool.{Bool}
use mathlib.Core.List.{List, [], ◌∷◌}
use mathlib.Core.Path.{◌≡◌, refl}

-- The errors that the modelled code returns. A message's text is kept as far as the code builds it
-- from its own data; the text of an error that comes from outside is not.
pub data Error : Type 0 where
  add_failed modify_failed delete_failed : String → Error
  connect_failed : ℕ → Error
  conjunction_not_found : ℕ → Error
  no_clause : ℕ → Error
  parse_failed : String → Error
  external : String → Error
  wrapped : String → Error → Error
  transaction : String → Bool → Error

-- `ok` is a return with a nil error, `err` one with an error, and `panic` a method call on a nil
-- pointer or interface.
pub data Outcome {ℓ} (A : Type ℓ) : Type ℓ where
  ok : A → Outcome A
  err : Error → Outcome A
  panic : Outcome A

abbrev pub Exec {ℓ κ} : Type ℓ → Type κ → Type (ℓ ⊔ κ)
Exec S A = S → Outcome A × S

module _ {ℓ κ} {S : Type ℓ} {A : Type κ} where
  abbrev pub pure : A → Exec S A
  pure a s = (ok a, s)

  abbrev pub fail : Error → Exec S A
  fail e s = (err e, s)

  -- the outcome of code that changes nothing
  abbrev pub lift : Outcome A → Exec S A
  lift r s = (r, s)

module _ {ℓ κ} {S : Type ℓ} {A B : Type κ} where
  -- an error is returned at once, and a panic ends the call
  abbrev pub resume : Outcome A × S → (A → Exec S B) → Outcome B × S
  resume (ok a, s) f = f a s
  resume (err e, s) f = (err e, s)
  resume (panic, s) f = (panic, s)

  infixl 5 ◌>>=◌
  abbrev pub ◌>>=◌ : Exec S A → (A → Exec S B) → Exec S B
  ◌>>=◌ m f s = resume (m s) f

  -- A call that returns no error has had none from its first part.
  pub resume-ok :
      (r : Outcome A × S) (k : A → Exec S B) {b : B} {s' : S}
      → resume r k ≡ (ok b, s')
      → (a : A) × (s : S) × (r ≡ (ok a, s)) × (k a s ≡ (ok b, s'))
  resume-ok (ok a, s) k e = (a, s, refl, e)
  resume-ok (err x, s) k e = absurd (cc e)
  resume-ok (panic, s) k e = absurd (cc e)

abbrev pub Done : Type 0
Done = Unit {0}

infixl 5 ◌>>◌
abbrev pub ◌>>◌ {ℓ} : {S : Type ℓ} {B : Type 0} → Exec S Done → Exec S B → Exec S B
m >> k = m >>= λ _. k

-- An action on a part of the state.
abbrev pub put_back {ℓ κ} : {S T : Type ℓ} {A : Type κ} → (T → S) → Outcome A × T → Outcome A × S
put_back f (r, t) = (r, f t)

-- `for _, x := range xs { if err := body(x); err != nil { return err } }`
unfoldable pub for_each {ℓ κ} : {S : Type ℓ} {A : Type κ} → List A → (A → Exec S Done) → Exec S Done
for_each [] body = pure tt
for_each (x ∷ xs) body = do body x; for_each xs body
