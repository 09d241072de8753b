-- ===== src/Base/Text.antt =====
-- Reading a text back: decimal numbers, and texts that a separator ends.
use Prim.Native.Char.{Char, code}
use Prim.Native.Nat.{ℕ, zero, suc, ◌+◌, ◌-◌, ◌*◌, ◌/◌, ◌%◌, ◌<◌}
use Prim.Native.String.{String}
use mathlib.Core.Path.{◌≡◌, refl, sym, ap, ◌∙◌}
use mathlib.Core.Logic.{◌≢◌, inl, inr}
use mathlib.Core.Bool.{Bool, true, false}
use native.Mathlib.Omega.{arith}
use text.Mathlib.TextLemmas.{
  nil-append, cons-append, nil≢cons, head-eq_of_cons-eq, tail-eq_of_cons-eq,
}
use ciccni.Base.Tests.{ltb, nat_eqb, if◌then◌else◌, Bool-cases}
use ciccni.Base.Show.{◌<>◌, digit, digits_from, dec}

-- No character of the text has the code.
abbrev pub Lacks : ℕ → String → Type 0
Lacks sep String.[] = Unit {0}
Lacks sep (String.◌∷◌ c s) = (code c ≢ sep) × Lacks sep s

-- The text is empty or begins with the separator.
abbrev pub Ends : ℕ → String → Type 0
Ends sep String.[] = Unit {0}
Ends sep (String.◌∷◌ c s) = code c ≡ sep

-- A text that lacks the separator and what follows it are told apart.
pub split_at_separator :
    (sep : ℕ) (a b s t : String)
    → Lacks sep a
    → Lacks sep b
    → Ends sep s
    → Ends sep t
    → a <> s ≡ b <> t
    → (a ≡ b) × (s ≡ t)
split_at_separator sep String.[] String.[] s t _ _ _ _ e =
    (refl, sym (nil-append s) ∙ e ∙ nil-append t)
split_at_separator sep String.[] (String.◌∷◌ d b) s t _ lb es _ e =
    absurd (clash s (sym (nil-append s) ∙ e ∙ cons-append d b t) es)
  where
    clash : (r : String) → r ≡ String.◌∷◌ d (b <> t) → Ends sep r → ⊥
    clash String.[] p _ = nil≢cons p
    clash (String.◌∷◌ c r) p q = lb.0 (ap code (sym (head-eq_of_cons-eq p)) ∙ q)
split_at_separator sep (String.◌∷◌ c a) String.[] s t la _ _ et e =
    absurd (clash t (sym (nil-append t) ∙ sym e ∙ cons-append c a s) et)
  where
    clash : (r : String) → r ≡ String.◌∷◌ c (a <> s) → Ends sep r → ⊥
    clash String.[] p _ = nil≢cons p
    clash (String.◌∷◌ d r) p q = la.0 (ap code (sym (head-eq_of_cons-eq p)) ∙ q)
split_at_separator sep (String.◌∷◌ c a) (String.◌∷◌ d b) s t la lb es et e =
    let p : String.◌∷◌ c (a <> s) ≡ String.◌∷◌ d (b <> t) =
      sym (cons-append c a s) ∙ e ∙ cons-append d b t in
    let (q, r) = split_at_separator sep a b s t la.1 lb.1 es et (tail-eq_of_cons-eq p) in
    (cc (head-eq_of_cons-eq p, q), r)

-- strconv's reading of decimal digits: the number that `acc` and the digits of the text give
unfoldable pub read : ℕ → String → ℕ
read acc String.[] = acc
read acc (String.◌∷◌ c s) = read (acc * 10 + (code c - b'0')) s

-- Each decimal digit is one character, the digit's.
digit-char : (d : ℕ) → d < 10 → (c : Char) × (digit d ≡ String.◌∷◌ c "") × (code c ≡ b'0' + d)
unfolding digit
digit-char zero h = ("0", refl, refl)
digit-char (suc zero) h = ("1", refl, refl)
digit-char (suc (suc zero)) h = ("2", refl, refl)
digit-char (suc (suc (suc zero))) h = ("3", refl, refl)
digit-char (suc (suc (suc (suc zero)))) h = ("4", refl, refl)
digit-char (suc (suc (suc (suc (suc zero))))) h = ("5", refl, refl)
digit-char (suc (suc (suc (suc (suc (suc zero)))))) h = ("6", refl, refl)
digit-char (suc (suc (suc (suc (suc (suc (suc zero))))))) h = ("7", refl, refl)
digit-char (suc (suc (suc (suc (suc (suc (suc (suc zero)))))))) h = ("8", refl, refl)
digit-char (suc (suc (suc (suc (suc (suc (suc (suc (suc zero))))))))) h = ("9", refl, refl)
digit-char (suc (suc (suc (suc (suc (suc (suc (suc (suc (suc d)))))))))) h = absurd (omega arith)

pub digit-cons :
    (d : ℕ) (s : String)
    → d < 10
    → (c : Char) × (digit d <> s ≡ String.◌∷◌ c s) × (code c ≡ b'0' + d)
digit-cons d s h =
    let (c, e, k) = digit-char d h in
    (c, ap (λ t. t <> s) e ∙ cons-append c "" s ∙ ap (String.◌∷◌ c) (nil-append s), k)

read-digit : (acc d : ℕ) (s : String) → d < 10 → read acc (digit d <> s) ≡ read (acc * 10 + d) s
unfolding read
read-digit acc d s h =
    let (c, e, k) = digit-cons d s h in ap (read acc) e ∙ ap (λ n. read n s) (omega arith)

read-digits_from : (f n : ℕ) (s : String) → n < f → read 0 (digits_from 10 f n s) ≡ read n s
unfolding digits_from
read-digits_from zero n s h = absurd (omega arith)
read-digits_from (suc f) n s h = elim (Bool-cases (ltb n 10)) [
  | inl small ↦ rw small (read-digit 0 n s (ground arith) ∙ ap (λ k. read k s) (omega arith))
  | inr large ↦ rw large (
      read-digits_from f (n / 10) (digit (n % 10) <> s) (ground arith)
      ∙ read-digit (n / 10) (n % 10) s (omega arith)
      ∙ ap (λ k. read k s) (omega arith))
]

-- Reading a printed number gives the number.
pub read-dec : (n : ℕ) → read 0 (dec n) ≡ n
unfolding dec read
read-dec n = read-digits_from (suc n) n "" (omega arith)

pub dec_injective : (m n : ℕ) → dec m ≡ dec n → m ≡ n
dec_injective m n e = sym (read-dec m) ∙ ap (read 0) e ∙ read-dec n

Lacks-digit :
    (sep d : ℕ) (s : String) → sep < b'0' → d < 10 → Lacks sep s → Lacks sep (digit d <> s)
Lacks-digit sep d s h k l =
    let (c, e, code_c) = digit-cons d s k in
    let whole : Lacks sep (String.◌∷◌ c s) = (omega arith, l) in rw e whole

Lacks-digits_from :
    (sep f n : ℕ) (s : String) → sep < b'0' → n < f → Lacks sep s → Lacks sep (digits_from 10 f n s)
unfolding digits_from
Lacks-digits_from sep zero n s h k l = l
Lacks-digits_from sep (suc f) n s h k l = elim (Bool-cases (ltb n 10)) [
  | inl small ↦ rw small (Lacks-digit sep n s h (ground arith) l)
  | inr large ↦ rw large (
      Lacks-digits_from sep f (n / 10) (digit (n % 10) <> s) h (ground arith)
        (Lacks-digit sep (n % 10) s h (omega arith) l))
]

-- A printed number has none of the characters below the digits, such as a comma or a slash.
pub Lacks-dec : (sep n : ℕ) → sep < b'0' → Lacks sep (dec n)
unfolding dec
Lacks-dec sep n h = Lacks-digits_from sep (suc n) n "" h (omega arith) tt

-- So a number at the head of a text is determined by the text, if what follows it begins with such
-- a character.
pub dec_at_separator :
    (sep m n : ℕ) (s t : String)
    → sep < b'0'
    → Ends sep s
    → Ends sep t
    → dec m <> s ≡ dec n <> t
    → (m ≡ n) × (s ≡ t)
dec_at_separator sep m n s t h es et e =
    let (p, q) =
      split_at_separator sep (dec m) (dec n) s t (Lacks-dec sep m h) (Lacks-dec sep n h) es et e in
    (dec_injective m n p, q)

-- strings.HasPrefix(s, prefix)
unfoldable pub has_prefix : String → String → Bool
has_prefix s String.[] = true
has_prefix String.[] (String.◌∷◌ c p) = false
has_prefix (String.◌∷◌ d s) (String.◌∷◌ c p) =
    let rest = has_prefix s p in if nat_eqb (code d) (code c) then rest else false
