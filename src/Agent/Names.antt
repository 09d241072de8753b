-- ===== src/Agent/Names.antt =====
-- GenerateContainerInterfaceName of pkg/agent/util/net.go. SHA-1, printed in hexadecimal, is a
-- parameter. Names of pods are ASCII, so a byte is a character.
use Prim.Native.Char.{code}
use text.Mathlib.TextLemmas.{nil-append, cons-append}
use ciccni.Base.{
  ℕ, zero, suc, ◌+◌, ◌-◌, ◌≤◌, ◌≡◌, refl, ap, String, Bool-cases, inl, inr, ltb, nat_eqb,
  if◌then◌else◌, ◌<>◌, Outcome, ok, panic, arith,
}
use ciccni.Base.Partial.{◌>>=◌}

abbrev pub interface_name_length : ℕ
interface_name_length = 15

abbrev pub pod_name_prefix_length : ℕ
pod_name_prefix_length = 8

abbrev pub container_key_connector : String
container_key_connector = "-"

-- len(s)
unfoldable pub text_length : String → ℕ
text_length String.[] = 0
text_length (String.◌∷◌ c s) = suc (text_length s)

-- strings.Replace(s, "-", "", -1)
unfoldable pub without_dashes : String → String
without_dashes String.[] = ""
without_dashes (String.◌∷◌ c s) =
    let rest = without_dashes s in if nat_eqb (code c) b'-' then rest else String.◌∷◌ c rest

-- s[:n], which panics where s is shorter
unfoldable pub slice : ℕ → String → Outcome String
slice zero s = ok ""
slice (suc n) String.[] = panic
slice (suc n) (String.◌∷◌ c s) = do rest ← slice n s; ok (String.◌∷◌ c rest)

-- GenerateContainerInterfaceName
unfoldable pub generate_container_interface_name :
    (String → String) → String → String → Outcome String
unfolding text_length without_dashes slice
generate_container_interface_name sha1_hex pod_name pod_namespace = do
  let pod_key = sha1_hex (pod_namespace <> "/" <> pod_name)
  let stripped = without_dashes pod_name
  name ←
      if ltb pod_name_prefix_length (text_length stripped)
      then slice pod_name_prefix_length stripped
      else ok stripped
  key ←
      slice (interface_name_length - text_length name - text_length container_key_connector) pod_key
  ok (name <> container_key_connector <> key)

text_length-append : (s t : String) → text_length (s <> t) ≡ text_length s + text_length t
unfolding text_length
text_length-append String.[] t = omega (arith, ap text_length (nil-append t))
text_length-append (String.◌∷◌ c s) t =
    omega (arith, ap text_length (cons-append c s t), text_length-append s t)

-- A slice within the text has the length asked for.
slice_lem :
    (n : ℕ) (s : String)
    → n ≤ text_length s
    → (t : String) × (slice n s ≡ ok t) × (text_length t ≡ n)
unfolding text_length slice
slice_lem zero s h = ("", refl, refl)
slice_lem (suc n) String.[] h = absurd (omega arith)
slice_lem (suc n) (String.◌∷◌ c s) h =
    let (t, e, l) = slice_lem n s (omega arith) in (String.◌∷◌ c t, rw e refl, ap suc l)

-- the prefix of the name
prefix_lem :
    (s : String)
    → (t : String) × ((if ltb pod_name_prefix_length (text_length s)
          then slice pod_name_prefix_length s
          else ok s)
        ≡ ok t)
      × (text_length t ≤ 8)
prefix_lem s = elim (Bool-cases (ltb pod_name_prefix_length (text_length s))) [
  | inl h ↦ let (t, e, l) = slice_lem 8 s (ground (arith, h)) in (t, rw h e, omega (arith, l))
  | inr h ↦ (s, rw h refl, ground (arith, h))
]

dash_length : text_length "-" ≡ 1
unfolding text_length
dash_length = refl

-- Where the hash of every text has 40 digits, as SHA-1's has, the name of a container interface is
-- always there and has 15 characters.
pub generate_container_interface_name-length :
    (sha1_hex : String → String) (pod_name pod_namespace : String)
    → ((s : String) → text_length (sha1_hex s) ≡ 40)
    → (name : String) × (generate_container_interface_name sha1_hex pod_name pod_namespace
        ≡ ok name)
      × (text_length name ≡ 15)
unfolding generate_container_interface_name
generate_container_interface_name-length sha1_hex pod_name pod_namespace digits =
    let (name, e, short) = prefix_lem (without_dashes pod_name) in
    let pod_key = sha1_hex (pod_namespace <> "/" <> pod_name) in
    let (key, d, l) =
      slice_lem (15 - text_length name - 1) pod_key
        (omega (arith, digits (pod_namespace <> "/" <> pod_name))) in
    (
      name <> "-" <> key,
      rw (e, d) refl,
      omega (
        arith,
        text_length-append name ("-" <> key),
        text_length-append "-" key,
        dash_length,
        l,
        short,
      ),
    )
