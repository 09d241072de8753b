-- ===== src/Base.antt =====
-- The names that the other modules share: the libraries', passed on, and those of the children.
mod Tests
mod Lists
mod Maps
mod Effects
mod Show
pub mod Partial
pub mod Text
pub use Tests.*
pub use Lists.*
unfoldable pub use Maps.{string_eq, nat_eq, lookup, insert, erase}
pub use Maps.{
  Eq, Dict, ◌==◌, ==-eq, ==-ne, lookup-nil, lookup-insert, lookup-erase, lookup-insert_self,
  lookup-erase_self, dict_laws,
}
pub use Effects.*
unfoldable pub use Effects.{for_each}
unfoldable pub use Show.{digit, digits_from, dec, hex, join}
pub use Show.{◌<>◌}
pub use Prim.Native.Nat.{ℕ, zero, suc, ◌+◌, ◌-◌, ◌*◌, ◌/◌, ◌%◌, ◌^◌, ◌≤◌, ◌<◌}
pub use Prim.Native.String.{String}
pub use mathlib.Core.Path.{◌≡◌, refl, sym, ap, ◌∙◌, subst}
pub use mathlib.Core.Logic.{◌≢◌, ◌↔◌, ◌⊎◌, inl, inr}
pub use mathlib.Core.Bool.{Bool, true, false, not, ◌&&◌, ◌||◌}
pub use mathlib.Core.Option.{Option, none, some}
pub use mathlib.Core.List.{List, [], ◌∷◌, ◌++◌, map, append-nil, append_assoc}
pub use native.Mathlib.Omega.{arith}
