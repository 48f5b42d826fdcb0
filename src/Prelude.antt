-- ===== src/Prelude.antt =====
-- The names that the other modules share: the libraries', passed on, and those of the children.
mod Tests
mod Lists
mod Equality
mod Bytes
mod Sort
mod Decimal
mod Integers
mod Pigeons
pub use Tests.*
unfoldable pub use Lists.*
pub use Equality.*
unfoldable pub use Bytes.*
unfoldable pub use Sort.*
unfoldable pub use Decimal.{format_nat, parse_int}
pub use Decimal.{parse_int-format_nat}
pub use Integers.*
pub use Pigeons.{Within, AllDifferent, length-le-of-Within, any-In, In-any}
pub use Prim.Native.Nat.{ℕ, zero, suc, ◌+◌, ◌-◌, ◌*◌, ◌/◌, ◌%◌, ◌^◌, ◌≤◌, ◌<◌}
pub use mathlib.Core.Path.{◌≡◌, refl, sym, ap, ◌∙◌, subst}
pub use mathlib.Core.Logic.{◌≢◌, ◌↔◌, ◌⊎◌, inl, inr}
pub use mathlib.Core.Bool.{Bool, true, false, not, ◌&&◌, ◌||◌}
pub use mathlib.Core.Option.{Option, none, some}
pub use mathlib.Core.List.{List, [], ◌∷◌, ◌++◌, map}
pub use native.Mathlib.Omega.{arith}
