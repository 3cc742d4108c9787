-- ===== src/Prelude.antt =====
-- The names that the components share: the libraries', passed on, and those of the child modules.
mod Tests
mod Lists
mod Fallible
mod Equality
mod Words
mod Maps
pub use Tests.*
pub use Lists.*
pub use Fallible.*
pub use Words.*
unfoldable pub use Maps.*
pub use Equality.{◌==◌, nat_eq, string_eq, contains, PartialEq}
pub use Prim.Native.Nat.{ℕ, zero, suc, ◌+◌, ◌-◌, ◌*◌, ◌/◌, ◌%◌, ◌^◌, ◌≤◌, ◌<◌, min, max}
pub use Prim.Native.String.{String}
pub use mathlib.Core.Path.{◌≡◌, refl, sym, ap, ap₂, ◌∙◌, subst}
pub use mathlib.Core.Logic.{◌≢◌, ◌↔◌, ◌⊎◌, inl, inr}
pub use mathlib.Core.Bool.{Bool, true, false, not, ◌&&◌, ◌||◌}
pub use mathlib.Core.Option.{Option, none, some}
pub use mathlib.Core.List.{List, [], ◌∷◌, ◌++◌, map}
pub use native.Mathlib.Omega.{arith}
