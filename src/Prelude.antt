-- ===== src/Prelude.antt =====
-- The names that the other modules share: those of the libraries, passed on, and the helpers of the
-- children: Boolean tests, lists over the native numbers, equality tests, insertion-ordered maps.
mod Tests
mod Lists
mod Equality
mod Compare
mod Positions
mod Sorting
mod Sublists
mod Ordered
mod Distinct
pub mod Map
pub mod Int
pub use Tests.*
unfoldable pub use Lists.*
unfoldable pub use Equality.*
pub use Compare.*
pub use Positions.*
unfoldable pub use Sorting.*
pub use Sublists.*
pub use Distinct.*
pub use Ordered.*
pub use Prim.Native.Nat.{ℕ, zero, suc, ◌+◌, ◌-◌, ◌*◌, ◌/◌, ◌%◌, ◌^◌, ◌≤◌, ◌<◌, compare, Ordering}
pub use Prim.Native.String.{String}
pub use mathlib.Core.Path.{◌≡◌, refl, sym, ap, ◌∙◌, ap₂, subst, subst₂}
pub use mathlib.Core.Logic.{◌≢◌, ◌↔◌, ◌⊎◌, inl, inr}
pub use mathlib.Core.Bool.{Bool, true, false, not, ◌&&◌, ◌||◌}
pub use mathlib.Core.Option.{Option, none, some}
pub use mathlib.Core.List.{List, [], ◌∷◌, ◌++◌, map}
pub use native.Mathlib.Omega.{arith}
