-- ===== src/Base.antt =====
-- Names that every module shares: those of the libraries, passed on, and those of its children.
mod Tests
mod Lists
mod Results
mod Extremes
mod Sorting
mod Order
mod Texts
mod Strings
mod Integers
mod Options
pub use Tests.*
pub use Options.*
pub use Integers.*
pub use Lists.*
pub use Results.*
pub use Order.*
unfoldable pub use Extremes.*
unfoldable pub use Sorting.*
unfoldable pub use Strings.*
unfoldable pub use Texts.*
pub use Prim.Native.Nat.{ℕ, zero, suc, ◌+◌, ◌-◌, ◌*◌, ◌/◌, ◌%◌, ◌≤◌, ◌<◌, min, max}
pub use Prim.Native.String.{String}
pub use mathlib.Core.Path.{◌≡◌, refl, sym, ap, ◌∙◌, subst}
pub use mathlib.Core.Logic.{◌≢◌, ◌↔◌, ◌⊎◌, inl, inr}
pub use mathlib.Core.Bool.{Bool, true, false, not, ◌&&◌, ◌||◌}
pub use mathlib.Core.Option.{Option, none, some}
pub use mathlib.Core.List.{List, [], ◌∷◌, ◌++◌, map}
pub use native.Mathlib.Omega.{arith}
