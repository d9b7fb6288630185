-- ===== src/Common.antt =====
-- The names that every module shares: the libraries', passed on, and those of the children, which
-- hold the tests on numbers, lists, texts, tables keyed by texts, and the walk up a parent chain.
mod Tests
mod Lists
mod Texts
mod Tables
mod Climb
mod Reach
mod Int
mod Sorting
unfoldable pub use Tests.*
unfoldable pub use Lists.*
unfoldable pub use Texts.*
unfoldable pub use Tables.*
unfoldable pub use Climb.*
unfoldable pub use Reach.*
unfoldable pub use Int.*
unfoldable pub use Sorting.*
pub use Prim.Native.Nat.{ℕ, zero, suc, ◌+◌, ◌-◌, ◌*◌, ◌/◌, ◌%◌, ◌^◌, ◌≤◌, ◌<◌}
pub use mathlib.Core.Path.{◌≡◌, refl, sym, ap, ◌∙◌}
pub use mathlib.Core.Logic.{◌≢◌, ◌↔◌, ◌⊎◌, inl, inr}
pub use mathlib.Core.Bool.{Bool, true, false, not, ◌&&◌, ◌||◌}
pub use mathlib.Core.Option.{Option, none, some}
pub use mathlib.Core.List.{List, [], ◌∷◌, ◌++◌, map}
pub use native.Mathlib.Omega.{arith}
