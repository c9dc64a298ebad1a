-- ===== src/Base.antt =====
-- Names that every module shares: the libraries', passed on, and those of the children, which hold
-- Boolean tests, lists and results. The results model a call that returns or panics.
mod Tests
mod Lists
mod Outcome
mod History
pub use Tests.*
pub use Lists.*
unfoldable pub use Outcome.*
unfoldable pub use History.*
pub use Prim.Native.Nat.{ℕ, zero, suc, ◌+◌, ◌-◌, ◌*◌, ◌/◌, ◌%◌, ◌^◌, ◌≤◌, ◌<◌, min, max}
pub use mathlib.Core.Path.{◌≡◌, refl, sym, ap, subst, ◌∙◌}
pub use mathlib.Core.Logic.{◌≢◌, ◌↔◌, ◌⊎◌, inl, inr}
pub use mathlib.Core.Bool.{Bool, true, false, not, ◌&&◌, ◌||◌}
pub use mathlib.Core.Option.{Option, none, some}
pub use mathlib.Core.List.{List, [], ◌∷◌, ◌++◌, map}
pub use native.Mathlib.Omega.{arith}
