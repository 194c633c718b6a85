-- ===== src/Common.antt =====
-- Names that every module shares: the library's, passed on, and those of the children. The
-- children hold Boolean tests, lists indexed by native numbers, signed integers, machine words
-- and the result of code that may stop at a failed `assert`.
mod Tests
mod Lists
mod Outcomes
mod Words
pub mod Int
pub use Tests.*
pub use Lists.*
pub use Outcomes.*
pub use Words.*
pub use Prim.Native.Nat.{ℕ, zero, suc, ◌+◌, ◌-◌, ◌*◌, ◌/◌, ◌%◌, ◌^◌, ◌≤◌, ◌<◌, min, max}
pub use mathlib.Core.Path.{◌≡◌, refl, sym, ap, ◌∙◌}
pub use mathlib.Core.Logic.{◌≢◌, ◌↔◌, ◌⊎◌, inl, inr}
pub use mathlib.Core.Bool.{Bool, true, false, not, ◌&&◌, ◌||◌}
pub use mathlib.Core.Option.{Option, none, some}
pub use mathlib.Core.List.{List, [], ◌∷◌, ◌++◌, map, reverse}
pub use native.Mathlib.Omega.{arith}
