-- ===== src/Base.antt =====
-- Names that the library's modules share: the libraries', passed on, Boolean tests on numbers and
-- texts, and the Boolean list functions of Python's comprehensions.
mod Tests
mod Lists
mod Int
mod Distinct
mod Sorting
pub mod Doubles
pub mod Decimal
pub mod Substrings
pub mod Errors
pub use Tests.*
pub use Lists.*
pub use Distinct.*
unfoldable pub use Sorting.*
pub use Int.{ℤ, pos, negsuc, sub_ℕ, is_negative}
pub use Prim.Native.Nat.{ℕ, zero, suc, ◌+◌, ◌-◌, ◌*◌, ◌/◌, ◌%◌, ◌^◌, ◌≤◌, ◌<◌, min, max}
pub use Prim.Native.String.{String}
pub use mathlib.Core.Path.{◌≡◌, refl, sym, ap, ◌∙◌}
pub use mathlib.Core.Logic.{◌≢◌, ◌↔◌, ◌⊎◌, inl, inr}
pub use mathlib.Core.Bool.{Bool, true, false, ◌&&◌, ◌||◌, not}
pub use mathlib.Core.Option.{Option, none, some}
pub use mathlib.Core.List.{List, [], ◌∷◌, ◌++◌, map}
pub use native.Mathlib.Omega.{arith}
pub use text.Mathlib.TextEquality.{eq_iff}
