-- ===== src/Base.antt =====
-- The names that the other modules share: the libraries', passed on, and those of the children.
mod Tests
mod Lists
mod Strings
mod Lower
pub mod Dict
mod Clock
mod Outcome
pub use Tests.*
pub use Lists.*
unfoldable pub use Strings.{text_eq, is_space, trim_left, trim_right, trim_space, cut, decimal}
pub use Strings.{
  has_code, cut-append, cut-absent, trim_space-joined, Text, codes, is_empty, IsTrimmed,
  text_eq_iff, text_eq_refl, text_eq_sym, trim_space-IsTrimmed,
}
unfoldable pub use Lower.{to_lower, trim_lower}
pub use Lower.{trim_lower_idem}
pub use Clock.*
pub use Outcome.*
pub use Prim.Native.Nat.{ℕ, zero, suc, ◌+◌, ◌-◌, ◌*◌, ◌/◌, ◌%◌, ◌^◌, ◌≤◌, ◌<◌}
pub use mathlib.Core.Path.{◌≡◌, refl, sym, ap, ◌∙◌}
pub use mathlib.Core.Logic.{◌≢◌, ◌↔◌, ◌⊎◌, inl, inr}
pub use mathlib.Core.Bool.{Bool, true, false, not, ◌&&◌, ◌||◌}
pub use mathlib.Core.Option.{Option, none, some}
pub use mathlib.Core.List.{List, [], ◌∷◌, ◌++◌, map}
pub use native.Mathlib.Omega.{arith}
