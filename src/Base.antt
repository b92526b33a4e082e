-- ===== src/Base.antt =====
-- The names that the other modules share: the libraries', passed on, and those of the children.
mod Tests
mod Lists
mod Members
mod Text
pub mod Int
pub use Tests.*
pub use Lists.*
pub use Members.*
unfoldable pub use Text.{c_string}
pub use Text.{
  codes, NoZero, c_string-zeros, c_string_self, c_string_unended, eq_bytes, eq_bytes_iff, strcmp_eq,
}
pub use Int.{ℤ, pos, negsuc, minus_one, eq_ℤ, eq_ℤ_iff, to_u16}
pub use Prim.Native.Nat.{ℕ, zero, suc, ◌+◌, ◌-◌, ◌*◌, ◌/◌, ◌%◌, ◌^◌, ◌≤◌, ◌<◌, min}
pub use Prim.Native.String.{String}
pub use mathlib.Core.Path.{◌≡◌, refl, sym, ap, ◌∙◌}
pub use mathlib.Core.Logic.{◌≢◌, ◌↔◌, ◌⊎◌, inl, inr}
pub use mathlib.Core.Bool.{Bool, true, false, not, ◌&&◌, ◌||◌}
pub use mathlib.Core.Option.{Option, none, some}
pub use mathlib.Core.List.{List, [], ◌∷◌, ◌++◌, map}
pub use native.Mathlib.Omega.{arith}
