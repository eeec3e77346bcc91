-- ===== src/Base.antt =====
-- The names that the other modules share: the libraries', passed on, and those of the children.
mod Tests
mod Lists
mod Strings
mod Dict
pub mod Int
pub use Tests.*
pub use Lists.*
unfoldable pub use Strings.{
  Text, codes, text_eq, lower_byte, to_lower, equal_fold, is_space, trim_left, trim_space,
  fields_from, fields, join_space, digits_from, signed, parse_int,
}
pub use Strings.{
  parse_int-IsInt64, text_eq_sound, text_eq_refl, text_eq_iff, text_eq-append, to_lower_idem,
}
unfoldable pub use Dict.{Map, lookup, insert, delete, or_zero, has}
pub use Dict.{lookup-insert, lookup-delete}
pub use Prim.Native.Nat.{ℕ, zero, suc, ◌+◌, ◌-◌, ◌*◌, ◌/◌, ◌%◌, ◌^◌, ◌≤◌, ◌<◌, min}
pub use mathlib.Core.Path.{◌≡◌, refl, sym, ap, subst, ◌∙◌}
pub use mathlib.Core.Logic.{◌≢◌, ◌↔◌, ◌⊎◌, inl, inr}
pub use mathlib.Core.Bool.{Bool, true, false, not, ◌&&◌, ◌||◌}
pub use mathlib.Core.Option.{Option, none, some}
pub use mathlib.Core.List.{List, [], ◌∷◌, ◌++◌, map, reverse}
pub use native.Mathlib.Omega.{arith}
