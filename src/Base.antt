-- ===== src/Base.antt =====
-- Names that every module shares: the libraries', passed on, and the tests, lists and maps of the
-- children.
mod Tests
mod Lists
mod Maps
mod Results
mod Int
mod Text
pub use Tests.*
pub use Lists.*
pub use Maps.{
  Eq, nat_eq, string_eq, AllValues, AllValues-map_values, AllValues-insert, AllValues-delete,
  AllValues-lookup, lookup-insert, lookup-insert_other, lookup-delete, lookup-delete_other,
  All-insert, All-delete, All-lookup,
}
unfoldable pub use Maps.{lookup, insert, delete, map_values}
pub use Results.*
pub use Int.*
pub use Text.{every, is_graphic, trim_space-every}
unfoldable pub use Text.{trim_space, is_control, utf8}
pub use Prim.Native.Nat.{ℕ, zero, suc, ◌+◌, ◌-◌, ◌*◌, ◌/◌, ◌%◌, ◌^◌, ◌≤◌, ◌<◌, min, max}
pub use Prim.Native.Char.{Char, code}
pub use Prim.Native.String.{String, len}
pub use mathlib.Core.Path.{◌≡◌, refl, sym, ap, subst, ◌∙◌}
pub use mathlib.Core.Logic.{◌≢◌, ◌↔◌, ◌⊎◌, inl, inr}
pub use mathlib.Core.Bool.{Bool, true, false, not, ◌&&◌, ◌||◌}
pub use mathlib.Core.Option.{Option, none, some}
pub use mathlib.Core.List.{List, [], ◌∷◌, ◌++◌, map, append_assoc, append-nil}
pub use native.Mathlib.Omega.{arith}
pub use text.Mathlib.TextEquality.{eq_iff}
pub use text.Mathlib.TextPositions.{eq_refl}
