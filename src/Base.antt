-- ===== src/Base.antt =====
-- The names that all modules share: the libraries', passed on, and those of the children.
mod Tests
mod Lists
mod Maps
mod Text
mod Parts
mod Errors
mod Decimal
pub mod State
pub use Tests.*
pub use Lists.*
pub use Maps.{Map, lookup-insert, lookup-delete, lookup-append, map_laws}
unfoldable pub use Maps.{lookup, insert, delete}
pub use Errors.*
pub use Decimal.{ℤ, pos, negsuc, max_int64, parse_int-format_nat, format_nat-injective}
unfoldable pub use Decimal.{format_nat, format_int, parse_int}
pub use Parts.{
  Lacks, split-first, split_of_Lacks, split-join, Lacks-append, Lacks-join, to_lower-Lacks,
}
pub use Text.{◌⊕◌, push, strip-append, split-cons, join-split}
unfoldable pub use Text.{split, join, to_lower, lower_char, strip, contains}
pub use Prim.Native.Nat.{ℕ, zero, suc, ◌+◌, ◌-◌, ◌*◌, ◌/◌, ◌%◌, ◌^◌, ◌≤◌, ◌<◌}
pub use Prim.Native.String.{String}
pub use mathlib.Core.Path.{◌≡◌, refl, sym, ap, ◌∙◌, fun_ext, subst}
pub use mathlib.Core.Logic.{◌≢◌, ◌↔◌, ◌⊎◌, inl, inr}
pub use mathlib.Core.Bool.{Bool, true, false, not, ◌&&◌, ◌||◌}
pub use mathlib.Core.Option.{Option, none, some}
pub use mathlib.Core.List.{List, [], ◌∷◌, ◌++◌, map}
pub use native.Mathlib.Omega.{arith}
pub use text.Mathlib.Text.{◌==◌, starts_with}
pub use text.Mathlib.TextEquality.{eq_iff}
pub use text.Mathlib.TextPositions.{eq_refl}
