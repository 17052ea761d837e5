-- ===== src/Base.antt =====
-- The names that the other modules share: the libraries', passed on, and those of the children.
mod Tests
mod Lists
mod Text
mod Slices
mod Maps
mod Effects
pub mod Float
pub mod Int64
pub use Tests.*
pub use Lists.*
pub use Text.*
pub use Slices.*
unfoldable pub use Text.{
  trimmed_from, trim_space, to_upper, to_lower, contains, itoa, truncate_with, split, trim_prefix,
  has_suffix, quote,
}
unfoldable pub use Lists.{join}
pub use Maps.*
unfoldable pub use Maps.{lookup, insert, delete}
pub use Effects.*
pub use Prim.Native.Nat.{ℕ, zero, suc, ◌+◌, ◌-◌, ◌*◌, ◌/◌, ◌%◌, ◌≤◌, ◌<◌}
pub use Prim.Native.String.{String, len, slice}
pub use Prim.Native.String.{◌++◌ as ◌⧺◌}
pub use text.Mathlib.Text.{◌==◌, starts_with, find?}
pub use text.Mathlib.TextEquality.{eq_iff}
pub use text.Mathlib.TextPositions.{eq_refl}
pub use mathlib.Core.Path.{◌≡◌, refl, sym, ap, subst, ◌∙◌}
pub use mathlib.Core.Logic.{◌≢◌, ◌↔◌, ◌⊎◌, inl, inr}
pub use mathlib.Core.Bool.{Bool, true, false, not, ◌&&◌, ◌||◌}
pub use mathlib.Core.Option.{Option, none, some}
pub use mathlib.Core.List.{List, [], ◌∷◌, ◌++◌, map, append_assoc, append-nil}
pub use native.Mathlib.Omega.{arith}
