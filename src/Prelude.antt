-- ===== src/Prelude.antt =====
-- The names that the other modules share: the libraries', passed on, and those of the children.
mod Tests
mod Lists
mod Keys
mod Texts
mod Format
pub use Tests.*
pub use Lists.*
pub use Keys.*
pub use Format.{lookup-store, Formatted, formatted, value_error, lookup_error}
unfoldable pub use Format.{lookup, store, format}
pub use Texts.{Text, text, text_eq_refl, text_eq→eq, text_eq_iff, has_text, split-one, split-append}
unfoldable pub use Texts.{text_eq, split, strip, lower, fnmatch, starts_with}
pub use Prim.Native.Nat.{ℕ, zero, suc, ◌+◌, ◌-◌, ◌*◌, ◌/◌, ◌%◌, ◌≤◌, ◌<◌}
pub use Prim.Native.String.{String}
pub use mathlib.Core.Path.{◌≡◌, refl, sym, ap, subst, ◌∙◌}
pub use mathlib.Core.Logic.{◌≢◌, ◌↔◌, ◌⊎◌, inl, inr}
pub use mathlib.Core.Bool.{Bool, true, false, not, ◌&&◌, ◌||◌}
pub use mathlib.Core.Option.{Option, none, some}
pub use mathlib.Core.List.{List, [], ◌∷◌, ◌++◌, map, flat_map}
pub use native.Mathlib.Omega.{arith}
