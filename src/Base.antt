-- ===== src/Base.antt =====
-- The names that the other modules share: those of the libraries, passed on, and those of the
-- children, which hold tests on numbers, lists, byte strings and dictionaries.
mod Tests
mod Lists
mod Texts
mod Dicts
mod Decimals
pub use Tests.*
pub use Lists.*
unfoldable pub use Texts.{
  Text, codes, text_eq, has_prefix, has_suffix, trim_prefix, trim_suffix, after_prefix,
}
pub use Texts.{text_eq_iff, text_eq_refl}
unfoldable pub use Dicts.{Dict, lookup, insert, delete, keys}
pub use Dicts.{lookup-insert, lookup-delete, lookup-insert_self, lookup-delete_self}
unfoldable pub use Decimals.{decimal}
pub use Prim.Native.Nat.{ℕ, zero, suc, ◌+◌, ◌-◌, ◌*◌, ◌/◌, ◌%◌, ◌^◌, ◌≤◌, ◌<◌}
pub use mathlib.Core.Path.{◌≡◌, refl, sym, ap, ◌∙◌}
pub use mathlib.Core.Logic.{◌≢◌, ◌↔◌, ◌⊎◌, inl, inr}
pub use mathlib.Core.Bool.{Bool, true, false, not, ◌&&◌, ◌||◌}
pub use mathlib.Core.Option.{Option, none, some}
pub use mathlib.Core.List.{List, [], ◌∷◌, ◌++◌, map}
pub use native.Mathlib.Omega.{arith}
