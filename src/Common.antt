-- ===== src/Common.antt =====
-- The names that the other modules share: numbers, lists, Boolean tests and the byte arrays that
-- stand for `char` buffers.
mod Tests
mod Lists
mod Memory
mod Words
mod Text
mod Dictionary
mod Runs
pub use Tests.*
pub use Words.*
pub use Runs.*
pub use Lists.*
unfoldable pub use Memory.{copy_in, move_down, resize, slice}
pub use Memory.{
  overwrite, copy_in_lem, length-overwrite, take-overwrite, take-overwrite_before,
  take-drop-overwrite, moved_down, move_down_lem, length-moved_down, take-moved_down, length-resize,
  take-resize, slice_lem,
}
unfoldable pub use Text.{starts_with, decimal_onto, to_string, padded}
pub use Text.{
  codes, value_onto, value-to_string, value_until, value_until-to_string, padded-injective,
}
unfoldable pub use Dictionary.{lookup, insert, erase}
pub use Dictionary.{
  Eq, string_eq, bytes_eq, bytes_beq, bytes_beq_iff, Dict, lookup-insert, lookup-erase,
}
pub use Prim.Native.String.{String}
unfoldable pub use text.Mathlib.Text.{◌==◌ as str_eq}
pub use text.Mathlib.TextEquality.{eq_iff}
pub use Prim.Native.Nat.{ℕ, zero, suc, ◌+◌, ◌-◌, ◌*◌, ◌/◌, ◌%◌, ◌^◌, ◌≤◌, ◌<◌, min, max}
pub use mathlib.Core.Path.{◌≡◌, refl, sym, ap, ap₂, subst, ◌∙◌}
pub use mathlib.Core.Logic.{◌≢◌, ◌↔◌, ◌⊎◌, inl, inr}
pub use mathlib.Core.Bool.{Bool, true, false, not, ◌&&◌, ◌||◌}
pub use mathlib.Core.Option.{Option, none, some}
pub use mathlib.Core.List.{List, [], ◌∷◌, ◌++◌, append-nil, append_assoc}
pub use native.Mathlib.Omega.{arith}
