-- ===== src/Base.antt =====
-- The names that every module shares: the libraries', passed on, with tests on numbers and texts,
-- lists over the native numbers, and Go's maps with string keys.
mod Tests
mod Lists
mod Maps
mod Int
mod Text
pub use Tests.*
unfoldable pub use Tests.{str_dec}
pub use Lists.*
pub use Maps.*
pub use Int.*
pub use Text.*
unfoldable pub use Text.{
  after_prefix, all_below, contains_text, decimal, decimal_onto, hex, trim_left, trim_right,
  trim_space,
}
unfoldable pub use Int.{pred_ℤ, is_nonpositive}
unfoldable pub use Maps.{lookup, insert, delete, contains}
pub use Prim.Native.Nat.{ℕ, zero, suc, ◌+◌, ◌-◌, ◌*◌, ◌/◌, ◌%◌, ◌^◌, ◌≤◌, ◌<◌}
pub use Prim.Native.String.{String}
pub use mathlib.Core.Path.{◌≡◌, refl, sym, ap, ◌∙◌, subst}
pub use mathlib.Core.Logic.{◌≢◌, ◌↔◌, ◌⊎◌, inl, inr, ite, if_pos, if_neg}
pub use mathlib.Core.Bool.{Bool, true, false, not, ◌&&◌, ◌||◌}
pub use mathlib.Core.Option.{Option, none, some}
pub use mathlib.Core.List.{List, [], ◌∷◌, ◌++◌, map, append-nil, append_assoc}
pub use native.Mathlib.Omega.{arith}
unfoldable pub use native.Mathlib.Decide.{dec_lt, dec_le, ℕ_discrete}
