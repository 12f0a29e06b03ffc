-- ===== src/Common.antt =====
-- The names that the other modules share: the libraries', passed on, the tests on numbers, the
-- lists measured by native numbers, and the unsigned 32-bit arithmetic of the source.
mod Tests
mod Lists
mod Words
mod Options
mod Members
pub use Tests.*
pub use Lists.*
pub use Options.*
unfoldable pub use Members.{has, without, all_distinct}
pub use Members.{
  has-append, has-last, has-without, all_distinct-last, length-without, length-without_head,
}
unfoldable pub use Words.{add32, sub32}
pub use Words.{add32_small, sub32_small, word_mod}
pub use Prim.Native.Nat.{ℕ, zero, suc, ◌+◌, ◌-◌, ◌*◌, ◌/◌, ◌%◌, ◌≤◌, ◌<◌, Ordering, compare}
pub use mathlib.Core.Path.{◌≡◌, refl, sym, ap, ◌∙◌, fun_ext, subst}
pub use mathlib.Core.Logic.{◌≢◌, ◌↔◌, ◌⊎◌, inl, inr}
pub use mathlib.Core.Bool.{Bool, true, false, ◌&&◌, ◌||◌, not}
pub use mathlib.Core.Option.{Option, none, some}
pub use mathlib.Core.List.{List, [], ◌∷◌, ◌++◌, map}
pub use native.Mathlib.Omega.{arith}
unfoldable pub use native.Mathlib.Decide.{dec_lt, ℕ_discrete}
