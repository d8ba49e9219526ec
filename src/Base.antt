-- ===== src/Base.antt =====
-- The names that the other modules share: the libraries' and those of the children. `Tests` has the
-- Boolean tests, `Lists` the lists measured by native numbers, `Sets` and `Maps` the hash sets and
-- hash maps of the program as lists, `Words` the unsigned machine words, `Tables` the tables of the SQL stores,
-- `Rows` the test of whether some row of one meets a condition.
mod Tests
mod Lists
mod Sets
mod Maps
mod Words
mod Texts
mod Tables
mod Rows
unfoldable pub use Tests.*
unfoldable pub use Lists.*
unfoldable pub use Sets.*
unfoldable pub use Maps.*
unfoldable pub use Texts.*
unfoldable pub use Words.*
unfoldable pub use Tables.*
unfoldable pub use Rows.*
pub use Prim.Native.Nat.{ℕ, zero, suc, ◌+◌, ◌-◌, ◌*◌, ◌/◌, ◌%◌, ◌^◌, ◌≤◌, ◌<◌, min, max}
pub use mathlib.Core.Path.{◌≡◌, refl, sym, ap, ◌∙◌}
pub use mathlib.Core.Logic.{◌≢◌, ◌↔◌, ◌⊎◌, inl, inr}
pub use mathlib.Core.Logic.{if_pos, if_neg}
pub use mathlib.Core.Logic.{ite}
pub use mathlib.Core.Bool.{Bool, true, false, ◌&&◌, ◌||◌, not}
pub use mathlib.Core.Option.{Option, none, some}
pub use mathlib.Core.List.{List, [], ◌∷◌, ◌++◌}
pub use mathlib.Core.List.{map, reverse}
pub use native.Mathlib.Omega.{arith}
unfoldable pub use native.Mathlib.Decide.{dec_lt, dec_le, ℕ_discrete}
