-- ===== src/Base.antt =====
-- The names and lemmas that the components share: library names passed on, decidable equality,
-- lists and integers over the native numbers, byte strings and maps.
mod Equality
mod Lists
pub mod Int
pub mod Dict
unfoldable pub use Equality.*
pub use Lists.*
pub use Int.{ℤ, pos, negsuc, ltb_ℤ}
unfoldable pub use Int.{◌+ℤ◌, ◌-ℤ◌, wrap64, add64, dec64}
pub use Prim.Native.Nat.{ℕ, zero, suc, ◌+◌, ◌-◌, ◌*◌, ◌/◌, ◌%◌, ◌^◌, ◌≤◌, ◌<◌}
pub use mathlib.Core.Path.{◌≡◌, refl, sym, ap, ◌∙◌}
pub use mathlib.Core.Logic.{◌≢◌, ◌↔◌, ◌⊎◌, inl, inr}
pub use mathlib.Core.Bool.{Bool, true, false, ◌&&◌, ◌||◌, not}
pub use mathlib.Core.Option.{Option, none, some}
pub use mathlib.Core.List.{List, [], ◌∷◌, ◌++◌, map}
pub use native.Mathlib.Omega.{arith}
unfoldable pub use native.Mathlib.Decide.{dec_lt, ℕ_discrete}
