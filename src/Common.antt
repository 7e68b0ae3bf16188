-- ===== src/Common.antt =====
-- The names that every other module shares: the libraries', passed on, the Boolean tests, results
-- and error codes, the machine words with Rust's checked operations, and signed integers.
mod Tests
pub mod Result
pub mod Maybe
pub mod Error
pub mod Word
pub mod Int
pub mod Nonlinear
pub mod Bytes
pub use Tests.*
pub use Prim.Native.Nat.{ℕ, zero, suc, ◌+◌, ◌-◌, ◌*◌, ◌/◌, ◌%◌, ◌^◌, ◌≤◌, ◌<◌}
pub use mathlib.Core.Path.{◌≡◌, refl, sym, ap, ◌∙◌, subst}
pub use mathlib.Core.Logic.{◌≢◌, ◌↔◌, ◌⊎◌, inl, inr}
pub use mathlib.Core.Bool.{Bool, true, false, not, ◌&&◌, ◌||◌}
pub use mathlib.Core.Option.{Option, none, some}
pub use mathlib.Core.List.{List, [], ◌∷◌, ◌++◌, map}
pub use native.Mathlib.Omega.{arith}
