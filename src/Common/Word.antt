-- ===== src/Common/Word.antt =====
-- Rust's unsigned words and their checked operations. A word is a number; its type's modulus is an
-- argument of the operations that can overflow.
use roshi.Common.Result.{ok, ok_or}
use Prim.Native.Nat.{ℕ, ◌+◌, ◌-◌, ◌*◌, ◌%◌, ◌^◌, ◌<◌}
use mathlib.Core.Path.{◌≡◌}
use native.Mathlib.Omega.{arith}
use mathlib.Core.Option.{Option, none, some}
use roshi.Common.Tests.{ltb, leb, if◌then◌else◌}

abbrev pub u8 : ℕ
u8 = 256

abbrev pub u16 : ℕ
u16 = 65536

abbrev pub u32 : ℕ
u32 = 2 ^ 32

abbrev pub u64 : ℕ
u64 = 2 ^ 64

abbrev pub u128 : ℕ
u128 = 2 ^ 128

-- `x.try_into()`: the value if it fits the word.
abbrev pub try_into : ℕ → ℕ → Option ℕ
try_into w x = if ltb x w then some x else none

abbrev pub checked_add : ℕ → ℕ → ℕ → Option ℕ
checked_add w a b = try_into w (a + b)

abbrev pub checked_mul : ℕ → ℕ → ℕ → Option ℕ
checked_mul w a b = try_into w (a * b)

abbrev pub checked_sub : ℕ → ℕ → Option ℕ
checked_sub a b = if leb b a then some (a - b) else none

abbrev pub max : ℕ → ℕ → ℕ
max a b = if leb a b then b else a

-- `+` where nothing checks it.
abbrev pub wrapping_add : ℕ → ℕ → ℕ → ℕ
wrapping_add w a b = (a + b) % w

-- `?` on a checked operation.
module _ {E : Type 0} (bound a b : ℕ) (e : E) {c : ℕ} where
  pub ok_or-checked_add : ok_or (checked_add bound a b) e ≡ ok c → (c ≡ a + b) × (a + b < bound)
  ok_or-checked_add h = ground (arith, h)

  pub ok_or-checked_sub : ok_or (checked_sub a b) e ≡ ok c → c + b ≡ a
  ok_or-checked_sub h = ground (arith, h)
