-- ===== src/Common/Int.antt =====
-- Signed integers over the native numbers, and `i64` with Rust's checked and saturating operations.
use Prim.Native.Nat.{ℕ, suc, ◌+◌, ◌-◌, ◌^◌, ◌≤◌, ◌<◌}
use mathlib.Core.Path.{◌≡◌}
use mathlib.Core.Bool.{Bool, ◌&&◌}
use mathlib.Core.Option.{Option, none, some}
use native.Mathlib.Omega.{arith}
use roshi.Common.Tests.{ltb, leb, if◌then◌else◌}

-- `negsuc n` is -(n + 1).
pub data ℤ : Type 0 where
  pos : ℕ → ℤ
  negsuc : ℕ → ℤ

abbrev pub pos_part : ℤ → ℕ
pos_part (pos n) = n
pos_part (negsuc n) = 0

abbrev pub neg_part : ℤ → ℕ
neg_part (pos n) = 0
neg_part (negsuc n) = suc n

-- a - b, as an integer.
abbrev pub sub_ℕ : ℕ → ℕ → ℤ
sub_ℕ a b = if leb b a then pos (a - b) else negsuc (b - a - 1)

infixl 65 ◌+ℤ◌ ◌-ℤ◌
infix 50 ◌≤ℤ◌
unfoldable pub ◌+ℤ◌ : ℤ → ℤ → ℤ
a +ℤ b = sub_ℕ (pos_part a + pos_part b) (neg_part a + neg_part b)

unfoldable pub ◌-ℤ◌ : ℤ → ℤ → ℤ
a -ℤ b = sub_ℕ (pos_part a + neg_part b) (neg_part a + pos_part b)

abbrev pub ◌≤ℤ◌ : ℤ → ℤ → Type 0
a ≤ℤ b = pos_part a + neg_part b ≤ pos_part b + neg_part a

abbrev pub ltb_ℤ : ℤ → ℤ → Bool
ltb_ℤ a b = ltb (pos_part a + neg_part b) (pos_part b + neg_part a)

abbrev pub leb_ℤ : ℤ → ℤ → Bool
leb_ℤ a b = leb (pos_part a + neg_part b) (pos_part b + neg_part a)

pub +ℤ_parts :
    (a b : ℤ)
    → pos_part (a +ℤ b) + neg_part a + neg_part b ≡ neg_part (a +ℤ b) + pos_part a + pos_part b
unfolding ◌+ℤ◌
+ℤ_parts a b = ground arith

pub -ℤ_parts :
    (a b : ℤ)
    → pos_part (a -ℤ b) + neg_part a + pos_part b ≡ neg_part (a -ℤ b) + pos_part a + neg_part b
unfolding ◌-ℤ◌
-ℤ_parts a b = ground arith

abbrev pub i64_min : ℤ
i64_min = negsuc (2 ^ 63 - 1)

abbrev pub i64_max : ℤ
i64_max = pos (2 ^ 63 - 1)

-- Whether an integer is a value of `i64`.
abbrev pub in_i64 : ℤ → Bool
in_i64 a = leb_ℤ i64_min a && leb_ℤ a i64_max

unfoldable pub checked_add_i64 : ℤ → ℤ → Option ℤ
checked_add_i64 a b = if in_i64 (a +ℤ b) then some (a +ℤ b) else none

unfoldable pub checked_sub_i64 : ℤ → ℤ → Option ℤ
checked_sub_i64 a b = if in_i64 (a -ℤ b) then some (a -ℤ b) else none

unfoldable pub saturating_sub_i64 : ℤ → ℤ → ℤ
saturating_sub_i64 a b =
    if ltb_ℤ (a -ℤ b) i64_min then i64_min else if ltb_ℤ i64_max (a -ℤ b) then i64_max else a -ℤ b

-- `u128::try_from` on an `i64`.
abbrev pub try_to_u128 : ℤ → Option ℕ
try_to_u128 (pos n) = some n
try_to_u128 (negsuc n) = none

abbrev pub max_ℤ : ℤ → ℤ → ℤ
max_ℤ a b = if leb_ℤ a b then b else a

abbrev pub min_ℤ : ℤ → ℤ → ℤ
min_ℤ a b = if leb_ℤ a b then a else b

-- a - b where b ≤ a, as a number.
abbrev pub gap : ℤ → ℤ → ℕ
gap a b = pos_part a + neg_part b - (pos_part b + neg_part a)

pub checked_sub_i64_inv : (a b : ℤ) {c : ℤ} → checked_sub_i64 a b ≡ some c → c ≡ a -ℤ b
unfolding checked_sub_i64
checked_sub_i64_inv a b h = ground arith

-- A difference from 0 up to 2^63 - 1 is computed.
pub checked_sub_i64-gap :
    (a b : ℤ) → b ≤ℤ a → gap a b < 2 ^ 63 → checked_sub_i64 a b ≡ some (pos (gap a b))
unfolding checked_sub_i64 ◌-ℤ◌
checked_sub_i64-gap a b h k = ground arith
