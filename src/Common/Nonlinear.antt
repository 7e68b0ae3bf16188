-- ===== src/Common/Nonlinear.antt =====
-- Order facts about products, quotients and remainders that linear arithmetic does not reach, and
-- what it means for a number to be the rounded quotient of two others.
use Prim.Native.Nat.{ℕ, ◌+◌, ◌*◌, ◌/◌, ◌≤◌, ◌<◌}
use mathlib.Core.Path.{◌≡◌}
use native.Mathlib.Omega.{arith}

-- `q` is `n / d` rounded down, and rounded up, with no division in sight.
pub record IsFloor (n d q : ℕ) : Type 0 where
  pub below : q * d ≤ n
  pub above : n < q * d + d

pub record IsCeil (n d q : ℕ) : Type 0 where
  pub above : n ≤ q * d
  pub below : q * d < n + d

pub mul_mono : (a b c d : ℕ) → a ≤ b → c ≤ d → a * c ≤ b * d
mul_mono a b c d h k = grind arith

pub mul_cancel_lt : (a b c : ℕ) → a * c < b * c → a < b
mul_cancel_lt a b c h = grind arith

pub mul_cancel_le : (a b c : ℕ) → 0 < c → a * c ≤ b * c → a ≤ b
mul_cancel_le a b c p h = grind arith

pub div-IsFloor : (n d : ℕ) → 0 < d → IsFloor n d (n / d)
div-IsFloor n d h = omega arith

pub IsFloor-le : {n d q : ℕ} (p : ℕ) → IsFloor n d q → p * d ≤ n → p ≤ q
IsFloor-le {n} {d} {q} p h k =
    let bound : p * d < (q + 1) * d = omega (arith, h.below, h.above) in
    omega (arith, mul_cancel_lt p (q + 1) d bound)

pub IsFloor-unique : {n d p q : ℕ} → IsFloor n d p → IsFloor n d q → p ≡ q
IsFloor-unique {n} {d} {p} {q} h k = omega (arith, IsFloor-le p k h.below, IsFloor-le q h k.below)

pub IsCeil-le : {n d q : ℕ} (p : ℕ) → IsCeil n d q → n ≤ p * d → q ≤ p
IsCeil-le {n} {d} {q} p h k =
    let bound : q * d < (p + 1) * d = omega (arith, h.above, h.below) in
    omega (arith, mul_cancel_lt q (p + 1) d bound)

pub IsCeil-unique : {n d p q : ℕ} → IsCeil n d p → IsCeil n d q → p ≡ q
IsCeil-unique {n} {d} {p} {q} h k = omega (arith, IsCeil-le p k h.above, IsCeil-le q h k.above)

pub IsFloor-le-IsCeil : {n d p q : ℕ} → IsFloor n d p → IsCeil n d q → p ≤ q
IsFloor-le-IsCeil {n} {d} {p} {q} h k =
    let bound : p * d < (q + 1) * d = omega (arith, h.below, h.above, k.above, k.below) in
    omega (arith, mul_cancel_lt p (q + 1) d bound)

-- A quotient is monotone in what is divided.
pub IsFloor-mono : {m n d p q : ℕ} → IsFloor m d p → IsFloor n d q → m ≤ n → p ≤ q
IsFloor-mono {p = p} h k l = IsFloor-le p k (omega (arith, h.below))

-- A quotient does not change when both numbers are multiplied.
pub IsFloor-scale : {n d q : ℕ} (c : ℕ) → 0 < c → IsFloor n d q → IsFloor (n * c) (d * c) q
IsFloor-scale {n} {d} {q} c pos h =
    let low : q * d * c ≤ n * c = mul_mono (q * d) n c c h.below (omega arith) in
    let high : (n + 1) * c ≤ (q * d + d) * c =
      mul_mono (n + 1) (q * d + d) c c (omega (arith, h.above)) (omega arith) in
    record { below = omega (arith, low); above = omega (arith, high) }
