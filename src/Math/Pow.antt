-- ===== src/Math/Pow.antt =====
-- math.rs, the powers of ten: `pow10` and the virtual share offset.
use native.Mathlib.Nat.{pow-suc, pow-zero, add-zero, add-suc, pow-le-pow_right}
use roshi.Common.{ℕ, zero, suc, ◌+◌, ◌-◌, ◌*◌, ◌^◌, ◌≤◌, ◌<◌, ◌≡◌, arith}
use roshi.Common.Result.{ok}
use roshi.Common.Word.{u128}
use roshi.Math.{pow10, virtual_share_offset}

pub ten_pow_pos : (k : ℕ) → 0 < 10 ^ k
ten_pow_pos zero = omega arith
ten_pow_pos (suc k) = rw (pow-suc 10 k) (omega (arith, ten_pow_pos k))

pub ten_pow-add : (j k : ℕ) → 10 ^ (j + k) ≡ 10 ^ j * 10 ^ k
ten_pow-add j zero = rw (add-zero j, pow-zero 10) (omega arith)
ten_pow-add j (suc k) =
    rw (add-suc j k, pow-suc 10 (j + k), pow-suc 10 k, ten_pow-add j k) (omega arith)

pub ten_pow_mono : (j k : ℕ) → j ≤ k → 10 ^ j ≤ 10 ^ k
ten_pow_mono j k h = pow-le-pow_right {n = 10} (omega arith) {i = j} {j = k} h

pub pow10_inv : (d : ℕ) {s : ℕ} → pow10 d ≡ ok s → (s ≡ 10 ^ d) × (10 ^ d < u128)
unfolding pow10
pow10_inv d h = ground arith

pub virtual_share_offset_inv :
    (d : ℕ) {v : ℕ} → virtual_share_offset d ≡ ok v → (d ≤ 9) × (v ≡ 10 ^ (9 - d))
unfolding virtual_share_offset pow10
virtual_share_offset_inv d h = ground arith

pub virtual_share_offset-eq : (d : ℕ) → d ≤ 9 → virtual_share_offset d ≡ ok (10 ^ (9 - d))
unfolding virtual_share_offset pow10
virtual_share_offset-eq d h = ground (arith, ten_pow_mono (9 - d) 9 (omega arith))

pub virtual_share_offset_bounds :
    (d : ℕ) {v : ℕ} → virtual_share_offset d ≡ ok v → (1 ≤ v) × (v ≤ 10 ^ 9)
virtual_share_offset_bounds d h =
    let (small, same) = virtual_share_offset_inv d h in
    rw same (ten_pow_pos (9 - d), ten_pow_mono (9 - d) 9 (omega arith))
