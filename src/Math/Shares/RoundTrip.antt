-- ===== src/Math/Shares/RoundTrip.antt =====
-- Deposits and redeems against one another: no path through the share price makes money out of
-- rounding, and no one else's shares are diluted.
use roshi.Common.{ℕ, ◌+◌, ◌-◌, ◌*◌, ◌/◌, ◌≤◌, ◌<◌, ◌≡◌, arith}
use roshi.Common.Result.{ok}
use roshi.Common.Word.{u64, u128}
use roshi.Common.Nonlinear.{
  IsFloor, IsFloor-le, div-IsFloor, mul_mono, mul_cancel_lt, mul_cancel_le,
}
use roshi.Math.{shares_for_deposit, assets_for_shares}
use roshi.Math.Shares.{
  IsWorth, virtual_shares, virtual_shares_bounds, shares_for_deposit_iff, assets_for_shares_iff,
}

-- The algebra of a mint of `n` shares for `b`, at the pot `p = a + 1` and the supply `q = s + V`.
mint_worth : (b p q n w : ℕ) → 0 < q → n * p ≤ b * q → w * (q + n) ≤ n * (p + b) → w ≤ b
mint_worth b p q n w pos h k = mul_cancel_le w b (q + n) (omega arith) (omega (arith, h, k))

-- A claim of `h` shares worth `w` is worth at least as much at a pot and supply of a higher ratio.
claim_grows : (p q p' q' h w : ℕ) → 0 < q → w * q ≤ h * p → p * q' ≤ p' * q → w * q' ≤ h * p'
claim_grows p q p' q' h w pos worth ratio =
    let a : w * q * q' ≤ h * p * q' = mul_mono (w * q) (h * p) q' q' worth (omega arith) in
    let b : h * (p * q') ≤ h * (p' * q) = mul_mono h h (p * q') (p' * q) (omega arith) ratio in
    mul_cancel_le (w * q') (h * p') q pos (omega (arith, a, b))

-- Paying `w` for `n` of `n + k` shares, out of a pot of `w + m`, leaves the ratio no lower.
pay_ratio : (k m n w : ℕ) → w * (n + k) ≤ n * (w + m) → (w + m) * k ≤ m * (n + k)
pay_ratio k m n w h = omega (arith, h)

-- A redeem is never priced above the assets of the vault, since the virtual supply is at least 1.
pub assets_for_shares-le :
    (n a s d : ℕ) {w : ℕ} → a < u64 → s < u64 → assets_for_shares n a s d ≡ ok w → w ≤ a
assets_for_shares-le n a s d {w} ha hs h =
    let worth = (assets_for_shares_iff n a s d w ha hs).0 h in
    let v = virtual_shares_bounds d in
    let q = s + virtual_shares d in
    let part : n * (a + 1) < (a + 1) * q = omega (
      arith,
      mul_mono n s (a + 1) (a + 1) worth.held (omega arith),
      mul_mono (a + 1) (a + 1) 1 (virtual_shares d) (omega arith) v.0,
    ) in
    let bound : w * q < (a + 1) * q = omega (arith, worth.floor.below, part) in
    omega (arith, mul_cancel_lt w (a + 1) q bound)

-- The shares that a deposit mints, where assets and supply stay within 64 bits, can be priced straight afterwards, and are worth no more than the
-- deposit.
pub deposit_redeem_no_profit :
    (b a s d n : ℕ)
    → a + b < u64
    → s + n < u64
    → shares_for_deposit b a s d ≡ ok n
    → (w : ℕ) × (assets_for_shares n (a + b) (s + n) d ≡ ok w) × (w ≤ b)
deposit_redeem_no_profit b a s d n ha hs h =
    let mint = (shares_for_deposit_iff b a s d n (omega arith) (omega arith)).0 h in
    let v = virtual_shares_bounds d in
    let q = s + virtual_shares d in
    let w = n * (a + b + 1) / (s + n + virtual_shares d) in
    let floor : IsFloor (n * (a + b + 1)) (s + n + virtual_shares d) w =
      div-IsFloor (n * (a + b + 1)) (s + n + virtual_shares d) (omega arith) in
    let cheap : w ≤ b =
      mint_worth b (a + 1) q n w (omega arith) mint.floor.below (omega (arith, floor.below)) in
    let product : n * (a + b + 1) < u128 =
      omega (arith, mul_mono n (u64 - 1) (a + b + 1) u64 (omega arith) (omega arith)) in
    let worth : IsWorth n (a + b) (s + n) d w = record {
      decimals = mint.decimals;
      held = omega arith;
      product = product;
      floor = floor;
      fits = omega arith;
    } in
    (w, (assets_for_shares_iff n (a + b) (s + n) d w (omega arith) (omega arith)).1 worth, cheap)

-- Shares within the supply can always be priced.
price_exists :
    (h a s d : ℕ) {w0 a0 s0 : ℕ}
    → a < u64
    → s < u64
    → h ≤ s
    → IsWorth h a0 s0 d w0
    → (w : ℕ) × (assets_for_shares h a s d ≡ ok w)
price_exists h a s d {w0} {a0} {s0} ha hs held old =
    let v = virtual_shares_bounds d in
    let q = s + virtual_shares d in
    let w = h * (a + 1) / q in
    let floor : IsFloor (h * (a + 1)) q w = div-IsFloor (h * (a + 1)) q (omega arith) in
    let product : h * (a + 1) < u128 =
      omega (arith, mul_mono h (u64 - 1) (a + 1) u64 (omega arith) (omega arith)) in
    let part : h * (a + 1) < (a + 1) * q = omega (
      arith,
      mul_mono h s (a + 1) (a + 1) held (omega arith),
      mul_mono (a + 1) (a + 1) 1 (virtual_shares d) (omega arith) v.0,
    ) in
    let bound : w * q < (a + 1) * q = omega (arith, floor.below, part) in
    let worth : IsWorth h a s d w = record {
      decimals = old.decimals;
      held = held;
      product = product;
      floor = floor;
      fits = omega (arith, mul_cancel_lt w (a + 1) q bound);
    } in
    (w, (assets_for_shares_iff h a s d w ha hs).1 worth)

-- A deposit, within 64 bits of assets and supply, dilutes no one: `h` shares that could be priced
-- before it can be priced after it, and are worth at least as much.
pub deposit_no_dilution :
    (b a s d n h : ℕ) {w : ℕ}
    → a + b < u64
    → s + n < u64
    → shares_for_deposit b a s d ≡ ok n
    → assets_for_shares h a s d ≡ ok w
    → (w' : ℕ) × (assets_for_shares h (a + b) (s + n) d ≡ ok w') × (w ≤ w')
deposit_no_dilution b a s d n h {w} ha hs minted before =
    let mint = (shares_for_deposit_iff b a s d n (omega arith) (omega arith)).0 minted in
    let old = (assets_for_shares_iff h a s d w (omega arith) (omega arith)).0 before in
    let (w', after) = price_exists h (a + b) (s + n) d ha hs (omega (arith, old.held)) old in
    let new = (assets_for_shares_iff h (a + b) (s + n) d w' (omega arith) (omega arith)).0 after in
    let q = s + virtual_shares d in
    let ratio : (a + 1) * (s + n + virtual_shares d) ≤ (a + b + 1) * q =
      omega (arith, mint.floor.below) in
    let v = virtual_shares_bounds d in
    (
      w',
      after,
      IsFloor-le w new.floor (
          claim_grows (a + 1) q (a + b + 1) (s + n + virtual_shares d) h w (omega arith)
            old.floor.below ratio),
    )

-- A redeem of `n` shares at its price, out of assets and a supply within 64 bits, takes nothing from
-- the others: `h` of the remaining shares can be priced after it, and are worth at least what they
-- were worth before it.
pub redeem_no_dilution :
    (n a s d h : ℕ) {paid w : ℕ}
    → a < u64
    → s < u64
    → assets_for_shares n a s d ≡ ok paid
    → assets_for_shares h a s d ≡ ok w
    → n + h ≤ s
    → (w' : ℕ) × (assets_for_shares h (a - paid) (s - n) d ≡ ok w') × (w ≤ w')
redeem_no_dilution n a s d h {paid} {w} ha hs priced before rest =
    let pay = (assets_for_shares_iff n a s d paid ha hs).0 priced in
    let old = (assets_for_shares_iff h a s d w ha hs).0 before in
    let (w', after) =
      price_exists h (a - paid) (s - n) d (omega arith) (omega arith) (omega (arith, rest)) old in
    let new =
      (assets_for_shares_iff h (a - paid) (s - n) d w' (omega arith) (omega arith)).0 after in
    let capped = assets_for_shares-le n a s d ha hs priced in
    let v = virtual_shares_bounds d in
    let k = s - n + virtual_shares d in
    let m = a - paid + 1 in
    let nk : n + k ≡ s + virtual_shares d = omega (arith, pay.held) in
    let wm : paid + m ≡ a + 1 = omega (arith, capped) in
    let exact : paid * (n + k) ≤ n * (paid + m) = rw (nk, wm) pay.floor.below in
    let claim : w * (n + k) ≤ h * (paid + m) = rw (nk, wm) old.floor.below in
    (
      w',
      after,
      IsFloor-le w new.floor
          (claim_grows (paid + m) (n + k) m k h w (omega arith) claim (pay_ratio k m n paid exact)),
    )
