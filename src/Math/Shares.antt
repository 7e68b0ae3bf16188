-- ===== src/Math/Shares.antt =====
-- math.rs, the share price with its virtual offset: what a deposit mints and a redeem pays.
pub mod RoundTrip
use roshi.Common.{ℕ, ◌+◌, ◌-◌, ◌*◌, ◌/◌, ◌^◌, ◌≤◌, ◌<◌, ◌≡◌, ◌↔◌, Bool, true, false, arith, ltb}
use roshi.Common.Result.{ok, err, fail_if, ◌>>=◌, ◌>>◌, >>=-eq-ok}
use roshi.Common.Error.{invalid_vault_state}
use roshi.Common.Word.{u64, u128, wrapping_add}
use roshi.Common.Nonlinear.{IsFloor, IsFloor-unique, div-IsFloor, mul_mono}
use roshi.Math.{
  shares_for_deposit, assets_for_shares, virtual_share_offset, checked_u64, checked_nonzero_u64,
  mul_div_floor,
}
use roshi.Math.Pow.{virtual_share_offset_inv, virtual_share_offset-eq, ten_pow_pos, ten_pow_mono}
use roshi.Math.Rounding.{
  mul_div_floor_inv, mul_div_floor_sound, mul_div_floor-eq, checked_u64_inv, checked_u64-eq,
}

-- The virtual supply at a mint's decimals, up to 9 of them.
abbrev pub virtual_shares : ℕ → ℕ
virtual_shares d = 10 ^ (9 - d)

pub virtual_shares_bounds : (d : ℕ) → (1 ≤ virtual_shares d) × (virtual_shares d ≤ 10 ^ 9)
virtual_shares_bounds d = (ten_pow_pos (9 - d), ten_pow_mono (9 - d) 9 (omega arith))

-- The sums of the source do not wrap.
supply_fits : (s d : ℕ) → s < u64 → wrapping_add u128 s (virtual_shares d) ≡ s + virtual_shares d
supply_fits s d h = omega (arith, virtual_shares_bounds d)

assets_fit : (a : ℕ) → a < u64 → wrapping_add u128 a 1 ≡ a + 1
assets_fit a h = omega arith

-- `shares` are minted for `b` atoms at `a` assets and `s` shares.
pub record IsMint (b a s d shares : ℕ) : Type 0 where
  pub decimals : d ≤ 9
  pub product : b * (s + virtual_shares d) < u128
  pub floor : IsFloor (b * (s + virtual_shares d)) (a + 1) shares
  pub positive : 0 < shares
  pub fits : shares < u64

-- `assets` are what `shares` are worth at `a` assets and `s` shares.
pub record IsWorth (shares a s d assets : ℕ) : Type 0 where
  pub decimals : d ≤ 9
  pub held : shares ≤ s
  pub product : shares * (a + 1) < u128
  pub floor : IsFloor (shares * (a + 1)) (s + virtual_shares d) assets
  pub fits : assets < u64

checked_nonzero_u64_inv :
    (x : ℕ) {y : ℕ} → checked_nonzero_u64 x ≡ ok y → (x ≡ y) × (y < u64) × (0 < y)
unfolding checked_nonzero_u64 checked_u64
checked_nonzero_u64_inv x h = ground arith

checked_nonzero_u64-eq : (x : ℕ) → x < u64 → 0 < x → checked_nonzero_u64 x ≡ ok x
unfolding checked_nonzero_u64 checked_u64
checked_nonzero_u64-eq x h p = ground arith

-- Both functions with the offset known and the sums plain.
shares_for_deposit_plain :
    (b a s d : ℕ)
    → d ≤ 9
    → a < u64
    → s < u64
    → shares_for_deposit b a s d
      ≡ (mul_div_floor b (s + virtual_shares d) (a + 1) >>= checked_nonzero_u64)
unfolding shares_for_deposit
shares_for_deposit_plain b a s d small ha hs =
    rw (virtual_share_offset-eq d small, supply_fits s d hs, assets_fit a ha)

assets_for_shares_plain :
    (shares a s d : ℕ)
    → d ≤ 9
    → a < u64
    → s < u64
    → assets_for_shares shares a s d ≡ (
        fail_if (ltb s shares) invalid_vault_state
        >> (mul_div_floor shares (a + 1) (s + virtual_shares d) >>= checked_u64))
unfolding assets_for_shares
assets_for_shares_plain shares a s d small ha hs =
    rw (virtual_share_offset-eq d small, supply_fits s d hs, assets_fit a ha)

shares_for_deposit_decimals :
    (b a s d : ℕ) {shares : ℕ} → shares_for_deposit b a s d ≡ ok shares → d ≤ 9
unfolding shares_for_deposit
shares_for_deposit_decimals b a s d h =
    let (v, offset, _) = >>=-eq-ok (virtual_share_offset d) _ h in
    (virtual_share_offset_inv d offset).0

assets_for_shares_decimals :
    (shares a s d : ℕ) {assets : ℕ} → assets_for_shares shares a s d ≡ ok assets → d ≤ 9
unfolding assets_for_shares
assets_for_shares_decimals shares a s d h =
    let (_, _, rest) = >>=-eq-ok (fail_if (ltb s shares) invalid_vault_state) _ h in
    let (v, offset, _) = >>=-eq-ok (virtual_share_offset d) _ rest in
    (virtual_share_offset_inv d offset).0

shares_for_deposit-IsMint :
    (b a s d : ℕ) {shares : ℕ}
    → a < u64
    → s < u64
    → shares_for_deposit b a s d ≡ ok shares
    → IsMint b a s d shares
shares_for_deposit-IsMint b a s d {shares} ha hs h =
    let small = shares_for_deposit_decimals b a s d h in
    let h' = rw (shares_for_deposit_plain b a s d small ha hs) at h in
    let (q, floored, kept) = >>=-eq-ok (mul_div_floor b (s + virtual_shares d) (a + 1)) _ h' in
    let (same, fits, positive) = checked_nonzero_u64_inv q kept in
    let exact : mul_div_floor b (s + virtual_shares d) (a + 1) ≡ ok shares = cc in
    record {
      decimals = small;
      product = (mul_div_floor_inv b (s + virtual_shares d) (a + 1) exact).1;
      floor = mul_div_floor_sound b (s + virtual_shares d) (a + 1) exact;
      positive = positive;
      fits = fits;
    }

IsMint-eq :
    (b a s d : ℕ) {shares : ℕ}
    → a < u64
    → s < u64
    → IsMint b a s d shares
    → shares_for_deposit b a s d ≡ ok shares
IsMint-eq b a s d {shares} ha hs m =
    rw
      (
        shares_for_deposit_plain b a s d m.decimals ha hs,
        mul_div_floor-eq b (s + virtual_shares d) (a + 1) (omega arith) m.product,
        IsFloor-unique (div-IsFloor (b * (s + virtual_shares d)) (a + 1) (omega arith)) m.floor,
      )
      (checked_nonzero_u64-eq shares m.fits m.positive)

-- On assets `a` and a supply `s` within 64 bits, `shares_for_deposit` mints `shares` exactly when the base mint has at most 9 decimals and `shares`
-- is `b * (s + V) / (a + 1)` rounded down, at least 1 and within 64 bits, its product within 128.
pub shares_for_deposit_iff :
    (b a s d shares : ℕ)
    → a < u64
    → s < u64
    → (shares_for_deposit b a s d ≡ ok shares) ↔ IsMint b a s d shares
shares_for_deposit_iff b a s d shares ha hs =
    (shares_for_deposit-IsMint b a s d ha hs, IsMint-eq b a s d ha hs)

assets_for_shares-IsWorth :
    (shares a s d : ℕ) {assets : ℕ}
    → a < u64
    → s < u64
    → assets_for_shares shares a s d ≡ ok assets
    → IsWorth shares a s d assets
assets_for_shares-IsWorth shares a s d {assets} ha hs h =
    let small = assets_for_shares_decimals shares a s d h in
    let h' = rw (assets_for_shares_plain shares a s d small ha hs) at h in
    let (_, held, rest) = >>=-eq-ok (fail_if (ltb s shares) invalid_vault_state) _ h' in
    let (q, floored, kept) =
      >>=-eq-ok (mul_div_floor shares (a + 1) (s + virtual_shares d)) _ rest in
    let (same, fits) = checked_u64_inv q kept in
    let exact : mul_div_floor shares (a + 1) (s + virtual_shares d) ≡ ok assets = cc in
    record {
      decimals = small;
      held = ground (arith, held);
      product = (mul_div_floor_inv shares (a + 1) (s + virtual_shares d) exact).1;
      floor = mul_div_floor_sound shares (a + 1) (s + virtual_shares d) exact;
      fits = fits;
    }

IsWorth-eq :
    (shares a s d : ℕ) {assets : ℕ}
    → a < u64
    → s < u64
    → IsWorth shares a s d assets
    → assets_for_shares shares a s d ≡ ok assets
IsWorth-eq shares a s d {assets} ha hs w =
    let guard : ltb s shares ≡ false = ground (arith, w.held) in
    let v = virtual_shares_bounds d in
    rw
      (
        assets_for_shares_plain shares a s d w.decimals ha hs,
        guard,
        mul_div_floor-eq shares (a + 1) (s + virtual_shares d) (omega arith) w.product,
        IsFloor-unique (div-IsFloor (shares * (a + 1)) (s + virtual_shares d) (omega arith))
            w.floor,
      )
      (checked_u64-eq assets w.fits)

-- On assets `a` and a supply `s` within 64 bits, `assets_for_shares` prices `shares` at `assets`
-- exactly when the base mint has at most 9 decimals,
-- no more than the supply is priced, and `assets` is `shares * (a + 1) / (s + V)` rounded down and
-- within 64 bits, its product within 128.
pub assets_for_shares_iff :
    (shares a s d assets : ℕ)
    → a < u64
    → s < u64
    → (assets_for_shares shares a s d ≡ ok assets) ↔ IsWorth shares a s d assets
assets_for_shares_iff shares a s d assets ha hs =
    (assets_for_shares-IsWorth shares a s d ha hs, IsWorth-eq shares a s d ha hs)
