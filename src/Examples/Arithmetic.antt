-- ===== src/Examples/Arithmetic.antt =====
-- The theorems on the arithmetic of shares, fees and prices, at concrete numbers.
use roshi.Common.{ℕ, ◌+◌, ◌-◌, ◌*◌, ◌^◌, ◌≤◌, ◌<◌, ◌≡◌, ◌↔◌, refl, arith}
use roshi.Common.Result.{ok}
use roshi.Common.Word.{u64, u128}
use roshi.Common.Nonlinear.{IsFloor, IsCeil}
use roshi.Math.{
  mul_div_floor, mul_div_ceil, bps_floor, bps_ceil, bps_denominator, round_with_min1, nearest_min1,
  checked_u64, pow10, shares_for_deposit, assets_for_shares, virtual_share_offset,
  checked_nonzero_u64, base_atoms_from_asset_atoms, scale_numerator, scale_denominator,
  net_decimals, performance_fee_for_nav, priced_fee, charged_fee, share_price_from_assets,
  validate_percentage_bps, mul_div_floor_u64,
}
use roshi.Math.Rounding.{mul_div_ceil_iff, bps_bounds, round_with_min1-IsNearest, IsNearest}
use roshi.Math.Pricing.{base_atoms-IsFloor}
use roshi.Math.Shares.{shares_for_deposit_iff, assets_for_shares_iff, IsMint, IsWorth}
use roshi.Math.Shares.RoundTrip.{deposit_redeem_no_profit, deposit_no_dilution, redeem_no_dilution}
use roshi.Math.Fees.{no_double_charge, IsFeeTriple, share_scale}
use roshi.Math.Fees.Outcomes.{performance_fee_total}
use roshi.Common.{◌*◌, ◌/◌, ◌⊎◌}
use roshi.Common.Result.{err}
use roshi.Common.Error.{invalid_bps, result_does_not_fit}

mul_div_ceil_iff_example :
    (mul_div_ceil 7 5 4 ≡ ok 9) ↔ ((0 < 4) × (7 * 5 < u128) × IsCeil (7 * 5) 4 9)
mul_div_ceil_iff_example = mul_div_ceil_iff 7 5 4 9

bps_bounds_example :
    (f c : ℕ) × (bps_floor 12345 250 ≡ ok f)
    × (bps_ceil 12345 250 ≡ ok c)
    × IsFloor (12345 * 250) bps_denominator f
    × IsCeil (12345 * 250) bps_denominator c
    × (c ≤ 12345)
bps_bounds_example = bps_bounds 12345 250 (omega arith) (omega arith)

three_halves : round_with_min1 3 1 2 ≡ ok 2
unfolding round_with_min1 nearest_min1 checked_u64
three_halves = refl

round_with_min1-IsNearest_example : (0 < 2) × IsNearest (3 * 1) 2 2
round_with_min1-IsNearest_example =
    round_with_min1-IsNearest 3 1 2 (omega arith) (omega arith) (omega arith) (omega arith)
      (omega arith) three_halves

routed_price :
    base_atoms_from_asset_atoms 1000000000
      (record { value = 15000000000; decimals = 8 })
      (record { value = 50000000; decimals = 8 })
      9
      6
    ≡ ok 300000000
unfolding base_atoms_from_asset_atoms scale_numerator scale_denominator net_decimals pow10
    mul_div_floor checked_u64
routed_price = refl

base_atoms-IsFloor_example :
    IsFloor (1000000000 * 15000000000 * 10 ^ (6 + 8)) (50000000 * 10 ^ (9 + 8)) 300000000
    × (300000000 < u64)
base_atoms-IsFloor_example =
    base_atoms-IsFloor 1000000000 (record { value = 15000000000; decimals = 8 })
      (record { value = 50000000; decimals = 8 }) 9 6 routed_price

shares_for_deposit_iff_example :
    (shares_for_deposit 100 2000 1000000 6 ≡ ok 50024) ↔ IsMint 100 2000 1000000 6 50024
shares_for_deposit_iff_example =
    shares_for_deposit_iff 100 2000 1000000 6 50024 (omega arith) (omega arith)

assets_for_shares_iff_example :
    (assets_for_shares 50024 2000 1000000 6 ≡ ok 99) ↔ IsWorth 50024 2000 1000000 6 99
assets_for_shares_iff_example =
    assets_for_shares_iff 50024 2000 1000000 6 99 (omega arith) (omega arith)

off_par_shares : shares_for_deposit 100 2000 1000000 6 ≡ ok 50024
unfolding shares_for_deposit virtual_share_offset pow10 mul_div_floor checked_nonzero_u64
    checked_u64
off_par_shares = refl

deposit_redeem_no_profit_example :
    (w : ℕ) × (assets_for_shares 50024 (2000 + 100) (1000000 + 50024) 6 ≡ ok w) × (w ≤ 100)
deposit_redeem_no_profit_example =
    deposit_redeem_no_profit 100 2000 1000000 6 50024 (omega arith) (omega arith) off_par_shares

before : assets_for_shares 500000 2000 1000000 6 ≡ ok 999
unfolding assets_for_shares virtual_share_offset pow10 mul_div_floor checked_u64
before = refl

deposit_no_dilution_example :
    (w' : ℕ) × (assets_for_shares 500000 (2000 + 100) (1000000 + 50024) 6 ≡ ok w') × (999 ≤ w')
deposit_no_dilution_example =
    deposit_no_dilution 100 2000 1000000 6 50024 500000 (omega arith) (omega arith) off_par_shares
      before

paid : assets_for_shares 50024 2000 1000000 6 ≡ ok 99
unfolding assets_for_shares virtual_share_offset pow10 mul_div_floor checked_u64
paid = refl

redeem_no_dilution_example :
    (w' : ℕ) × (assets_for_shares 500000 (2000 - 99) (1000000 - 50024) 6 ≡ ok w') × (999 ≤ w')
redeem_no_dilution_example =
    redeem_no_dilution 50024 2000 1000000 6 500000 (omega arith) (omega arith) paid before
      (omega arith)

abbrev billion : ℕ
billion = 1000000000

performance_fee_total_example :
    ((r : ℕ × ℕ × ℕ) × (performance_fee_for_nav 1000011 1000000000 1000000 1000 ≡ ok r)
      × IsFeeTriple 1000011 1000000000 1000000 1000 r
      × (1000 ≤ bps_denominator)
      × ((billion ≡ 0) ⊎ (1000011 * share_scale / 1000000000 < u64)))
    ⊎ (((bps_denominator < 1000)
          × (performance_fee_for_nav 1000011 1000000000 1000000 1000 ≡ err invalid_bps))
        ⊎ ((1000 ≤ bps_denominator)
            × (0 < 1000000000)
            × (u64 ≤ 1000011 * share_scale / 1000000000)
            × (performance_fee_for_nav 1000011 1000000000 1000000 1000 ≡ err result_does_not_fit)))
performance_fee_total_example =
    performance_fee_total 1000011 1000000000 1000000 1000 (omega arith) (omega arith) (omega arith)

fee_on_profit : performance_fee_for_nav 1000011 1000000000 1000000 1000 ≡ ok (1, 1000010, 1000010)
unfolding performance_fee_for_nav priced_fee charged_fee share_price_from_assets pow10 mul_div_floor
    mul_div_ceil checked_u64 validate_percentage_bps bps_floor mul_div_floor_u64
fee_on_profit = refl

no_double_charge_example :
    performance_fee_for_nav 1000010 1000000000 1000010 1000 ≡ ok (0, 1000010, 1000010)
no_double_charge_example =
    no_double_charge 1000011 1000000000 1000000 1000 1 1000010 1000010 (omega arith) (omega arith)
      (omega arith) fee_on_profit
