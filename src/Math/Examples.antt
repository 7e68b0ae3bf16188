-- ===== src/Math/Examples.antt =====
-- math.rs: the source's own unit tests, run on the model.
use roshi.Common.{◌^◌, ◌-◌, ◌≡◌, refl}
use roshi.Common.Result.{ok, err}
use roshi.Common.Error.{zero_output, result_does_not_fit, invalid_decimals}
use roshi.Math.{
  pow10, round_with_min1, nearest_min1, scale_numerator, scale_denominator, net_decimals,
  mul_div_floor, checked_u64, checked_nonzero_u64, virtual_share_offset, assets_for_shares,
  base_atoms_from_asset_atoms, shares_for_deposit, assets_for_redeem, share_price_from_assets,
  priced_fee, charged_fee, validate_percentage_bps, mul_div_ceil, bps_floor, mul_div_floor_u64,
  performance_fee_for_nav,
}

pow10_39 : pow10 39 ≡ err invalid_decimals
unfolding pow10
pow10_39 = refl

round_half : round_with_min1 3 1 2 ≡ ok 2
unfolding round_with_min1 nearest_min1 checked_u64
round_half = refl

round_max : round_with_min1 (2 ^ 64 - 1) (2 ^ 64 - 1) 1 ≡ err result_does_not_fit
unfolding round_with_min1 nearest_min1 checked_u64
round_max = refl

routed :
    base_atoms_from_asset_atoms 1000000000
      (record { value = 15000000000; decimals = 8 })
      (record { value = 50000000; decimals = 8 })
      9
      6
    ≡ ok 300000000
unfolding base_atoms_from_asset_atoms scale_numerator scale_denominator net_decimals pow10
    mul_div_floor checked_u64
routed = refl

off_par : shares_for_deposit 100 2000 1000000 6 ≡ ok 50024
unfolding shares_for_deposit virtual_share_offset pow10 mul_div_floor checked_nonzero_u64
    checked_u64
off_par = refl

dust : assets_for_redeem 1 100 1000 9 ≡ err zero_output
unfolding assets_for_redeem assets_for_shares virtual_share_offset pow10 mul_div_floor checked_u64
dust = refl

fee_on_gain : performance_fee_for_nav 1000011 1000000000 1000000 1000 ≡ ok (1, 1000010, 1000010)
unfolding performance_fee_for_nav priced_fee charged_fee share_price_from_assets pow10 mul_div_floor
    mul_div_ceil checked_u64 validate_percentage_bps bps_floor mul_div_floor_u64
fee_on_gain = refl
