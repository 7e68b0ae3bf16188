-- ===== src/Math.antt =====
-- crates/interface/src/math.rs: the shared integer accounting of vaults. `u128::from` of a `u64` is
-- the number itself; `+` on `u128` is written with its wrap-around, which no caller reaches.
pub mod Rounding
pub mod Pow
pub mod Pricing
pub mod Shares
pub mod Fees
mod Examples
use roshi.Common.{ℕ, ◌+◌, ◌-◌, ◌*◌, ◌/◌, ◌%◌, ◌^◌, Bool, ◌||◌, leb, ltb, ◌==◌, if◌then◌else◌}
use roshi.Common.Result.{Result, ok, err, ◌>>=◌, ◌>>◌, fail_if, ok_or, map_ok}
use roshi.Common.Error.{
  RoshiError, invalid_decimals, division_by_zero, overflow, result_does_not_fit, invalid_bps,
  zero_output, invalid_vault_state,
}
use roshi.Common.Word.{
  u8, u64, u128, try_into, checked_add, checked_mul, checked_sub, max, wrapping_add,
}

abbrev pub MathResult : Type 0 → Type 0
MathResult A = Result RoshiError A

abbrev pub share_decimals : ℕ
share_decimals = 9

abbrev pub bps_denominator : ℕ
bps_denominator = 10000

-- crates/interface/src/oracle.rs: `value / 10^decimals` quote units for one whole token.
pub record OraclePrice : Type 0 where
  pub value : ℕ
  pub decimals : ℕ

abbrev pub unit_price : OraclePrice
unit_price = record { value = 1; decimals = 0 }

unfoldable pub pow10 : ℕ → MathResult ℕ
pow10 decimals = ok_or (try_into u128 (10 ^ decimals)) invalid_decimals

unfoldable pub mul_div_floor : ℕ → ℕ → ℕ → MathResult ℕ
mul_div_floor lhs rhs denominator = do
  fail_if (denominator == 0) division_by_zero
  map_ok (λ product. product / denominator) (ok_or (checked_mul u128 lhs rhs) overflow)

unfoldable pub mul_div_ceil : ℕ → ℕ → ℕ → MathResult ℕ
mul_div_ceil lhs rhs denominator = do
  fail_if (denominator == 0) division_by_zero
  product ← ok_or (checked_mul u128 lhs rhs) overflow
  let quotient = product / denominator
  if product % denominator == 0 then ok quotient else ok_or (checked_add u128 quotient 1) overflow

unfoldable pub checked_u64 : ℕ → MathResult ℕ
checked_u64 value = ok_or (try_into u64 value) result_does_not_fit

unfoldable pub mul_div_floor_u64 : ℕ → ℕ → ℕ → MathResult ℕ
mul_div_floor_u64 lhs rhs denominator = do
  value ← mul_div_floor lhs rhs denominator
  checked_u64 value

unfoldable pub mul_div_ceil_u64 : ℕ → ℕ → ℕ → MathResult ℕ
mul_div_ceil_u64 lhs rhs denominator = do
  value ← mul_div_ceil lhs rhs denominator
  checked_u64 value

-- Where a fee is charged: rounded to the nearest, halves up, and at least 1.
unfoldable pub nearest_min1 : ℕ → ℕ → ℕ → MathResult ℕ
nearest_min1 value num den = do
  fail_if (den == 0) division_by_zero
  numerator ← ok_or (checked_mul u128 value num) overflow
  let quotient = numerator / den
  let remainder = numerator % den
  let nearest = if leb den (2 * remainder % u128) then wrapping_add u128 quotient 1 else quotient
  checked_u64 (max nearest 1)

unfoldable pub round_with_min1 : ℕ → ℕ → ℕ → MathResult ℕ
round_with_min1 value num den = if num == 0 || value == 0 then ok 0 else nearest_min1 value num den

unfoldable pub bps_floor : ℕ → ℕ → MathResult ℕ
bps_floor amount bps = mul_div_floor_u64 amount bps bps_denominator

unfoldable pub bps_ceil : ℕ → ℕ → MathResult ℕ
bps_ceil amount bps = mul_div_ceil_u64 amount bps bps_denominator

unfoldable pub validate_percentage_bps : ℕ → MathResult (Unit {0})
validate_percentage_bps bps = fail_if (ltb bps_denominator bps) invalid_bps

unfoldable pub net_decimals : ℕ → MathResult ℕ
net_decimals exponent = ok_or (try_into u8 exponent) invalid_decimals

-- The two branches on the net power of ten.
unfoldable pub scale_numerator : ℕ → ℕ → ℕ → MathResult ℕ
scale_numerator scaled_atoms base_value exponent = do
  net ← net_decimals exponent
  scale ← pow10 net
  mul_div_floor scaled_atoms scale base_value

unfoldable pub scale_denominator : ℕ → ℕ → ℕ → MathResult ℕ
scale_denominator scaled_atoms base_value exponent = do
  net ← net_decimals exponent
  scale ← pow10 net
  denominator ← ok_or (checked_mul u128 base_value scale) overflow
  ok (scaled_atoms / denominator)

unfoldable pub base_atoms_from_asset_atoms : ℕ → OraclePrice → OraclePrice → ℕ → ℕ → MathResult ℕ
base_atoms_from_asset_atoms asset_atoms asset_price base_price asset_decimals base_decimals = do
  fail_if (base_price.value == 0) division_by_zero
  let numerator_exp = base_decimals + base_price.decimals
  let denominator_exp = asset_decimals + asset_price.decimals
  scaled_atoms ← ok_or (checked_mul u128 asset_atoms asset_price.value) overflow
  value ←
      if leb denominator_exp numerator_exp
      then scale_numerator scaled_atoms base_price.value (numerator_exp - denominator_exp)
      else scale_denominator scaled_atoms base_price.value (denominator_exp - numerator_exp)
  checked_u64 value

unfoldable pub virtual_share_offset : ℕ → MathResult ℕ
virtual_share_offset base_decimals = do
  delta ← ok_or (checked_sub share_decimals base_decimals) invalid_decimals
  pow10 delta

unfoldable pub checked_nonzero_u64 : ℕ → MathResult ℕ
checked_nonzero_u64 value = do value ← checked_u64 value; fail_if (value == 0) zero_output; ok value

unfoldable pub shares_for_deposit : ℕ → ℕ → ℕ → ℕ → MathResult ℕ
shares_for_deposit base_atoms total_assets total_shares base_decimals = do
  virtual_shares ← virtual_share_offset base_decimals
  shares ←
      mul_div_floor base_atoms (wrapping_add u128 total_shares virtual_shares)
        (wrapping_add u128 total_assets 1)
  checked_nonzero_u64 shares

unfoldable pub assets_for_shares : ℕ → ℕ → ℕ → ℕ → MathResult ℕ
assets_for_shares shares total_assets total_shares base_decimals = do
  fail_if (ltb total_shares shares) invalid_vault_state
  virtual_shares ← virtual_share_offset base_decimals
  assets ←
      mul_div_floor shares (wrapping_add u128 total_assets 1)
        (wrapping_add u128 total_shares virtual_shares)
  checked_u64 assets

unfoldable pub assets_for_redeem : ℕ → ℕ → ℕ → ℕ → MathResult ℕ
assets_for_redeem shares total_assets total_shares base_decimals = do
  assets ← assets_for_shares shares total_assets total_shares base_decimals
  fail_if (assets == 0) zero_output
  ok assets

unfoldable pub share_price_from_assets : ℕ → ℕ → MathResult ℕ
share_price_from_assets total_assets total_shares = do
  fail_if (total_shares == 0) invalid_vault_state
  share_scale ← pow10 share_decimals
  share_price ← mul_div_floor total_assets share_scale total_shares
  checked_u64 share_price

-- Where the gross price is above the watermark: the fee is a share of the profit over it.
unfoldable pub charged_fee : ℕ → ℕ → ℕ → ℕ → MathResult (ℕ × ℕ × ℕ)
charged_fee gross_total_assets total_shares high_watermark performance_fee_bps = do
  share_scale ← pow10 share_decimals
  high_watermark_value ← mul_div_ceil high_watermark total_shares share_scale
  high_watermark_assets ← checked_u64 high_watermark_value
  profit_assets ← ok_or (checked_sub gross_total_assets high_watermark_assets) overflow
  fee_assets ← bps_floor profit_assets performance_fee_bps
  net_total_assets ← ok_or (checked_sub gross_total_assets fee_assets) overflow
  net_share_price ← share_price_from_assets net_total_assets total_shares
  ok (fee_assets, net_total_assets, max high_watermark net_share_price)

unfoldable pub priced_fee : ℕ → ℕ → ℕ → ℕ → MathResult (ℕ × ℕ × ℕ)
priced_fee gross_total_assets total_shares high_watermark performance_fee_bps = do
  gross_share_price ← share_price_from_assets gross_total_assets total_shares
  if high_watermark == 0 || leb gross_share_price high_watermark || performance_fee_bps == 0
      then ok (0, gross_total_assets, max high_watermark gross_share_price)
      else charged_fee gross_total_assets total_shares high_watermark performance_fee_bps

-- The fee, the net assets after it and the new high watermark.
unfoldable pub performance_fee_for_nav : ℕ → ℕ → ℕ → ℕ → MathResult (ℕ × ℕ × ℕ)
performance_fee_for_nav gross_total_assets total_shares high_watermark performance_fee_bps = do
  validate_percentage_bps performance_fee_bps
  if total_shares == 0
      then ok (0, gross_total_assets, high_watermark)
      else priced_fee gross_total_assets total_shares high_watermark performance_fee_bps
