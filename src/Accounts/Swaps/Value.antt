-- ===== src/Accounts/Swaps/Value.antt =====
-- What the check of a swap's value guarantees.
use roshi.Common.{ℕ, ◌-◌, ◌*◌, ◌≤◌, ◌≡◌, ap, ◌∙◌, subst, false, arith, Option, some, [], ltb}
use roshi.Common.Result.{ok, >>=-eq-ok, ok_inj, fail_if_inv, ok_or}
use roshi.Common.Error.{program_error, lift, lift_ok, overflow}
use roshi.Common.Word.{u64, checked_sub, ok_or-checked_sub}
use roshi.Common.Nonlinear.{mul_mono}
use roshi.Math.{OraclePrice, bps_denominator, mul_div_ceil, mul_div_ceil_u64}
use roshi.Math.Rounding.{mul_div_ceil_sound, checked_u64_inv}
use roshi.Vault.{Vault}
use roshi.Feeds.Switchboard.{QuoteVerifier}
use roshi.Feeds.Session.{Clock, OracleReadSession}
use roshi.Accounts.Swaps.{
  SwapValuation, value_in_base_atoms, read_shared_leg, read_asset_price, values, verify_swap_value,
}

module _ {OracleQuote : Type 0} (verifier : QuoteVerifier OracleQuote) where
  -- A swap whose endpoints are valued with one base price, and that loses no more of the value than
  -- the vault tolerates.
  pub record IsFair (s : SwapValuation) (v : Vault) (spent received : ℕ) (clock : Clock)
      : Type 0 where
    pub base_price : Option OraclePrice
    pub input_price : Option OraclePrice
    pub output_price : Option OraclePrice
    pub after_base : OracleReadSession
    pub after_input : OracleReadSession
    pub after_output : OracleReadSession
    pub spent_value : ℕ
    pub received_value : ℕ
    pub base_read : read_shared_leg verifier [] s.base_leg clock ≡ ok (base_price, after_base)
    pub input_read :
        read_asset_price verifier after_base s.input clock ≡ ok (input_price, after_input)
    pub output_read :
        read_asset_price verifier after_input s.output clock ≡ ok (output_price, after_output)
    pub spent_worth : value_in_base_atoms s.input v spent input_price base_price ≡ ok spent_value
    pub received_worth :
        value_in_base_atoms s.output v received output_price base_price ≡ ok received_value
    pub some_tolerance : v.controls.max_swap_slippage_bps ≤ bps_denominator
    pub bound :
        spent_value * (bps_denominator - v.controls.max_swap_slippage_bps)
        ≤ received_value * bps_denominator

  min_value_inv :
      (spent_value tolerated : ℕ) {min_value : ℕ}
      → mul_div_ceil_u64 spent_value tolerated bps_denominator ≡ ok min_value
      → spent_value * tolerated ≤ min_value * bps_denominator
  unfolding mul_div_ceil_u64
  min_value_inv spent_value tolerated {min_value} h =
      let (q, made, fits) = >>=-eq-ok (mul_div_ceil spent_value tolerated bps_denominator) _ h in
      let (_, _, ceil) = mul_div_ceil_sound spent_value tolerated bps_denominator made in
      let same = (checked_u64_inv q fits).0 in
      subst (λ (m : ℕ). spent_value * tolerated ≤ m * bps_denominator) same ceil.above

  enough :
      (spent_value tolerated min_value received_value : ℕ)
      → spent_value * tolerated ≤ min_value * bps_denominator
      → ltb received_value min_value ≡ false
      → spent_value * tolerated ≤ received_value * bps_denominator
  enough spent_value tolerated min_value received_value h k =
      let order : min_value ≤ received_value = ground (arith, k) in
      omega (
        arith,
        h,
        mul_mono min_value received_value bps_denominator bps_denominator order (omega arith),
      )

  values_inv :
      (s : SwapValuation) (v : Vault) (spent received : ℕ) (clock : Clock)
      {spent_value received_value : ℕ}
      → values verifier s v spent received clock ≡ ok (spent_value, received_value)
      → v.controls.max_swap_slippage_bps ≤ bps_denominator
      → spent_value * (bps_denominator - v.controls.max_swap_slippage_bps)
        ≤ received_value * bps_denominator
      → IsFair s v spent received clock
  unfolding values
  values_inv s v spent received clock {spent_value} {received_value} h part bound =
      let ((base_price, after_base), base_read, h) =
        >>=-eq-ok (read_shared_leg verifier [] s.base_leg clock) _ h in
      let ((input_price, after_input), input_read, h) =
        >>=-eq-ok (read_asset_price verifier after_base s.input clock) _ h in
      let ((output_price, after_output), output_read, h) =
        >>=-eq-ok (read_asset_price verifier after_input s.output clock) _ h in
      let (spent_made, spent_worth, h) =
        >>=-eq-ok (value_in_base_atoms s.input v spent input_price base_price) _ h in
      let (received_made, received_worth, h) =
        >>=-eq-ok (value_in_base_atoms s.output v received output_price base_price) _ h in
      let same = ok_inj (spent_made, received_made) (spent_value, received_value) h in
      record {
        base_price = base_price;
        input_price = input_price;
        output_price = output_price;
        after_base = after_base;
        after_input = after_input;
        after_output = after_output;
        spent_value = spent_value;
        received_value = received_value;
        base_read = base_read;
        input_read = input_read;
        output_read = output_read;
        spent_worth = spent_worth ∙ ap (λ (x : ℕ × ℕ). ok x.0) same;
        received_worth = received_worth ∙ ap (λ (x : ℕ × ℕ). ok x.1) same;
        some_tolerance = part;
        bound = bound;
      }

  -- A swap that passes a configured check was valued at both endpoints with one base price, and the
  -- received value is at least the spent value less the tolerated part of 10,000.
  pub verify_swap_value-IsFair :
      (v : Vault) (s : SwapValuation) (spent received : ℕ) (clock : Clock)
      → verify_swap_value verifier v (some s) spent received clock ≡ ok tt
      → IsFair s v spent received clock
  unfolding verify_swap_value
  verify_swap_value-IsFair v s spent received clock h =
      let ((spent_value, received_value), valued, h) =
        >>=-eq-ok (values verifier s v spent received clock) _ h in
      let (tolerated, left, h) =
        >>=-eq-ok
          (ok_or (checked_sub bps_denominator v.controls.max_swap_slippage_bps)
            (program_error overflow))
          _ h in
      let (min_value, least, h) =
        >>=-eq-ok (lift (mul_div_ceil_u64 spent_value tolerated bps_denominator)) _ h in
      let sum = ok_or-checked_sub u64 bps_denominator v.controls.max_swap_slippage_bps _ left in
      let bound =
        enough spent_value tolerated min_value received_value
          (min_value_inv spent_value tolerated (lift_ok _ least)) (fail_if_inv _ _ h) in
      values_inv s v spent received clock valued (omega (arith, sum)) (
        subst (λ (x : ℕ). spent_value * x ≤ received_value * bps_denominator) (omega (arith, sum))
          bound)
