-- ===== src/Examples/Swaps.antt =====
-- A swap of base tokens for an asset, and the check of its value.
use roshi.Common.{◌≡◌, refl, false, some, none, [], ◌∷◌}
use roshi.Common.Result.{ok}
use roshi.Common.Bytes.{bytes_eq}
use roshi.Math.{
  base_atoms_from_asset_atoms, mul_div_ceil, mul_div_ceil_u64, pow10, scale_numerator,
  scale_denominator, checked_nonzero_u64, net_decimals, checked_u64,
}
use roshi.Oracle.{active_switchboard}
use roshi.Feeds.Switchboard
use roshi.Feeds.Switchboard.{verify_account_contract, price_from_quote}
use roshi.Feeds.Session
use roshi.Feeds.Session.{read_active, session_read, find_reused, price_or_read}
use roshi.Accounts.Swaps.{
  SwapValuation, base_pricing, asset_pricing, read_shared_leg, read_asset_price,
  endpoint_base_price, value_in_base_atoms, values, verify_swap_value,
}
use roshi.Accounts.Swaps.Value.{IsFair, verify_swap_value-IsFair}
use roshi.Examples.{vault, key}
use roshi.Examples.Prices.{verifier, plain_account, quote_config, clock}

abbrev valuation : SwapValuation
valuation = record {
  input = base_pricing;
  output = asset_pricing 6 false (record {
    config = active_switchboard quote_config;
    accounts =
        plain_account (key 62)
        ∷ plain_account (key 63)
        ∷ plain_account (key 60)
        ∷ plain_account (key 61)
        ∷ [];
  });
  base_leg = none;
}

value_passes : verify_swap_value verifier vault (some valuation) 5 100 clock ≡ ok tt
unfolding verify_swap_value values read_shared_leg read_asset_price endpoint_base_price
    value_in_base_atoms session_read find_reused price_or_read Session.read_leg read_active
    Switchboard.read_verified_price verify_account_contract price_from_quote bytes_eq
    base_atoms_from_asset_atoms mul_div_ceil mul_div_ceil_u64 scale_numerator scale_denominator
    pow10 checked_nonzero_u64 net_decimals checked_u64
value_passes = refl

verify_swap_value-IsFair_example : IsFair verifier valuation vault 5 100 clock
verify_swap_value-IsFair_example =
    verify_swap_value-IsFair verifier vault valuation 5 100 clock value_passes
