-- ===== src/Accounts/Swaps.antt =====
-- crates/roshi/src/instructions/accounts/swap.rs, how a swap is valued, and the check of its value
-- in crates/roshi/src/instructions/execution/swap.rs.
pub mod Value
use roshi.Common.{
  ℕ, Bool, true, false, not, ◌||◌, List, [], ◌∷◌, Option, none, some, ltb, if◌then◌else◌,
}
use roshi.Common.Result.{ok, err, ◌>>=◌, ◌>>◌, fail_if, ok_or, map_err, Result}
use roshi.Common.Error.{
  program_error, lift, not_enough_account_keys, invalid_account_data, overflow, slippage_exceeded,
  unpriceable_swap_leg,
}
use roshi.Common.Word.{u32, checked_sub}
use roshi.Common.Bytes.{Key, bytes_eq}
use roshi.Math.{
  OraclePrice, unit_price, base_atoms_from_asset_atoms, bps_denominator, mul_div_ceil_u64,
}
use roshi.Vault.{Vault, ProgramResult}
use roshi.Token.{Account}
use roshi.Records.{Asset, routed}
use roshi.Feeds.Switchboard.{QuoteVerifier}
use roshi.Feeds.Session.{OracleLeg, Clock, OracleReadSession, parse_leg, session_read}
use roshi.Accounts.{Platform, load_as_asset, find_asset_address}

-- How one endpoint is valued.
pub data LegPricing : Type 0 where
  base_pricing : LegPricing
  asset_pricing : (asset_decimals : ℕ) (routed : Bool) (oracle : OracleLeg) → LegPricing

pub record SwapValuation : Type 0 where
  pub input : LegPricing
  pub output : LegPricing
  pub base_leg : Option OracleLeg

unfoldable pub pricing_routed : LegPricing → Bool
pricing_routed base_pricing = false
pricing_routed (asset_pricing decimals is_routed oracle) = is_routed

module _ (p : Platform) where
  unfoldable pub parse_asset_pricing :
      Key → Key → List Account → ProgramResult (LegPricing × List Account)
  parse_asset_pricing vault_key mint [] = err not_enough_account_keys
  parse_asset_pricing vault_key mint (asset_account ∷ rest) = do
    let expected = find_asset_address p vault_key mint
    fail_if (not (bytes_eq asset_account.key expected.0)) (program_error unpriceable_swap_leg)
    asset ← map_err (λ _. program_error unpriceable_swap_leg) (load_as_asset p asset_account)
    is_routed ← routed asset
    (oracle, remaining) ← parse_leg asset.oracle rest
    ok (asset_pricing asset.asset_decimals is_routed oracle, remaining)

  unfoldable pub parse_pricing :
      Vault → Key → Key → List Account → ProgramResult (LegPricing × List Account)
  parse_pricing v vault_key mint accounts =
      if bytes_eq mint v.base_mint
      then ok (base_pricing, accounts)
      else parse_asset_pricing vault_key mint accounts

  -- The base leg, where an endpoint is routed.
  unfoldable pub parse_shared_leg :
      Vault → Bool → List Account → ProgramResult (Option OracleLeg × List Account)
  parse_shared_leg v false remaining = ok (none, remaining)
  parse_shared_leg v true remaining = do
    (leg, after_leg) ← parse_leg v.base_oracle remaining
    ok (some leg, after_leg)

  unfoldable pub parse_valuation :
      Vault → Key → Key → Key → List Account → ProgramResult (SwapValuation × List Account)
  parse_valuation v vault_key input_mint output_mint accounts = do
    (input, remaining) ← parse_pricing v vault_key input_mint accounts
    (output, remaining) ← parse_pricing v vault_key output_mint remaining
    (base_leg, remaining) ←
        parse_shared_leg v (pricing_routed input || pricing_routed output) remaining
    ok (record { input = input; output = output; base_leg = base_leg }, remaining)

-- The price of a routed endpoint's base, and one for the others.
unfoldable pub endpoint_base_price : Bool → Option OraclePrice → ProgramResult OraclePrice
endpoint_base_price false base_price = ok unit_price
endpoint_base_price true base_price = ok_or base_price invalid_account_data

unfoldable pub value_in_base_atoms :
    LegPricing → Vault → ℕ → Option OraclePrice → Option OraclePrice → ProgramResult ℕ
value_in_base_atoms base_pricing v amount asset_price base_price = ok amount
value_in_base_atoms (asset_pricing asset_decimals is_routed oracle) v amount asset_price
      base_price =
    do
      asset_price ← ok_or asset_price invalid_account_data
      base_price ← endpoint_base_price is_routed base_price
      lift
          (base_atoms_from_asset_atoms amount asset_price base_price asset_decimals v.base_decimals)

module _ {OracleQuote : Type 0} (verifier : QuoteVerifier OracleQuote) where
  unfoldable pub read_shared_leg :
      OracleReadSession
      → Option OracleLeg
      → Clock
      → ProgramResult (Option OraclePrice × OracleReadSession)
  read_shared_leg prices none clock = ok (none, prices)
  read_shared_leg prices (some leg) clock = do
    (price, prices) ← session_read verifier prices leg clock
    ok (some price, prices)

  unfoldable pub read_asset_price :
      OracleReadSession
      → LegPricing
      → Clock
      → ProgramResult (Option OraclePrice × OracleReadSession)
  read_asset_price prices base_pricing clock = ok (none, prices)
  read_asset_price prices (asset_pricing decimals is_routed oracle) clock = do
    (price, prices) ← session_read verifier prices oracle clock
    ok (some price, prices)

  unfoldable pub values : SwapValuation → Vault → ℕ → ℕ → Clock → ProgramResult (ℕ × ℕ)
  values s v spent received clock = do
    (base_price, prices) ← read_shared_leg [] s.base_leg clock
    (input_price, prices) ← read_asset_price prices s.input clock
    (output_price, prices) ← read_asset_price prices s.output clock
    spent_value ← value_in_base_atoms s.input v spent input_price base_price
    received_value ← value_in_base_atoms s.output v received output_price base_price
    ok (spent_value, received_value)

  unfoldable pub verify_swap_value :
      Vault → Option SwapValuation → ℕ → ℕ → Clock → ProgramResult (Unit {0})
  verify_swap_value v none spent received clock = ok tt
  verify_swap_value v (some s) spent received clock = do
    (spent_value, received_value) ← values s v spent received clock
    tolerated_bps ←
        ok_or (checked_sub bps_denominator v.controls.max_swap_slippage_bps)
          (program_error overflow)
    min_value ← lift (mul_div_ceil_u64 spent_value tolerated_bps bps_denominator)
    fail_if (ltb received_value min_value) (program_error slippage_exceeded)
