-- ===== src/Records.antt =====
-- crates/roshi/src/state and crates/interface/src/state/asset.rs: the accounts that the program
-- stores, other than the vault and the tickets.
use roshi.Common.{ℕ, Bool, true, false, ◌==◌, if◌then◌else◌}
use roshi.Common.Result.{ok, err, ◌>>◌, map_err}
use roshi.Common.Error.{program_error, invalid_asset_account}
use roshi.Common.Bytes.{Key}
use roshi.Oracle.{OracleConfig, validate}
use roshi.Vault.{Vault, ProgramResult, flag}
use roshi.Action.Hash.{Ops}
use roshi.Tickets.{WithdrawalTicket}

pub record Asset : Type 0 where
  pub vault : Key
  pub asset_mint : Key
  pub oracle : OracleConfig
  pub deposit_cap_atoms : ℕ
  pub asset_decimals : ℕ
  pub enabled_flag : ℕ
  pub routed_flag : ℕ
  pub bump : ℕ

-- The `bool_flag` of assets, with its own error.
unfoldable pub asset_flag : ℕ → ProgramResult Bool
asset_flag byte =
    if byte == 0
    then ok false
    else if byte == 1
    then ok true
    else err (program_error invalid_asset_account)

unfoldable pub enabled : Asset → ProgramResult Bool
enabled a = asset_flag a.enabled_flag

unfoldable pub routed : Asset → ProgramResult Bool
routed a = asset_flag a.routed_flag

unfoldable pub validate_asset : Asset → ProgramResult (Unit {0})
validate_asset a = do
  map_err (λ _. program_error invalid_asset_account) (validate a.oracle)
  asset_flag a.enabled_flag
  asset_flag a.routed_flag
  ok tt

-- The arguments of `Asset::new`.
pub record NewAsset : Type 0 where
  pub vault : Key
  pub asset_mint : Key
  pub oracle : OracleConfig
  pub asset_decimals : ℕ
  pub enabled : Bool
  pub routed : Bool
  pub deposit_cap_atoms : ℕ
  pub bump : ℕ

unfoldable pub new_asset : NewAsset → ProgramResult Asset
new_asset a = do
  map_err (λ _. program_error invalid_asset_account) (validate a.oracle)
  ok (record {
    vault = a.vault;
    asset_mint = a.asset_mint;
    oracle = a.oracle;
    deposit_cap_atoms = a.deposit_cap_atoms;
    asset_decimals = a.asset_decimals;
    enabled_flag = flag a.enabled;
    routed_flag = flag a.routed;
    bump = a.bump;
  })

pub data ActionScope : Type 0 where
  manager swap atomic_redeem flash_approve deploy : ActionScope

pub record Action : Type 0 where
  pub vault : Key
  pub action_hash : Key
  pub ops : Ops
  pub fee_num : ℕ
  pub fee_den : ℕ
  pub scope : ActionScope
  pub amount_offset : ℕ
  pub bump : ℕ

pub record ExternalDestination : Type 0 where
  pub vault : Key
  pub token_account : Key
  pub bump : ℕ

pub record ProgramConfig : Type 0 where
  pub authority : Key

-- The enum `Account`.
pub data StoredAccount : Type 0 where
  stored_vault : Vault → StoredAccount
  stored_action : Action → StoredAccount
  stored_ticket : WithdrawalTicket → StoredAccount
  stored_asset : Asset → StoredAccount
  stored_destination : ExternalDestination → StoredAccount
  stored_config : ProgramConfig → StoredAccount
