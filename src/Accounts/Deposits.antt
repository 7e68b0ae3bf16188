-- ===== src/Accounts/Deposits.antt =====
-- crates/roshi/src/instructions/accounts/deposit.rs: the accounts of a deposit, and its worth in
-- base atoms.
pub mod Worth
use roshi.Common.{
  ℕ, ◌+◌, Bool, true, false, not, ◌||◌, List, [], ◌∷◌, Option, none, some, ltb, if◌then◌else◌,
}
use roshi.Common.Result.{ok, err, ◌>>=◌, ◌>>◌, fail_if, ok_or}
use roshi.Common.Error.{
  program_error, lift, missing_required_signature, not_enough_account_keys, invalid_token_account,
  invalid_asset_account, overflow, deposit_cap_exceeded,
}
use roshi.Common.Word.{u64, checked_add}
use roshi.Common.Bytes.{Key, bytes_eq}
use roshi.Math.{OraclePrice, unit_price, base_atoms_from_asset_atoms}
use roshi.Vault.{Vault, ProgramResult}
use roshi.Token.{Account, token_amount, verify_token_program_for}
use roshi.NavReport.{verify_share_mint}
use roshi.Deposit.{DepositArgs, DepositContext}
use roshi.Records.{Asset, enabled, routed}
use roshi.Feeds.Switchboard.{QuoteVerifier}
use roshi.Feeds.Session.{OracleLeg, Clock, OracleReadSession, parse_leg, session_read}
use roshi.Accounts.{
  Platform, next_account, require_writable, require_token_program, load_checked, load_as_asset,
  find_sub_account_address, find_asset_address, associated_token_address,
}

pub record LoadedDeposit : Type 0 where
  pub depositor : Account
  pub vault_account : Account
  pub source : Account
  pub custody : Account
  pub share_dest : Account
  pub share_mint : Account
  pub asset_token_program : Account
  pub extra : List Account
  pub vault : Vault

-- The keys that the handler goes on with.
abbrev pub deposit_context : LoadedDeposit → DepositContext
deposit_context c = record {
  depositor = c.depositor.key;
  vault_account = c.vault_account.key;
  source = c.source.key;
  custody = c.custody.key;
  share_dest = c.share_dest.key;
  share_mint = c.share_mint.key;
}

module _ (p : Platform) where
  unfoldable pub load_deposit : List Account → ProgramResult LoadedDeposit
  load_deposit accounts = do
    (depositor, accounts) ← next_account accounts
    fail_if (not depositor.is_signer) missing_required_signature
    (vault_account, accounts) ← next_account accounts
    require_writable vault_account
    (source, accounts) ← next_account accounts
    require_writable source
    (custody, accounts) ← next_account accounts
    require_writable custody
    (share_dest, accounts) ← next_account accounts
    require_writable share_dest
    (share_mint, accounts) ← next_account accounts
    require_writable share_mint
    (share_token_program, accounts) ← next_account accounts
    require_token_program share_token_program
    (asset_token_program, extra) ← next_account accounts
    verify_token_program_for asset_token_program source
    verify_token_program_for asset_token_program custody
    vault ← load_checked p vault_account
    verify_share_mint vault share_mint
    ok (record {
      depositor = depositor;
      vault_account = vault_account;
      source = source;
      custody = custody;
      share_dest = share_dest;
      share_mint = share_mint;
      asset_token_program = asset_token_program;
      extra = extra;
      vault = vault;
    })

  -- The address and the state of the asset's account.
  unfoldable pub verify_asset :
      LoadedDeposit → DepositArgs → Account → Asset → ProgramResult (Unit {0})
  verify_asset c args asset_account asset = do
    let expected = find_asset_address p c.vault_account.key args.asset_mint
    fail_if
        (not (bytes_eq asset_account.key expected.0)
          || not (bytes_eq asset.vault c.vault_account.key))
        (program_error invalid_asset_account)
    is_enabled ← enabled asset
    fail_if (not is_enabled) (program_error invalid_asset_account)

  -- The cap on what the custody account holds of the asset.
  unfoldable pub verify_inventory : LoadedDeposit → DepositArgs → Asset → ProgramResult (Unit {0})
  verify_inventory c args asset = do
    custody_balance ← token_amount c.custody
    projected ← ok_or (checked_add u64 custody_balance args.amount) (program_error overflow)
    fail_if (ltb asset.deposit_cap_atoms projected) (program_error deposit_cap_exceeded)

  module _ {OracleQuote : Type 0} (verifier : QuoteVerifier OracleQuote) where
    -- The leg of the base price: the vault's oracle for a routed asset, and none for a direct one.
    unfoldable pub parse_base_leg : Vault → Bool → List Account → ProgramResult (Option OracleLeg)
    parse_base_leg v false remaining = ok none
    parse_base_leg v true remaining = do
      (leg, rest) ← parse_leg v.base_oracle remaining
      ok (some leg)

    unfoldable pub read_base_price :
        OracleReadSession → Option OracleLeg → Clock → ProgramResult OraclePrice
    read_base_price session none clock = ok unit_price
    read_base_price session (some leg) clock = do
      (price, after) ← session_read verifier session leg clock
      ok price

    -- The pricing of an asset, from its oracle accounts on.
    unfoldable pub price_asset :
        LoadedDeposit → DepositArgs → Asset → List Account → Clock → ProgramResult ℕ
    price_asset c args asset oracle_accounts clock = do
      (asset_leg, remaining) ← parse_leg asset.oracle oracle_accounts
      is_routed ← routed asset
      base_leg ← parse_base_leg c.vault is_routed remaining
      (asset_price, session) ← session_read verifier [] asset_leg clock
      base_price ← read_base_price session base_leg clock
      lift (
          base_atoms_from_asset_atoms args.amount asset_price base_price asset.asset_decimals
            c.vault.base_decimals)

    unfoldable pub resolve_asset_atoms :
        LoadedDeposit → DepositArgs → List Account → Clock → ProgramResult ℕ
    resolve_asset_atoms c args [] clock = err not_enough_account_keys
    resolve_asset_atoms c args (asset_account ∷ oracle_accounts) clock = do
      asset ← load_as_asset p asset_account
      verify_asset c args asset_account asset
      verify_inventory c args asset
      price_asset c args asset oracle_accounts clock

    unfoldable pub resolve_base_atoms : LoadedDeposit → DepositArgs → Clock → ProgramResult ℕ
    resolve_base_atoms c args clock = do
      let sub_account = find_sub_account_address p c.vault_account.key c.vault.deposit_sub_account
      fail_if
          (not (
            bytes_eq c.custody.key
              (associated_token_address p sub_account.0 args.asset_mint c.asset_token_program.key)))
          (program_error invalid_token_account)
      if bytes_eq args.asset_mint c.vault.base_mint
          then ok args.amount
          else resolve_asset_atoms c args c.extra clock
