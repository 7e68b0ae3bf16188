-- ===== src/Admin/Custody.antt =====
-- admin/collect_fees.rs, invest_external.rs and return_external.rs: base assets that leave the
-- vault's custody and come back. The vault's account and the others are those of the instruction;
-- the result is the runtime's new state with the vault as it is stored.
pub mod Books
pub mod External
use roshi.Common.{ℕ, ◌+◌, Bool, not, ◌||◌, List, [], ◌∷◌, ltb, ◌==◌, if◌then◌else◌}
use roshi.Common.Result.{ok, err, ◌>>=◌, ◌>>◌, fail_if, ok_or}
use roshi.Common.Error.{
  program_error, zero_output, invalid_vault_state, invalid_token_account, overflow,
  external_disabled, invalid_seeds, external_destination_not_registered, missing_required_signature,
}
use roshi.Common.Word.{u64, checked_add, checked_sub}
use roshi.Common.Bytes.{Key, bytes_eq, length}
use roshi.Vault.{
  Vault, Role, ProgramResult, bool_flag, verify_idle_sub_account, verify_manage_enabled,
}
use roshi.Token.{
  Account, verify_token_account_mint, verify_token_account_mint_and_owner, verify_token_program_for,
}
use roshi.Runtime.{Runtime}
use roshi.NavReport.{verify_role}
use roshi.Withdrawals.{sub_account_signer_seeds}
use roshi.Accounts.{
  Platform, signer_of, require_writable, load_checked, verify_sub_account, find_destination_address,
  load_as_destination,
}
use roshi.Admin.{store}

pub record CollectAccounts : Type 0 where
  pub admin : Account
  pub vault_account : Account
  pub sub_account : Account
  pub custody : Account
  pub treasury : Account
  pub token_program : Account

pub record InvestAccounts : Type 0 where
  pub strategist : Account
  pub vault_account : Account
  pub sub_account : Account
  pub custody : Account
  pub external_account : Account
  pub registration : Account
  pub token_program : Account

pub record ReturnAccounts : Type 0 where
  pub strategist : Account
  pub external_authority : Account
  pub vault_account : Account
  pub sub_account : Account
  pub external_account : Account
  pub custody : Account
  pub token_program : Account

-- The vault and the runtime's state after an instruction.
pub record Moved (W : Type 0) : Type 0 where
  pub vault : Vault
  pub runtime : W

module _ {W : Type 0} (p : Platform) (r : Runtime W) where
  -- The custody account of a sub-account, and the bump of that.
  unfoldable pub verify_custody : Vault → Account → ℕ → Account → Account → ProgramResult ℕ
  verify_custody v vault_account index sub_account custody = do
    bump ← verify_sub_account p vault_account.key index sub_account
    require_writable custody
    verify_token_account_mint_and_owner custody v.base_mint sub_account.key
    ok bump

  unfoldable pub verify_treasury : Vault → Account → ProgramResult (Unit {0})
  verify_treasury v treasury = do
    require_writable treasury
    fail_if (not (bytes_eq treasury.key v.treasury)) (program_error invalid_token_account)
    verify_token_account_mint treasury v.base_mint

  unfoldable pub settle_fees : Vault → ℕ → ProgramResult Vault
  settle_fees v amount = do
    fees_payable ← ok_or (checked_sub v.fees_payable amount) (program_error overflow)
    store (record v { fees_payable = fees_payable })

  unfoldable pub try_collect_fees : W → CollectAccounts → ℕ → ℕ → ProgramResult (Moved W)
  try_collect_fees w a sub_account amount = do
    fail_if (amount == 0) (program_error zero_output)
    require_writable a.vault_account
    v ← load_checked p a.vault_account
    verify_role v Role.admin (signer_of a.admin)
    fail_if (ltb v.fees_payable amount) (program_error invalid_vault_state)
    verify_idle_sub_account v sub_account
    bump ← verify_custody v a.vault_account sub_account a.sub_account a.custody
    verify_treasury v a.treasury
    verify_token_program_for a.token_program a.custody
    verify_token_program_for a.token_program a.treasury
    w' ←
        r.transfer w a.custody.key a.treasury.key a.sub_account.key amount
          (sub_account_signer_seeds a.vault_account.key sub_account bump)
    v' ← settle_fees v amount
    ok (record { vault = v'; runtime = w' })

  -- Only the strategist of a vault that is not paused and has external assets enabled.
  unfoldable pub verify_external : Vault → Account → ProgramResult (Unit {0})
  verify_external v strategist = do
    verify_role v Role.strategist (signer_of strategist)
    verify_manage_enabled v
    enabled ← bool_flag v.external_enabled_flag
    fail_if (not enabled) (program_error external_disabled)

  unfoldable pub verify_registration : Account → Account → Account → ProgramResult (Unit {0})
  verify_registration vault_account external_account registration = do
    let expected = find_destination_address p vault_account.key external_account.key
    fail_if (not (bytes_eq registration.key expected.0)) invalid_seeds
    fail_if (length registration.bytes == 0) (program_error external_destination_not_registered)
    load_as_destination p registration
    ok tt

  unfoldable pub add_external : Vault → ℕ → ProgramResult Vault
  add_external v amount = do
    external_assets ← ok_or (checked_add u64 v.external_assets amount) (program_error overflow)
    store (record v { external_assets = external_assets })

  unfoldable pub try_invest_external : W → InvestAccounts → ℕ → ℕ → ProgramResult (Moved W)
  try_invest_external w a sub_account amount = do
    fail_if (amount == 0) (program_error zero_output)
    require_writable a.vault_account
    v ← load_checked p a.vault_account
    verify_external v a.strategist
    verify_idle_sub_account v sub_account
    bump ← verify_custody v a.vault_account sub_account a.sub_account a.custody
    require_writable a.external_account
    verify_token_account_mint a.external_account v.base_mint
    verify_registration a.vault_account a.external_account a.registration
    verify_token_program_for a.token_program a.custody
    verify_token_program_for a.token_program a.external_account
    w' ←
        r.transfer w a.custody.key a.external_account.key a.sub_account.key amount
          (sub_account_signer_seeds a.vault_account.key sub_account bump)
    v' ← add_external v amount
    ok (record { vault = v'; runtime = w' })

  unfoldable pub remove_external : Vault → ℕ → ProgramResult Vault
  remove_external v amount = do
    external_assets ← ok_or (checked_sub v.external_assets amount) (program_error overflow)
    store (record v { external_assets = external_assets })

  unfoldable pub try_return_external : W → ReturnAccounts → ℕ → ℕ → ProgramResult (Moved W)
  try_return_external w a sub_account amount = do
    fail_if (amount == 0) (program_error zero_output)
    fail_if (not a.external_authority.is_signer) missing_required_signature
    require_writable a.vault_account
    v ← load_checked p a.vault_account
    verify_external v a.strategist
    fail_if (ltb v.external_assets amount) (program_error invalid_vault_state)
    verify_idle_sub_account v sub_account
    verify_sub_account p a.vault_account.key sub_account a.sub_account
    require_writable a.external_account
    verify_token_account_mint_and_owner a.external_account v.base_mint a.external_authority.key
    require_writable a.custody
    verify_token_account_mint_and_owner a.custody v.base_mint a.sub_account.key
    verify_token_program_for a.token_program a.custody
    verify_token_program_for a.token_program a.external_account
    w' ← r.transfer w a.external_account.key a.custody.key a.external_authority.key amount []
    v' ← remove_external v amount
    ok (record { vault = v'; runtime = w' })
