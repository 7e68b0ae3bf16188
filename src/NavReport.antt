-- ===== src/NavReport.antt =====
-- crates/roshi/src/instructions/admin/report_nav.rs, with the role checks of state/vault.rs. The
-- vault comes loaded, and is returned as it is stored; the clock is an argument. The addresses that
-- the runtime derives for sub-accounts and their token accounts are parameters.
pub mod Books
use roshi.Common.{
  ℕ, ◌+◌, Bool, true, false, not, ◌||◌, Option, some, none, List, [], ◌∷◌, ltb, ◌==◌, if◌then◌else◌,
}
use roshi.Common.Result.{ok, err, ◌>>=◌, ◌>>◌, fail_if, ok_or}
use roshi.Common.Error.{
  program_error, lift, overflow, invalid_vault_state, invalid_mint_account, deposits_must_be_paused,
  invalid_account_data, invalid_seeds, missing_required_signature, illegal_owner,
}
use roshi.Common.Int.{ℤ}
use roshi.Common.Word.{u64, checked_add, checked_sub}
use roshi.Common.Bytes.{Key, bytes_eq, length, replicate}
use roshi.Math.{performance_fee_for_nav, share_price_from_assets}
use roshi.Vault.{
  Vault, Role, ProgramResult, has_role, bool_flag, economic_share_supply, apply_reported_nav,
  verify_report_interval, verify_nav_gain_bound,
}
use roshi.Vault.Config.{validate_state}
use roshi.Token.{Account, mint_supply, token_amount, verify_mint}

pub record Signer : Type 0 where
  pub key : Key
  pub is_signer : Bool

unfoldable pub verify_role : Vault → Role → Signer → ProgramResult (Unit {0})
verify_role v role signer = do
  fail_if (not signer.is_signer) missing_required_signature
  fail_if (not (has_role v role signer.key)) illegal_owner

unfoldable pub verify_share_mint : Vault → Account → ProgramResult (Unit {0})
verify_share_mint v a =
    fail_if (not (bytes_eq a.key v.share_mint)) (program_error invalid_mint_account)

pub data ReportKind : Type 0 where
  ordinary recovery : ReportKind

pub record NavReport : Type 0 where
  pub external_value : ℕ
  pub report_hash : Key

-- The accounts of a report, in the order of the instruction; the admin only signs a recovery.
pub record ReportAccounts : Type 0 where
  pub nav_authority : Signer
  pub admin : Signer
  pub vault_key : Key
  pub vault_is_writable : Bool
  pub share_mint : Account
  pub base_mint : Account
  pub deposit_custody : Account
  pub withdraw_custody : Account

unfoldable pub verify_admin : Vault → ReportKind → Signer → ProgramResult (Unit {0})
verify_admin v ordinary signer = ok tt
verify_admin v recovery signer = verify_role v Role.admin signer

-- A recovery needs paused deposits, shares, and a share price of zero.
unfoldable pub verify_recovery : Vault → ReportKind → ℕ → ProgramResult (Unit {0})
verify_recovery v ordinary supply = ok tt
verify_recovery v recovery supply = do
  paused ← bool_flag v.deposits_paused_flag
  fail_if (not paused) (program_error deposits_must_be_paused)
  fail_if (supply == 0) (program_error invalid_vault_state)
  price ← lift (share_price_from_assets v.total_assets supply)
  fail_if (not (price == 0)) (program_error invalid_vault_state)

unfoldable pub verify_gain : Vault → ReportKind → ℕ → ℕ → ProgramResult (Unit {0})
verify_gain v ordinary net supply = verify_nav_gain_bound v net supply
verify_gain v recovery net supply = ok tt

unfoldable pub custody_amount : Account → ProgramResult ℕ
custody_amount a = if length a.bytes == 0 then ok 0 else token_amount a

-- The fees, the watermark and the epoch of an accepted report, and then its assets.
unfoldable pub accept_report : Vault → Key → ℕ → ℕ → ℕ → ℤ → ProgramResult Vault
accept_report v report_hash fee_assets net_total_assets high_watermark now = do
  fees ← ok_or (checked_add u64 v.fees_payable fee_assets) (program_error overflow)
  epoch ← ok_or (checked_add u64 v.report_epoch 1) (program_error overflow)
  v' ←
      apply_reported_nav
        (record v {
          fees_payable = fees;
          high_watermark = high_watermark;
          report_epoch = epoch;
          last_report_hash = report_hash;
        })
        net_total_assets now
  let stored = record v' { last_update_ts = now }
  validate_state stored
  ok stored

-- The accounting of a report, from the idle assets on.
unfoldable pub account_report : Vault → ReportKind → NavReport → ℕ → ℕ → ℤ → ProgramResult Vault
account_report v kind report supply idle now = do
  gross ← ok_or (checked_add u64 idle report.external_value) (program_error overflow)
  after_fees ← ok_or (checked_sub gross v.fees_payable) (program_error invalid_vault_state)
  fee_base ←
      ok_or (checked_sub after_fees v.pending_withdrawal_assets) (program_error invalid_vault_state)
  fee ← lift (performance_fee_for_nav fee_base supply v.high_watermark v.performance_fee_bps)
  verify_gain v kind fee.1 supply
  accept_report v report.report_hash fee.0 fee.1 fee.2 now

module _ (sub_account_address : Key → ℕ → Key)
    (associated_token_address : Key → Key → Key → Key) where
  unfoldable pub expect_base_custody : Key → ℕ → Key → Key → Account → ProgramResult Key
  expect_base_custody vault_key index base_mint base_token_program custody = do
    let expected =
        associated_token_address (sub_account_address vault_key index) base_mint base_token_program
    fail_if (not (bytes_eq custody.key expected)) invalid_seeds
    ok expected

  -- The base assets of the two custody accounts, counted once where they are the same one.
  unfoldable pub idle_assets : Vault → ReportAccounts → ProgramResult ℕ
  idle_assets v a = do
    deposit_ata ←
        expect_base_custody a.vault_key v.deposit_sub_account v.base_mint a.base_mint.owner
          a.deposit_custody
    withdraw_ata ←
        expect_base_custody a.vault_key v.withdraw_sub_account v.base_mint a.base_mint.owner
          a.withdraw_custody
    deposited ← custody_amount a.deposit_custody
    if bytes_eq withdraw_ata deposit_ata then ok deposited else do
      withdrawn ← custody_amount a.withdraw_custody
      ok_or (checked_add u64 deposited withdrawn) (program_error overflow)

  unfoldable pub apply_nav_report :
      Vault → ReportAccounts → NavReport → ReportKind → ℤ → ProgramResult Vault
  apply_nav_report v a report kind now = do
    fail_if (not a.vault_is_writable) invalid_account_data
    verify_role v Role.nav_authority a.nav_authority
    verify_admin v kind a.admin
    verify_report_interval v now
    verify_share_mint v a.share_mint
    share_supply ← mint_supply a.share_mint
    supply ← economic_share_supply v share_supply
    verify_recovery v kind supply
    let empty_hash : Key = replicate 32 0
    fail_if (bytes_eq report.report_hash empty_hash) (program_error invalid_vault_state)
    verify_mint a.base_mint v.base_mint v.base_decimals none
    idle ← idle_assets v a
    account_report v kind report supply idle now
