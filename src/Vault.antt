-- ===== src/Vault.antt =====
-- crates/interface/src/state/vault.rs: the vault's state and its accounting. An operation on
-- `&mut self` returns the new vault, and on an error none: the handlers store nothing then.
pub mod Config
pub mod Unlock
pub mod Debit
pub mod Drip
pub mod Report
use mathlib.Core.Option
use roshi.Common.{
  ℕ, ◌+◌, ◌-◌, ◌*◌, Bool, true, false, not, ◌&&◌, ◌||◌, Option, ltb, leb, ◌==◌, if◌then◌else◌,
}
use roshi.Common.Result.{Result, ok, err, ◌>>=◌, ◌>>◌, fail_if, ok_or}
use roshi.Common.Error.{
  ProgramError, program_error, lift, invalid_vault_state, overflow, deposit_cap_exceeded,
  stale_nav_report, report_too_frequent, nav_gain_exceeds_bound, invalid_sub_account, vault_paused,
}
use roshi.Common.Word.{u64, u128, checked_add, checked_sub, checked_mul, wrapping_add}
use roshi.Common.Int.{
  ℤ, pos, ltb_ℤ, leb_ℤ, checked_add_i64, checked_sub_i64, saturating_sub_i64, try_to_u128, max_ℤ,
  min_ℤ,
}
use roshi.Common.Bytes.{Bytes, Key, bytes_eq}
use roshi.Math.{mul_div_floor, checked_u64, bps_denominator}
use roshi.Oracle.{OracleConfig}

abbrev pub ProgramResult : Type 0 → Type 0
ProgramResult A = Result ProgramError A

pub data Role : Type 0 where
  admin strategist swap_authority nav_authority withdrawal_authority : Role

-- `flag` and `bool_flag`: a boolean stored as a byte.
abbrev pub flag : Bool → ℕ
flag true = 1
flag false = 0

unfoldable pub bool_flag : ℕ → ProgramResult Bool
bool_flag byte =
    if byte == 0
    then ok false
    else if byte == 1
    then ok true
    else err (program_error invalid_vault_state)

pub record VaultControls : Type 0 where
  pub max_unlock_duration_secs : ℕ
  pub max_report_age_secs : ℕ
  pub min_report_interval_secs : ℕ
  pub cancel_grace_slots : ℕ
  pub max_nav_gain_bps : ℕ
  pub atomic_redeem_fee_bps : ℕ
  pub max_swap_slippage_bps : ℕ

pub record Vault : Type 0 where
  pub base_oracle : OracleConfig
  pub total_assets : ℕ
  pub deposit_cap : ℕ
  pub external_assets : ℕ
  pub pending_withdrawal_assets : ℕ
  pub fees_payable : ℕ
  pub high_watermark : ℕ
  pub report_epoch : ℕ
  pub requested_withdrawal_shares : ℕ
  pub last_update_ts : ℤ
  pub locked_profit : ℕ
  pub profit_unlock_start_ts : ℤ
  pub profit_unlock_end_ts : ℤ
  pub tag : Bytes
  pub admin : Key
  pub strategist : Key
  pub swap_authority : Key
  pub nav_authority : Key
  pub withdrawal_authority : Key
  pub base_mint : Key
  pub share_mint : Key
  pub treasury : Key
  pub last_report_hash : Key
  pub access_merkle_root : Key
  pub controls : VaultControls
  pub performance_fee_bps : ℕ
  pub withdrawal_buffer_bps : ℕ
  pub tag_len : ℕ
  pub base_decimals : ℕ
  pub deposit_sub_account : ℕ
  pub withdraw_sub_account : ℕ
  pub deposits_paused_flag : ℕ
  pub withdrawals_paused_flag : ℕ
  pub manage_paused_flag : ℕ
  pub private_flag : ℕ
  pub external_enabled_flag : ℕ
  pub bump : ℕ

unfoldable pub authority_for_role : Vault → Role → Key
authority_for_role v Role.admin = v.admin
authority_for_role v Role.strategist = v.strategist
authority_for_role v Role.swap_authority = v.swap_authority
authority_for_role v Role.nav_authority = v.nav_authority
authority_for_role v Role.withdrawal_authority = v.withdrawal_authority

unfoldable pub has_role : Vault → Role → Key → Bool
has_role v role signer = bytes_eq (authority_for_role v role) signer

unfoldable pub economic_share_supply : Vault → ℕ → ProgramResult ℕ
economic_share_supply v active_share_supply =
    ok_or (checked_add u64 active_share_supply v.requested_withdrawal_shares)
      (program_error overflow)

unfoldable pub total_assets_after_deposit : Vault → ℕ → ProgramResult ℕ
total_assets_after_deposit v base_atoms = do
  projected ← ok_or (checked_add u64 v.total_assets base_atoms) (program_error overflow)
  fail_if (not (v.deposit_cap == 0) && ltb v.deposit_cap projected)
      (program_error deposit_cap_exceeded)
  ok projected

-- `a.checked_sub(b).and_then(|span| u128::try_from(span).ok())`
unfoldable pub span_u128 : ℤ → ℤ → ProgramResult ℕ
span_u128 a b = ok_or (Option.bind (checked_sub_i64 a b) try_to_u128) (program_error overflow)

-- Strictly between the start and the end of the window.
unfoldable pub dripping_profit : Vault → ℤ → ProgramResult ℕ
dripping_profit v now = do
  window ← span_u128 v.profit_unlock_end_ts v.profit_unlock_start_ts
  left ← span_u128 v.profit_unlock_end_ts now
  remaining ← lift (mul_div_floor v.locked_profit left window)
  lift (checked_u64 remaining)

unfoldable pub remaining_locked_profit : Vault → ℤ → ProgramResult ℕ
remaining_locked_profit v now =
    if leb_ℤ v.profit_unlock_end_ts now
    then ok 0
    else if leb_ℤ now v.profit_unlock_start_ts
    then ok v.locked_profit
    else dripping_profit v now

unfoldable pub effective_total_assets : Vault → ℤ → ProgramResult ℕ
effective_total_assets v now = do
  remaining ← remaining_locked_profit v now
  ok_or (checked_sub v.total_assets remaining) (program_error invalid_vault_state)

unfoldable pub debit_assets_at_effective : Vault → ℕ → ℤ → ProgramResult Vault
debit_assets_at_effective v amount now = do
  remaining ← remaining_locked_profit v now
  effective ← ok_or (checked_sub v.total_assets remaining) (program_error invalid_vault_state)
  fail_if (ltb effective amount) (program_error invalid_vault_state)
  total_assets ← ok_or (checked_sub v.total_assets amount) (program_error overflow)
  let debited = record v { total_assets = total_assets; locked_profit = remaining }
  ok (if ltb 0 remaining then record debited { profit_unlock_start_ts = now } else debited)

-- The span over which a gain unlocks.
unfoldable pub unlock_window : Vault → ℤ → ℤ
unlock_window v now =
    min_ℤ (max_ℤ (saturating_sub_i64 now v.last_update_ts) (pos 0))
      (pos v.controls.max_unlock_duration_secs)

unfoldable pub is_zero : ℤ → Bool
is_zero z = leb_ℤ z (pos 0) && leb_ℤ (pos 0) z

unfoldable pub lock_gain : Vault → ℕ → ℕ → ℤ → ProgramResult Vault
lock_gain v net_total_assets prior_effective now = do
  gain ← ok_or (checked_sub net_total_assets prior_effective) (program_error overflow)
  end ← ok_or (checked_add_i64 now (unlock_window v now)) (program_error overflow)
  ok (record v {
    locked_profit = if is_zero (unlock_window v now) then 0 else gain;
    profit_unlock_start_ts = now;
    profit_unlock_end_ts = end;
    total_assets = net_total_assets;
  })

unfoldable pub apply_reported_nav : Vault → ℕ → ℤ → ProgramResult Vault
apply_reported_nav v net_total_assets now = do
  prior_effective ← effective_total_assets v now
  if ltb prior_effective net_total_assets
      then lock_gain v net_total_assets prior_effective now
      else ok (record v {
        locked_profit = 0;
        profit_unlock_start_ts = now;
        profit_unlock_end_ts = now;
        total_assets = net_total_assets;
      })

unfoldable pub verify_report_fresh : Vault → ℤ → ProgramResult (Unit {0})
verify_report_fresh v now =
    if v.report_epoch == 0 || v.controls.max_report_age_secs == 0
    then ok tt
    else fail_if
        (ltb_ℤ (pos v.controls.max_report_age_secs) (saturating_sub_i64 now v.last_update_ts))
        (program_error stale_nav_report)

unfoldable pub verify_report_interval : Vault → ℤ → ProgramResult (Unit {0})
verify_report_interval v now =
    if v.report_epoch == 0 || v.controls.min_report_interval_secs == 0
    then ok tt
    else fail_if
        (ltb_ℤ (saturating_sub_i64 now v.last_update_ts) (pos v.controls.min_report_interval_secs))
        (program_error report_too_frequent)

unfoldable pub nav_gain_check : Vault → ℕ → ProgramResult (Unit {0})
nav_gain_check v net_total_assets = do
  new_assets_scaled ←
      ok_or (checked_mul u128 net_total_assets bps_denominator) (program_error overflow)
  max_assets_scaled ←
      ok_or
        (checked_mul u128 v.total_assets
          (wrapping_add u128 bps_denominator v.controls.max_nav_gain_bps))
        (program_error overflow)
  fail_if (ltb max_assets_scaled new_assets_scaled) (program_error nav_gain_exceeds_bound)

unfoldable pub verify_nav_gain_bound : Vault → ℕ → ℕ → ProgramResult (Unit {0})
verify_nav_gain_bound v net_total_assets economic_share_supply =
    if v.controls.max_nav_gain_bps == 0 || economic_share_supply == 0
    then ok tt
    else nav_gain_check v net_total_assets

unfoldable pub verify_idle_sub_account : Vault → ℕ → ProgramResult (Unit {0})
verify_idle_sub_account v sub_account =
    if sub_account == v.deposit_sub_account || sub_account == v.withdraw_sub_account
    then ok tt
    else err (program_error invalid_sub_account)

unfoldable pub verify_manage_enabled : Vault → ProgramResult (Unit {0})
verify_manage_enabled v = do
  paused ← bool_flag v.manage_paused_flag
  fail_if paused (program_error vault_paused)
