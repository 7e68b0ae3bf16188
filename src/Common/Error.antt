-- ===== src/Common/Error.antt =====
-- crates/interface/src/error.rs: the program's error codes, and Solana's `ProgramError` as far as
-- the program returns it.
use Prim.Native.Nat.{ℕ}
use mathlib.Core.Path.{◌≡◌}
use roshi.Common.Result.{Result, ok, err, map_err}

pub data RoshiError : Type 0 where
  invalid_op : RoshiError
  instruction_slice_out_of_bounds : RoshiError
  account_index_out_of_bounds : RoshiError
  invalid_bps : RoshiError
  vault_paused : RoshiError
  unauthorized_action : RoshiError
  invalid_program_config_account : RoshiError
  invalid_vault_account : RoshiError
  invalid_action_account : RoshiError
  invalid_withdrawal_ticket_account : RoshiError
  invalid_asset_account : RoshiError
  invalid_access_proof : RoshiError
  invalid_vault_tag : RoshiError
  division_by_zero : RoshiError
  invalid_decimals : RoshiError
  invalid_vault_state : RoshiError
  overflow : RoshiError
  result_does_not_fit : RoshiError
  zero_output : RoshiError
  slippage_exceeded : RoshiError
  invalid_token_account : RoshiError
  invalid_mint_account : RoshiError
  external_disabled : RoshiError
  withdrawal_exceeds_entitlement : RoshiError
  insufficient_shares : RoshiError
  invalid_sub_account : RoshiError
  invalid_external_destination_account : RoshiError
  invalid_write_down_amount : RoshiError
  stale_nav_report : RoshiError
  nav_gain_exceeds_bound : RoshiError
  report_too_frequent : RoshiError
  deposit_cap_exceeded : RoshiError
  external_destination_not_registered : RoshiError
  unpriceable_swap_leg : RoshiError
  missing_instructions_sysvar : RoshiError
  required_sibling_missing : RoshiError
  flash_delegate_unbounded : RoshiError
  flash_delegate_mismatch : RoshiError
  flash_destination_mismatch : RoshiError
  siblings_require_top_level : RoshiError
  delegate_not_cleared : RoshiError
  flash_fee_rate_not_lower : RoshiError
  swap_custody_moved : RoshiError
  empty_atomic_redeem_ops : RoshiError
  unbound_atomic_redeem_account : RoshiError
  zero_share_price : RoshiError
  deposits_must_be_paused : RoshiError
  empty_deploy_ops : RoshiError
  unbound_deploy_account : RoshiError
  deploy_amount_mismatch : RoshiError

-- `error as u32`
abbrev pub code : RoshiError → ℕ
code invalid_op = 0
code instruction_slice_out_of_bounds = 1
code account_index_out_of_bounds = 2
code invalid_bps = 3
code vault_paused = 4
code unauthorized_action = 5
code invalid_program_config_account = 6
code invalid_vault_account = 7
code invalid_action_account = 8
code invalid_withdrawal_ticket_account = 9
code invalid_asset_account = 10
code invalid_access_proof = 11
code invalid_vault_tag = 12
code division_by_zero = 13
code invalid_decimals = 14
code invalid_vault_state = 15
code overflow = 16
code result_does_not_fit = 17
code zero_output = 18
code slippage_exceeded = 19
code invalid_token_account = 20
code invalid_mint_account = 21
code external_disabled = 22
code withdrawal_exceeds_entitlement = 23
code insufficient_shares = 24
code invalid_sub_account = 25
code invalid_external_destination_account = 26
code invalid_write_down_amount = 27
code stale_nav_report = 28
code nav_gain_exceeds_bound = 29
code report_too_frequent = 30
code deposit_cap_exceeded = 31
code external_destination_not_registered = 32
code unpriceable_swap_leg = 33
code missing_instructions_sysvar = 34
code required_sibling_missing = 35
code flash_delegate_unbounded = 36
code flash_delegate_mismatch = 37
code flash_destination_mismatch = 38
code siblings_require_top_level = 39
code delegate_not_cleared = 40
code flash_fee_rate_not_lower = 41
code swap_custody_moved = 42
code empty_atomic_redeem_ops = 43
code unbound_atomic_redeem_account = 44
code zero_share_price = 45
code deposits_must_be_paused = 46
code empty_deploy_ops = 47
code unbound_deploy_account = 48
code deploy_amount_mismatch = 49

-- `Custom` carries a `RoshiError` as its code; the rest are the variants that the program returns.
pub data ProgramError : Type 0 where
  custom : ℕ → ProgramError
  invalid_argument : ProgramError
  invalid_seeds : ProgramError
  invalid_account_data : ProgramError
  illegal_owner : ProgramError
  missing_required_signature : ProgramError
  incorrect_program_id : ProgramError
  arithmetic_overflow : ProgramError
  not_enough_account_keys : ProgramError
  account_already_initialized : ProgramError
  invalid_instruction_data : ProgramError

-- `impl From<RoshiError> for ProgramError`
abbrev pub program_error : RoshiError → ProgramError
program_error e = custom (code e)

-- The conversion that `?` makes where a `RoshiError` is returned as a `ProgramError`.
abbrev pub lift {ℓ} : {A : Type ℓ} → Result RoshiError A → Result ProgramError A
lift r = map_err program_error r

pub lift_ok {ℓ} : {A : Type ℓ} (r : Result RoshiError A) {a : A} → lift r ≡ ok a → r ≡ ok a
lift_ok (ok b) {a} h = cc
lift_ok (err e) {a} h = cc
