-- ===== src/Examples/Administration.antt =====
-- The administrative handlers, at concrete accounts.
use roshi.Common.{ℕ, ◌≡◌, refl, true, false}
use roshi.Common.Result.{ok}
use roshi.Common.Bytes.{bytes_eq, to_le_bytes, from_le_bytes}
use roshi.Math.{validate_percentage_bps}
use roshi.Oracle.{active, active_of_kind, config_kind, validate, validate_active}
use roshi.Vault.{Vault, bool_flag, has_role, authority_for_role, verify_idle_sub_account}
use roshi.Vault.Config.{
  validate_state, validate_config, validate_controls, validate_oracle, validate_flags, validate_tag,
  unpack_tag, tag_seed,
}
use roshi.Token.{
  token_program_id, is_token_program, verify_token_account_mint,
  verify_token_account_mint_and_owner, verify_token_program, verify_token_program_for,
}
use roshi.NavReport.{verify_role}
use roshi.Records.{Action}
use roshi.Accounts.{
  load, load_as_vault, load_as_action, find_vault_address, find_sub_account_address,
  find_action_address, verify_vault_address, load_checked, load_vault_with_role, verify_sub_account,
  verify_for_vault, require_writable,
}
use roshi.Admin.{
  AdminAccounts, load_writable, store, update_writable_vault_as_admin, set_deposits_paused,
  set_withdrawals_paused, set_manage_paused, try_set_pause_flags, set_pause_flags, try_administer,
}
use roshi.Admin.Scope.{IsAdministered, try_administer-IsAdministered}
use roshi.Admin.Custody.{
  CollectAccounts, Moved, verify_custody, verify_treasury, settle_fees, try_collect_fees,
}
use roshi.Admin.Custody.Books.{IsCollected, try_collect_fees-IsCollected}
use roshi.Admin.Flash.{
  rate_strictly_lower, update_action_flash_fee, try_strategist_lower_flash_fee_rate, IsLowered,
  try_strategist_lower_flash_fee_rate-IsLowered,
}
use roshi.Examples.{vault, key}
use roshi.Examples.Prices.{plain_account}
use roshi.Examples.Ledger.{ledger, moved, ledger-BalanceLaws}
use roshi.Examples.Payments.{funds}
use roshi.Common.Bytes.{Key}
use roshi.Token.{token_amount}
use roshi.Examples.Contexts.{action, platform, program_account, token_account, signer}

abbrev admin_accounts : AdminAccounts
admin_accounts = record {
  admin = record { key = key 1; is_signer = true };
  vault_is_writable = true;
}

abbrev paused : Vault
paused = record vault { deposits_paused_flag = 1; manage_paused_flag = 1 }

pause_succeeds :
    try_administer vault admin_accounts (
      set_pause_flags
        (record { deposits_paused = true; withdrawals_paused = false; manage_paused = true }))
    ≡ ok paused
unfolding try_administer try_set_pause_flags update_writable_vault_as_admin load_writable store
    verify_role has_role authority_for_role bytes_eq set_deposits_paused set_withdrawals_paused
    set_manage_paused validate_state validate_config validate_controls validate_oracle
    validate_flags validate_tag unpack_tag validate active config_kind active_of_kind
    validate_active validate_percentage_bps bool_flag
pause_succeeds = refl

try_administer-IsAdministered_example : IsAdministered vault admin_accounts paused
try_administer-IsAdministered_example =
    try_administer-IsAdministered vault admin_accounts
      (set_pause_flags
        (record { deposits_paused = true; withdrawals_paused = false; manage_paused = true }))
      pause_succeeds

abbrev collect_accounts : CollectAccounts
collect_accounts = record {
  admin = signer (key 1);
  vault_account = program_account 1;
  sub_account = plain_account (key 1);
  custody = token_account (key 83) (key 6) (key 1) 1000;
  treasury = token_account (key 8) (key 6) (key 84) 0;
  token_program = plain_account token_program_id;
}

abbrev collected : Moved (Key → ℕ)
collected = record {
  vault = record vault { fees_payable = 2 };
  runtime = moved funds (key 83) (key 8) 5;
}

collect_succeeds : try_collect_fees platform ledger funds collect_accounts 10 5 ≡ ok collected
unfolding try_collect_fees require_writable load_checked load_as_vault load verify_vault_address
    tag_seed find_vault_address verify_role has_role authority_for_role bytes_eq
    verify_idle_sub_account verify_custody verify_sub_account find_sub_account_address
    verify_token_account_mint_and_owner verify_token_account_mint is_token_program verify_treasury
    verify_token_program_for verify_token_program settle_fees store validate_state validate_config
    validate_controls validate_oracle validate_flags validate_tag unpack_tag validate active
    config_kind active_of_kind validate_active validate_percentage_bps bool_flag to_le_bytes
    from_le_bytes
collect_succeeds = refl

treasury_balance : token_amount (ledger.account funds (key 8)) ≡ ok 1000000
unfolding token_amount is_token_program bytes_eq from_le_bytes to_le_bytes
treasury_balance = refl

try_collect_fees-IsCollected_example :
    IsCollected platform ledger funds collect_accounts 10 5 (key 8) 1000000 collected
try_collect_fees-IsCollected_example =
    try_collect_fees-IsCollected platform ledger ledger-BalanceLaws funds collect_accounts 10 5
      (key 8) 1000000 treasury_balance collect_succeeds

abbrev lowered : Action
lowered = record action { fee_den = 100000 }

lower_succeeds :
    try_strategist_lower_flash_fee_rate platform
      (signer (key 2))
      (program_account 1)
      (program_account 2)
      1
      100000
    ≡ ok lowered
unfolding try_strategist_lower_flash_fee_rate update_action_flash_fee require_writable
    load_vault_with_role load_checked load_as_vault load_as_action load verify_vault_address
    tag_seed find_vault_address verify_for_vault find_action_address verify_role has_role
    authority_for_role bytes_eq rate_strictly_lower validate_state validate_config validate_controls
    validate_oracle validate_flags validate_tag unpack_tag validate active config_kind
    active_of_kind validate_active validate_percentage_bps bool_flag
lower_succeeds = refl

try_strategist_lower_flash_fee_rate-IsLowered_example :
    IsLowered platform (signer (key 2)) (program_account 1) (program_account 2) lowered
try_strategist_lower_flash_fee_rate-IsLowered_example =
    try_strategist_lower_flash_fee_rate-IsLowered platform (signer (key 2)) (program_account 1)
      (program_account 2) 1 100000 lower_succeeds
