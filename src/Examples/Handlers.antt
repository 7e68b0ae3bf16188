-- ===== src/Examples/Handlers.antt =====
-- The theorems on the handlers, at concrete states.
use mathlib.Core.Option
use roshi.Common.{ℕ, ◌≤◌, ◌≡◌, refl, arith, List, [], ◌∷◌, true, false, some}
use roshi.Common.Result.{ok, err}
use roshi.Common.Int.{pos, ◌+ℤ◌, ◌-ℤ◌, checked_add_i64, checked_sub_i64, saturating_sub_i64}
use roshi.Common.Bytes.{Bytes, Key, length, bytes_eq, from_le_bytes, to_le_bytes}
use roshi.Math.{
  mul_div_floor, mul_div_ceil, checked_u64, validate_percentage_bps, pow10, assets_for_shares,
  assets_for_redeem, virtual_share_offset, shares_for_deposit, checked_nonzero_u64,
  share_price_from_assets, performance_fee_for_nav, priced_fee, charged_fee, bps_floor,
  mul_div_floor_u64,
}
use roshi.Oracle.{validate, active, config_kind, active_of_kind, validate_active}
use roshi.Vault.{
  Vault, bool_flag, has_role, authority_for_role, economic_share_supply, total_assets_after_deposit,
  span_u128, dripping_profit, remaining_locked_profit, effective_total_assets, ProgramResult,
  unlock_window, is_zero, lock_gain, apply_reported_nav, verify_report_interval, nav_gain_check,
  verify_nav_gain_bound,
}
use roshi.Vault.Config.{
  validate_state, validate_config, validate_controls, validate_oracle, validate_flags, validate_tag,
  unpack_tag, tag_seed,
}
use roshi.Access.{allows_depositor, max_access_proof_len}
use roshi.Token.{
  mint_supply, is_token_program, token_amount, verify_mint, verify_mint_layout,
  verify_mint_authority,
}
use roshi.Tickets.{State, WithdrawalTicket, find_ticket, create_ticket, close_account}
use roshi.Redeem.{
  Clock, RedeemContext, RedeemArgs, CancelContext, try_redeem, try_cancel_redeem, grace_elapsed,
  verify_cancellable,
}
use roshi.Redeem.Supply.{
  IsBacked, KeepsSupply, ticket_shares, try_redeem-KeepsSupply, try_cancel_redeem-KeepsSupply,
}
use roshi.Deposit.{
  DepositArgs, DepositContext, verify_share_price, price_deposit, execute_deposit, try_deposit,
}
use roshi.Deposit.Books.{Deposited, try_deposit_lem}
use roshi.NavReport.{
  ordinary, NavReport, ReportAccounts, verify_role, verify_share_mint, verify_admin,
  verify_recovery, verify_gain, custody_amount, accept_report, account_report, expect_base_custody,
  idle_assets, apply_nav_report,
}
use roshi.NavReport.Books.{Accepted, apply_nav_report_lem}
use roshi.Examples.{vault, key, mint_account, custody, one_mint, one_mint-TokenLaws}

abbrev pub clock : Clock
clock = record { unix_timestamp = pos 1500; slot = 1000 }

-- A ticket for all the requested shares, from an earlier epoch.
abbrev pub ticket : WithdrawalTicket
ticket = record {
  vault = key 20;
  owner = key 21;
  recipient_token_account = key 22;
  shares_burned = 100000;
  assets_owed = 0;
  request_epoch = 4;
  request_slot = 700;
  ticket_index = 0;
  bump = 250;
}

abbrev pub state : State ℕ
state = record { vault = vault; tickets = (key 23, ticket) ∷ []; runtime = 1000000000 }

pub state-IsBacked : IsBacked state
unfolding IsBacked ticket_shares
state-IsBacked = refl

abbrev pub redeem_context : RedeemContext
redeem_context = record {
  owner = key 24;
  vault_account = key 20;
  share_source = key 25;
  share_mint = key 7;
  recipient_token_account = key 26;
  ticket = key 27;
  ticket_bump = 249;
}

abbrev pub redeem_args : RedeemArgs
redeem_args = record { recipient_token_account = key 26; shares = 50000; ticket_index = 0 }

-- What a handler gives, or the state before it.
abbrev pub result_or : ProgramResult (State ℕ) → State ℕ
result_or (ok s) = s
result_or (err e) = state

abbrev pub redeemed : State ℕ
redeemed = result_or (try_redeem one_mint state redeem_context redeem_args clock)

pub redeem_succeeds : try_redeem one_mint state redeem_context redeem_args clock ≡ ok redeemed
unfolding try_redeem create_ticket bool_flag mint_supply is_token_program bytes_eq
    economic_share_supply effective_total_assets remaining_locked_profit dripping_profit span_u128
    Option.bind checked_sub_i64 ◌-ℤ◌ mul_div_floor checked_u64 assets_for_redeem assets_for_shares
    virtual_share_offset pow10 from_le_bytes to_le_bytes
redeem_succeeds = refl

try_redeem-KeepsSupply_example : KeepsSupply one_mint (key 7) state redeemed
try_redeem-KeepsSupply_example =
    try_redeem-KeepsSupply one_mint (key 7) (one_mint-TokenLaws (key 7)) state redeem_context
      redeem_args clock refl state-IsBacked redeem_succeeds

-- A ticket of the current epoch, which no report can strike yet.
abbrev fresh_ticket : WithdrawalTicket
fresh_ticket = record ticket { request_epoch = 5 }

abbrev fresh_state : State ℕ
fresh_state = record state { tickets = (key 23, fresh_ticket) ∷ [] }

fresh_state-IsBacked : IsBacked fresh_state
unfolding IsBacked ticket_shares
fresh_state-IsBacked = refl

abbrev cancel_context : CancelContext
cancel_context = record {
  owner = key 21;
  vault_account = key 20;
  ticket_account = key 23;
  share_mint = key 7;
  share_dest = key 28;
  ticket = fresh_ticket;
}

abbrev cancelled : State ℕ
cancelled = result_or (try_cancel_redeem one_mint fresh_state cancel_context 0 clock)

cancel_succeeds : try_cancel_redeem one_mint fresh_state cancel_context 0 clock ≡ ok cancelled
unfolding try_cancel_redeem verify_cancellable grace_elapsed tag_seed unpack_tag validate_tag
    close_account
cancel_succeeds = refl

supply_read : mint_supply (one_mint.account fresh_state.runtime (key 7)) ≡ ok 1000000000
unfolding mint_supply is_token_program bytes_eq from_le_bytes to_le_bytes
supply_read = refl

held : find_ticket (key 23) fresh_state.tickets ≡ some fresh_ticket
unfolding bytes_eq
held = refl

try_cancel_redeem-KeepsSupply_example : KeepsSupply one_mint (key 7) fresh_state cancelled
try_cancel_redeem-KeepsSupply_example =
    try_cancel_redeem-KeepsSupply one_mint (key 7) (one_mint-TokenLaws (key 7)) fresh_state
      cancel_context 0 1000000000 clock refl held supply_read fresh_state-IsBacked cancel_succeeds

abbrev deposit_context : DepositContext
deposit_context = record {
  depositor = key 31;
  vault_account = key 20;
  source = key 32;
  custody = key 33;
  share_dest = key 34;
  share_mint = key 7;
}

abbrev deposit_args : DepositArgs
deposit_args = record { asset_mint = key 6; amount = 1000; min_shares_out = 1; access_proof = [] }

-- A stand-in for a hash.
abbrev first_slice : List Bytes → Key
first_slice [] = []
first_slice (x ∷ xs) = x

abbrev resolved : ProgramResult ℕ
resolved = ok 1000

abbrev deposited : State ℕ
deposited =
    result_or
      (try_deposit one_mint first_slice state deposit_context deposit_args resolved (pos 1500))

deposit_succeeds :
    try_deposit one_mint first_slice state deposit_context deposit_args resolved (pos 1500)
    ≡ ok deposited
unfolding try_deposit execute_deposit price_deposit verify_share_price total_assets_after_deposit
    allows_depositor share_price_from_assets shares_for_deposit checked_nonzero_u64 tag_seed
    unpack_tag validate_tag mint_supply is_token_program bytes_eq economic_share_supply
    effective_total_assets remaining_locked_profit dripping_profit span_u128 Option.bind
    checked_sub_i64 ◌-ℤ◌ mul_div_floor checked_u64 virtual_share_offset pow10 from_le_bytes
    to_le_bytes bool_flag
deposit_succeeds = refl

try_deposit_lem_example :
    (length deposit_args.access_proof ≤ max_access_proof_len)
    × (bool_flag state.vault.deposits_paused_flag ≡ ok false)
    × (allows_depositor first_slice state.vault deposit_context.depositor deposit_args.access_proof
        ≡ true)
    × ((b : ℕ) × (resolved ≡ ok b)
        × Deposited one_mint state deposit_context deposit_args (pos 1500) b deposited)
try_deposit_lem_example =
    try_deposit_lem one_mint first_slice state deposit_context deposit_args resolved (pos 1500)
      (one_mint-TokenLaws (key 7)) deposit_succeeds

-- Stand-ins for the derivation of addresses.
abbrev sub_account : Key → ℕ → Key
sub_account wallet index = key index

abbrev token_account : Key → Key → Key → Key
token_account wallet mint program = wallet

abbrev report_accounts : ReportAccounts
report_accounts = record {
  nav_authority = record { key = key 4; is_signer = true };
  admin = record { key = key 1; is_signer = false };
  vault_key = key 20;
  vault_is_writable = true;
  share_mint = mint_account (key 7) 1000000000 9;
  base_mint = mint_account (key 6) 5000000 6;
  deposit_custody = custody (key 10) 200000;
  withdraw_custody = custody (key 11) 100000;
}

abbrev report : NavReport
report = record { external_value = 760000; report_hash = key 40 }

abbrev vault_or : ProgramResult Vault → Vault
vault_or (ok v) = v
vault_or (err e) = vault

abbrev reported : Vault
reported =
    vault_or
      (apply_nav_report sub_account token_account vault report_accounts report ordinary (pos 1600))

report_succeeds :
    apply_nav_report sub_account token_account vault report_accounts report ordinary (pos 1600)
    ≡ ok reported
unfolding apply_nav_report verify_role has_role authority_for_role verify_admin
    verify_report_interval saturating_sub_i64 verify_share_mint mint_supply is_token_program
    bytes_eq from_le_bytes to_le_bytes economic_share_supply verify_recovery verify_mint
    verify_mint_layout verify_mint_authority idle_assets expect_base_custody custody_amount
    token_amount account_report performance_fee_for_nav validate_percentage_bps priced_fee
    charged_fee share_price_from_assets pow10 mul_div_floor mul_div_ceil checked_u64 bps_floor
    mul_div_floor_u64 verify_gain verify_nav_gain_bound nav_gain_check accept_report
    apply_reported_nav lock_gain unlock_window is_zero checked_add_i64 ◌+ℤ◌ effective_total_assets
    remaining_locked_profit dripping_profit span_u128 Option.bind checked_sub_i64 ◌-ℤ◌
    validate_state validate_config validate_controls validate_oracle validate_flags validate_tag
    unpack_tag validate active config_kind active_of_kind validate_active bool_flag
report_succeeds = refl

apply_nav_report_lem_example :
    Accepted sub_account token_account vault reported report_accounts report ordinary (pos 1600)
apply_nav_report_lem_example =
    apply_nav_report_lem sub_account token_account vault report_accounts report ordinary (pos 1600)
      (omega arith) report_succeeds
