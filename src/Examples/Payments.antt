-- ===== src/Examples/Payments.antt =====
-- The processing of a ticket, over a token program that keeps balances.
use mathlib.Core.Option
use roshi.Common.{ℕ, ◌+◌, ◌≡◌, refl, [], ◌∷◌}
use roshi.Common.Result.{ok, err}
use roshi.Common.Int.{pos, ◌-ℤ◌, checked_sub_i64}
use roshi.Common.Bytes.{Key, bytes_eq, from_le_bytes, to_le_bytes}
use roshi.Math.{
  mul_div_floor, checked_u64, validate_percentage_bps, pow10, assets_for_shares,
  virtual_share_offset,
}
use roshi.Oracle.{validate, active, config_kind, active_of_kind, validate_active}
use roshi.Vault.{
  bool_flag, economic_share_supply, span_u128, dripping_profit, remaining_locked_profit,
  effective_total_assets, debit_assets_at_effective, ProgramResult,
}
use roshi.Vault.Config.{
  validate_state, validate_config, validate_controls, validate_oracle, validate_flags, validate_tag,
  unpack_tag,
}
use roshi.Token.{mint_supply, is_token_program, token_amount}
use roshi.Tickets.{State, close_account}
use roshi.Withdrawals.{
  TicketSettlement, WithdrawalsContext, Settled, book_strike, strike_ticket, strike_unpriced,
  strike_all, pay_all, process,
}
use roshi.Examples.{vault, key}
use roshi.Examples.Handlers.{ticket}
use roshi.Examples.Ledger.{ledger, ledger-BalanceLaws}
use roshi.Withdrawals.Conservation.{unstruck_shares, process_conserves}
use roshi.Withdrawals.Payments.{owed, due_to}
use roshi.Runtime.Balances.{at_account, Balanced}
use roshi.Token.{token_amount}

abbrev settlement : TicketSettlement
settlement = record {
  ticket_account = key 23;
  owner = key 21;
  destination = key 22;
  ticket = ticket;
}

abbrev withdrawals_context : WithdrawalsContext
withdrawals_context = record {
  vault_account = key 20;
  sub_account = key 29;
  custody = key 30;
  share_mint = key 7;
  sub_account_bump = 251;
  tickets = settlement ∷ [];
}

-- Every token account has a million.
abbrev pub funds : Key → ℕ
funds k = 1000000

abbrev funded : State (Key → ℕ)
funded = record { vault = vault; tickets = (key 23, ticket) ∷ []; runtime = funds }

abbrev result_or : ProgramResult (State (Key → ℕ)) → State (Key → ℕ)
result_or (ok s) = s
result_or (err e) = funded

abbrev processed : State (Key → ℕ)
processed = result_or (process ledger funded withdrawals_context (pos 1500))

process_succeeds : process ledger funded withdrawals_context (pos 1500) ≡ ok processed
unfolding process strike_all strike_unpriced strike_ticket book_strike pay_all close_account
    debit_assets_at_effective mint_supply is_token_program bytes_eq economic_share_supply
    effective_total_assets remaining_locked_profit dripping_profit span_u128 Option.bind
    checked_sub_i64 ◌-ℤ◌ mul_div_floor checked_u64 assets_for_shares virtual_share_offset pow10
    from_le_bytes to_le_bytes validate_state validate_config validate_controls validate_oracle
    validate_flags validate_tag unpack_tag validate_percentage_bps validate active config_kind
    active_of_kind validate_active bool_flag
process_succeeds = refl

custody_balance : token_amount (ledger.account funded.runtime (key 30)) ≡ ok 1000000
unfolding token_amount is_token_program bytes_eq from_le_bytes to_le_bytes
custody_balance = refl

process_conserves_example :
    (d : Settled) × (supply : ℕ) × (strike_all funded.vault supply
        (pos 1500)
        0
        withdrawals_context.tickets
      ≡ ok d)
    × (mint_supply (ledger.account funded.runtime withdrawals_context.share_mint) ≡ ok supply)
    × (processed.vault.total_assets + processed.vault.pending_withdrawal_assets + owed d.tickets
        ≡ funded.vault.total_assets + funded.vault.pending_withdrawal_assets)
    × (processed.vault.requested_withdrawal_shares + unstruck_shares withdrawals_context.tickets
        ≡ funded.vault.requested_withdrawal_shares)
    × Balanced ledger processed.runtime
        (key 30)
        1000000
        (at_account (key 30) (key 30) (owed d.tickets))
        (due_to (key 30) d.tickets)
process_conserves_example =
    process_conserves ledger ledger-BalanceLaws funded withdrawals_context (pos 1500) (key 30)
      1000000 custody_balance process_succeeds
