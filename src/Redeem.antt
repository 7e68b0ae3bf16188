-- ===== src/Redeem.antt =====
-- crates/roshi/src/instructions/user/redeem.rs and cancel_redeem.rs: a request to redeem shares,
-- which burns them into a withdrawal ticket, and its cancellation. The accounts come loaded and
-- checked in a context; the clock is an argument.
pub mod Supply
use roshi.Common.{
  ℕ, ◌+◌, Bool, true, false, not, ◌&&◌, ◌||◌, Option, List, [], ◌∷◌, ltb, leb, ◌==◌, if◌then◌else◌,
}
use roshi.Common.Result.{ok, err, ◌>>=◌, ◌>>◌, fail_if, ok_or}
use roshi.Common.Error.{
  program_error, lift, overflow, vault_paused, zero_output, invalid_vault_state,
  invalid_withdrawal_ticket_account, slippage_exceeded,
}
use roshi.Common.Int.{ℤ}
use roshi.Common.Word.{u64, checked_add, checked_sub}
use roshi.Common.Bytes.{Bytes, Key}
use roshi.Math.{assets_for_redeem}
use roshi.Vault.{Vault, ProgramResult, bool_flag, economic_share_supply, effective_total_assets}
use roshi.Vault.Config.{tag_seed}
use roshi.Token.{mint_supply}
use roshi.Runtime.{Runtime}
use roshi.Tickets.{
  State, WithdrawalTicket, create_ticket, close_account, redeem_cancel_delay_slots,
  withdrawal_strike_delay_epochs,
}

pub record Clock : Type 0 where
  pub unix_timestamp : ℤ
  pub slot : ℕ

pub record RedeemContext : Type 0 where
  pub owner : Key
  pub vault_account : Key
  pub share_source : Key
  pub share_mint : Key
  pub recipient_token_account : Key
  pub ticket : Key
  pub ticket_bump : ℕ

pub record RedeemArgs : Type 0 where
  pub recipient_token_account : Key
  pub shares : ℕ
  pub ticket_index : ℕ

pub record CancelContext : Type 0 where
  pub owner : Key
  pub vault_account : Key
  pub ticket_account : Key
  pub share_mint : Key
  pub share_dest : Key
  pub ticket : WithdrawalTicket

-- `b"vault"`
abbrev pub vault_seed : Bytes
vault_seed = 118 ∷ 97 ∷ 117 ∷ 108 ∷ 116 ∷ []

abbrev pub vault_signer_seeds : Vault → Bytes → List Bytes
vault_signer_seeds v tag = vault_seed ∷ tag ∷ v.base_mint ∷ (v.bump ∷ []) ∷ []

-- The ticket of a request, not yet struck.
abbrev pub requested_ticket : RedeemContext → RedeemArgs → Vault → Clock → WithdrawalTicket
requested_ticket c args v clock = record {
  vault = c.vault_account;
  owner = c.owner;
  recipient_token_account = c.recipient_token_account;
  shares_burned = args.shares;
  assets_owed = 0;
  request_epoch = v.report_epoch;
  request_slot = clock.slot;
  ticket_index = args.ticket_index;
  bump = c.ticket_bump;
}

-- Whether a ticket may be cancelled: it is not yet struck, the slot delay is over, and either no
-- report makes it eligible for a strike or the grace, where one is set, is over too.
unfoldable pub grace_elapsed : Vault → WithdrawalTicket → ℕ → ProgramResult Bool
grace_elapsed v t slot = if v.controls.cancel_grace_slots == 0 then ok false else do
  end ←
      ok_or (checked_add u64 t.request_slot v.controls.cancel_grace_slots) (program_error overflow)
  ok (leb end slot)

unfoldable pub verify_cancellable : Vault → WithdrawalTicket → ℕ → ProgramResult (Unit {0})
verify_cancellable v t slot = do
  fail_if (not (t.assets_owed == 0)) (program_error invalid_withdrawal_ticket_account)
  earliest_strike_epoch ←
      ok_or (checked_add u64 t.request_epoch withdrawal_strike_delay_epochs)
        (program_error overflow)
  cancel_slot ←
      ok_or (checked_add u64 t.request_slot redeem_cancel_delay_slots) (program_error overflow)
  elapsed ← grace_elapsed v t slot
  fail_if ((leb earliest_strike_epoch v.report_epoch && not elapsed) || ltb slot cancel_slot)
      (program_error invalid_withdrawal_ticket_account)

module _ {W : Type 0} (r : Runtime W) where
  unfoldable pub try_redeem : State W → RedeemContext → RedeemArgs → Clock → ProgramResult (State W)
  try_redeem s c args clock = do
    paused ← bool_flag s.vault.withdrawals_paused_flag
    fail_if paused (program_error vault_paused)
    fail_if (args.shares == 0) (program_error zero_output)
    share_supply ← mint_supply (r.account s.runtime c.share_mint)
    fail_if (ltb share_supply args.shares) (program_error invalid_vault_state)
    supply ← economic_share_supply s.vault share_supply
    effective ← effective_total_assets s.vault clock.unix_timestamp
    worth ← lift (assets_for_redeem args.shares effective supply s.vault.base_decimals)
    w ← r.burn s.runtime c.share_source c.share_mint c.owner args.shares
    s' ←
        create_ticket r (record s { runtime = w }) c.owner c.ticket
          (requested_ticket c args s.vault clock)
    requested ←
        ok_or (checked_add u64 s.vault.requested_withdrawal_shares args.shares)
          (program_error overflow)
    ok (record s' { vault = record s.vault { requested_withdrawal_shares = requested } })

  unfoldable pub try_cancel_redeem : State W → CancelContext → ℕ → Clock → ProgramResult (State W)
  try_cancel_redeem s c min_shares_out clock = do
    verify_cancellable s.vault c.ticket clock.slot
    fail_if (ltb c.ticket.shares_burned min_shares_out) (program_error slippage_exceeded)
    tag ← tag_seed s.vault
    w ←
        r.mint_to s.runtime c.share_mint c.share_dest c.vault_account c.ticket.shares_burned
          (vault_signer_seeds s.vault tag)
    s' ← close_account r (record s { runtime = w }) c.ticket_account c.owner
    requested ←
        ok_or (checked_sub s.vault.requested_withdrawal_shares c.ticket.shares_burned)
          (program_error overflow)
    ok (record s' { vault = record s.vault { requested_withdrawal_shares = requested } })
