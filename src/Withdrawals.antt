-- ===== src/Withdrawals.antt =====
-- crates/roshi/src/instructions/admin/process_withdrawals.rs: tickets are struck, paid and closed.
pub mod Payments
pub mod Conservation
use roshi.Common.{ℕ, ◌+◌, Bool, ◌||◌, List, [], ◌∷◌, ltb, ◌==◌, if◌then◌else◌}
use roshi.Common.Result.{ok, err, ◌>>=◌, ◌>>◌, fail_if, ok_or}
use roshi.Common.Error.{
  program_error, lift, overflow, invalid_vault_state, invalid_withdrawal_ticket_account,
}
use roshi.Common.Int.{ℤ}
use roshi.Common.Word.{u64, checked_add, checked_sub}
use roshi.Common.Bytes.{Bytes, Key}
use roshi.Math.{assets_for_shares}
use roshi.Vault.{
  Vault, ProgramResult, economic_share_supply, effective_total_assets, debit_assets_at_effective,
}
use roshi.Vault.Config.{validate_state}
use roshi.Token.{mint_supply}
use roshi.Runtime.{Runtime}
use roshi.Tickets.{State, WithdrawalTicket, close_account, withdrawal_strike_delay_epochs}

pub record TicketSettlement : Type 0 where
  pub ticket_account : Key
  pub owner : Key
  pub destination : Key
  pub ticket : WithdrawalTicket

pub record WithdrawalsContext : Type 0 where
  pub vault_account : Key
  pub sub_account : Key
  pub custody : Key
  pub share_mint : Key
  pub sub_account_bump : ℕ
  pub tickets : List TicketSettlement

-- The vault and the ticket after a strike.
pub record Struck : Type 0 where
  pub vault : Vault
  pub ticket : WithdrawalTicket

-- The updates of the books, once the ticket is priced.
unfoldable pub book_strike : Vault → WithdrawalTicket → ℕ → ℤ → ProgramResult Struck
book_strike v t assets_owed now = do
  requested ←
      ok_or (checked_sub v.requested_withdrawal_shares t.shares_burned) (program_error overflow)
  v' ←
      debit_assets_at_effective (record v { requested_withdrawal_shares = requested }) assets_owed
        now
  pending ←
      ok_or (checked_add u64 v'.pending_withdrawal_assets assets_owed) (program_error overflow)
  ok (record {
    vault = record v' { pending_withdrawal_assets = pending };
    ticket = record t { assets_owed = assets_owed };
  })

unfoldable pub strike_ticket : Vault → ℕ → WithdrawalTicket → ℤ → ProgramResult Struck
strike_ticket v active_share_supply t now = do
  earliest_epoch ←
      ok_or (checked_add u64 t.request_epoch withdrawal_strike_delay_epochs)
        (program_error overflow)
  fail_if (ltb v.report_epoch earliest_epoch || ltb v.report_epoch t.request_epoch)
      (program_error invalid_withdrawal_ticket_account)
  supply ← economic_share_supply v active_share_supply
  effective ← effective_total_assets v now
  assets_owed ← lift (assets_for_shares t.shares_burned effective supply v.base_decimals)
  book_strike v t assets_owed now

-- A ticket that owes something is struck already.
unfoldable pub strike_unpriced : Vault → ℕ → WithdrawalTicket → ℤ → ProgramResult Struck
strike_unpriced v share_supply t now =
    if t.assets_owed == 0
    then strike_ticket v share_supply t now
    else ok (record { vault = v; ticket = t })

-- The vault, the assets to pay and the settlements after the loop over the tickets.
pub record Settled : Type 0 where
  pub vault : Vault
  pub settled_assets : ℕ
  pub tickets : List TicketSettlement

unfoldable pub strike_all : Vault → ℕ → ℤ → ℕ → List TicketSettlement → ProgramResult Settled
strike_all v share_supply now settled_assets [] =
    ok (record { vault = v; settled_assets = settled_assets; tickets = [] })
strike_all v share_supply now settled_assets (s ∷ rest) = do
  struck ← strike_unpriced v share_supply s.ticket now
  total ← ok_or (checked_add u64 settled_assets struck.ticket.assets_owed) (program_error overflow)
  done ← strike_all struck.vault share_supply now total rest
  ok (record done { tickets = (record s { ticket = struck.ticket }) ∷ done.tickets })

-- `b"sub_account"`
abbrev pub sub_account_seed : Bytes
sub_account_seed = 115 ∷ 117 ∷ 98 ∷ 95 ∷ 97 ∷ 99 ∷ 99 ∷ 111 ∷ 117 ∷ 110 ∷ 116 ∷ []

abbrev pub sub_account_signer_seeds : Key → ℕ → ℕ → List Bytes
sub_account_signer_seeds vault_account index bump =
    sub_account_seed ∷ vault_account ∷ (index ∷ []) ∷ (bump ∷ []) ∷ []

module _ {W : Type 0} (r : Runtime W) where
  -- The loop that pays the tickets and closes their accounts.
  unfoldable pub pay_all :
      State W → WithdrawalsContext → List Bytes → List TicketSettlement → ProgramResult (State W)
  pay_all s c seeds [] = ok s
  pay_all s c seeds (t ∷ rest) = do
    w ← r.transfer s.runtime c.custody t.destination c.sub_account t.ticket.assets_owed seeds
    s' ← close_account r (record s { runtime = w }) t.ticket_account t.owner
    pay_all s' c seeds rest

  unfoldable pub process : State W → WithdrawalsContext → ℤ → ProgramResult (State W)
  process s c now = do
    share_supply ← mint_supply (r.account s.runtime c.share_mint)
    done ← strike_all s.vault share_supply now 0 c.tickets
    fail_if (ltb done.vault.pending_withdrawal_assets done.settled_assets)
        (program_error invalid_vault_state)
    s' ←
        pay_all s c
          (sub_account_signer_seeds c.vault_account done.vault.withdraw_sub_account
            c.sub_account_bump)
          done.tickets
    pending ←
        ok_or (checked_sub done.vault.pending_withdrawal_assets done.settled_assets)
          (program_error overflow)
    let v' = record done.vault { pending_withdrawal_assets = pending }
    validate_state v'
    ok (record s' { vault = v' })
