-- ===== src/System/Tickets.antt =====
-- What each handler does to the list of open tickets and to the counter of their shares.
use roshi.Common.{ℕ, ◌+◌, ◌≡◌, refl, sym, ap, ◌∙◌, subst, not, List, [], ◌∷◌, ltb, ◌==◌}
use roshi.Common.Result.{ok, >>=-eq-ok, ok_inj, fail_if, ok_or}
use roshi.Common.Error.{
  program_error, lift, overflow, vault_paused, zero_output, invalid_vault_state, slippage_exceeded,
  arithmetic_overflow, invalid_access_proof,
}
use roshi.Common.Int.{ℤ}
use roshi.Common.Word.{u64, checked_add, checked_sub, ok_or-checked_add, ok_or-checked_sub}
use roshi.Common.Bytes.{Bytes, Key, length}
use roshi.Math.{assets_for_redeem}
use roshi.Vault.{
  Vault, ProgramResult, bool_flag, total_assets_after_deposit, economic_share_supply,
  effective_total_assets,
}
use roshi.Vault.Config.{tag_seed, validate_state}
use roshi.Token.{mint_supply}
use roshi.Runtime.{Runtime}
use roshi.Tickets.{
  State, WithdrawalTicket, create_ticket, close_account, remove_ticket, ticket_space,
}
use roshi.Redeem.{
  Clock, RedeemContext, RedeemArgs, CancelContext, requested_ticket, verify_cancellable, try_redeem,
  try_cancel_redeem, vault_signer_seeds,
}
use roshi.Access.{allows_depositor, max_access_proof_len}
use roshi.Deposit.{DepositContext, DepositArgs, price_deposit, execute_deposit, try_deposit}
use roshi.Withdrawals.{
  TicketSettlement, WithdrawalsContext, Settled, strike_unpriced, strike_all, pay_all, process,
  sub_account_signer_seeds,
}
use roshi.System.Remaining.{remove_all}

-- How a handler leaves the counter of requested shares and the tickets.
pub record Counted {W : Type 0} (s s' : State W) (requested : ℕ)
    (tickets : List (Key × WithdrawalTicket)) : Type 0 where
  pub counter : s'.vault.requested_withdrawal_shares ≡ requested
  pub list : s'.tickets ≡ tickets

module _ {W : Type 0} (r : Runtime W) where
  closed :
      (s : State W) (key refund_to : Key) {s' : State W}
      → close_account r s key refund_to ≡ ok s'
      → s'.tickets ≡ remove_ticket key s.tickets
  unfolding close_account
  closed s key refund_to {s'} h =
      let (balance, _, h) =
        >>=-eq-ok
          (ok_or (checked_add u64 (r.lamports s.runtime refund_to) (r.lamports s.runtime key))
            arithmetic_overflow)
          _ h in
      let (w, _, made) =
        >>=-eq-ok
          (r.release (r.set_lamports (r.set_lamports s.runtime refund_to balance) key 0) key) _ h in
      sym (ap (λ (x : State W). x.tickets) (ok_inj _ s' made))

  created :
      (s : State W) (payer key : Key) (t : WithdrawalTicket) {s' : State W}
      → create_ticket r s payer key t ≡ ok s'
      → s'.tickets ≡ (key, t) ∷ s.tickets
  unfolding create_ticket
  created s payer key t {s'} h =
      let (w, _, made) = >>=-eq-ok (r.create_account s.runtime payer key ticket_space) _ h in
      sym (ap (λ (x : State W). x.tickets) (ok_inj _ s' made))

  pub try_redeem-Counted :
      (s : State W) (c : RedeemContext) (args : RedeemArgs) (clock : Clock) {s' : State W}
      → try_redeem r s c args clock ≡ ok s'
      → Counted s s'
          (s.vault.requested_withdrawal_shares + args.shares)
          ((c.ticket, requested_ticket c args s.vault clock) ∷ s.tickets)
  unfolding try_redeem
  try_redeem-Counted s c args clock {s'} h =
      let (paused, _, h) = >>=-eq-ok (bool_flag s.vault.withdrawals_paused_flag) _ h in
      let (_, _, h) = >>=-eq-ok (fail_if paused (program_error vault_paused)) _ h in
      let (_, _, h) = >>=-eq-ok (fail_if (args.shares == 0) (program_error zero_output)) _ h in
      let (supply, _, h) = >>=-eq-ok (mint_supply (r.account s.runtime c.share_mint)) _ h in
      let (_, _, h) =
        >>=-eq-ok (fail_if (ltb supply args.shares) (program_error invalid_vault_state)) _ h in
      let (economic, _, h) = >>=-eq-ok (economic_share_supply s.vault supply) _ h in
      let (effective, _, h) = >>=-eq-ok (effective_total_assets s.vault clock.unix_timestamp) _ h in
      let (_, _, h) =
        >>=-eq-ok (lift (assets_for_redeem args.shares effective economic s.vault.base_decimals)) _
          h in
      let (w, _, h) =
        >>=-eq-ok (r.burn s.runtime c.share_source c.share_mint c.owner args.shares) _ h in
      let (t, made, h) =
        >>=-eq-ok
          (create_ticket r (record s { runtime = w }) c.owner c.ticket
            (requested_ticket c args s.vault clock))
          _ h in
      let (n, sum, done) =
        >>=-eq-ok
          (ok_or (checked_add u64 s.vault.requested_withdrawal_shares args.shares)
            (program_error overflow))
          _ h in
      let list = created (record s { runtime = w }) c.owner c.ticket _ made in
      let grown = (ok_or-checked_add u64 s.vault.requested_withdrawal_shares args.shares _ sum).0 in
      let result : State W = record t {
        vault = record s.vault { requested_withdrawal_shares = n };
      } in
      subst
        (λ (x : State W).
          Counted s x (s.vault.requested_withdrawal_shares + args.shares)
            ((c.ticket, requested_ticket c args s.vault clock) ∷ s.tickets))
        (ok_inj result s' done) (record { counter = grown; list = list })

  pub try_cancel_redeem-Counted :
      (s : State W) (c : CancelContext) (min_shares_out : ℕ) (clock : Clock) {s' : State W}
      → try_cancel_redeem r s c min_shares_out clock ≡ ok s'
      → (n : ℕ) × (n + c.ticket.shares_burned ≡ s.vault.requested_withdrawal_shares)
        × Counted s s' n (remove_ticket c.ticket_account s.tickets)
  unfolding try_cancel_redeem
  try_cancel_redeem-Counted s c min_shares_out clock {s'} h =
      let shares = c.ticket.shares_burned in
      let (_, _, h) = >>=-eq-ok (verify_cancellable s.vault c.ticket clock.slot) _ h in
      let (_, _, h) =
        >>=-eq-ok (fail_if (ltb shares min_shares_out) (program_error slippage_exceeded)) _ h in
      let (tag, _, h) = >>=-eq-ok (tag_seed s.vault) _ h in
      let (w, _, h) =
        >>=-eq-ok
          (r.mint_to s.runtime c.share_mint c.share_dest c.vault_account shares
            (vault_signer_seeds s.vault tag))
          _ h in
      let (t, gone, h) =
        >>=-eq-ok (close_account r (record s { runtime = w }) c.ticket_account c.owner) _ h in
      let (n, left, done) =
        >>=-eq-ok
          (ok_or (checked_sub s.vault.requested_withdrawal_shares shares) (program_error overflow))
          _ h in
      let list = closed (record s { runtime = w }) c.ticket_account c.owner gone in
      let result : State W = record t {
        vault = record s.vault { requested_withdrawal_shares = n };
      } in
      (
        n,
        ok_or-checked_sub u64 s.vault.requested_withdrawal_shares shares _ left,
        subst (λ (x : State W). Counted s x n (remove_ticket c.ticket_account s.tickets))
            (ok_inj result s' done) (record { counter = refl; list = list }),
      )

  -- The loop of payments removes the tickets one by one.
  paid :
      (s : State W) (c : WithdrawalsContext) (seeds : List Bytes) (due : List TicketSettlement)
      {s' : State W}
      → pay_all r s c seeds due ≡ ok s'
      → s'.tickets ≡ remove_all due s.tickets
  unfolding pay_all remove_all
  paid s c seeds [] {s'} h = sym (ap (λ (x : State W). x.tickets) (ok_inj s s' h))
  paid s c seeds (d ∷ due) {s'} h =
      let (w, _, h) =
        >>=-eq-ok
          (r.transfer s.runtime c.custody d.destination c.sub_account d.ticket.assets_owed seeds) _
          h in
      let (t, gone, h) =
        >>=-eq-ok (close_account r (record s { runtime = w }) d.ticket_account d.owner) _ h in
      paid t c seeds due h
      ∙ ap (remove_all due) (closed (record s { runtime = w }) d.ticket_account d.owner gone)

  -- A strike keeps the account of the ticket.
  struck_accounts :
      (v : Vault) (supply : ℕ) (now : ℤ) (settled : ℕ) (due : List TicketSettlement) {d : Settled}
      (ts : List (Key × WithdrawalTicket))
      → strike_all v supply now settled due ≡ ok d
      → remove_all d.tickets ts ≡ remove_all due ts
  unfolding strike_all remove_all
  struck_accounts v supply now settled [] {d} ts h =
      ap (λ (x : Settled). remove_all x.tickets ts) (sym (ok_inj _ d h))
  struck_accounts v supply now settled (t ∷ due) {d} ts h =
      let (struck, _, h) = >>=-eq-ok (strike_unpriced v supply t.ticket now) _ h in
      let (total, _, h) =
        >>=-eq-ok
          (ok_or (checked_add u64 settled struck.ticket.assets_owed) (program_error overflow)) _
          h in
      let (done, later, made) = >>=-eq-ok (strike_all struck.vault supply now total due) _ h in
      ap (λ (x : Settled). remove_all x.tickets ts) (sym (ok_inj _ d made))
      ∙ struck_accounts struck.vault supply now total due (remove_ticket t.ticket_account ts) later

  pub process-tickets :
      (s : State W) (c : WithdrawalsContext) (now : ℤ) {s' : State W}
      → process r s c now ≡ ok s'
      → s'.tickets ≡ remove_all c.tickets s.tickets
  unfolding process
  process-tickets s c now {s'} h =
      let (supply, _, h) = >>=-eq-ok (mint_supply (r.account s.runtime c.share_mint)) _ h in
      let (d, struck, h) = >>=-eq-ok (strike_all s.vault supply now 0 c.tickets) _ h in
      let (_, _, h) =
        >>=-eq-ok
          (fail_if (ltb d.vault.pending_withdrawal_assets d.settled_assets)
            (program_error invalid_vault_state))
          _ h in
      let (t, pays, h) =
        >>=-eq-ok
          (pay_all r s c
            (sub_account_signer_seeds c.vault_account d.vault.withdraw_sub_account
              c.sub_account_bump)
            d.tickets)
          _ h in
      let (pending, _, h) =
        >>=-eq-ok
          (ok_or (checked_sub d.vault.pending_withdrawal_assets d.settled_assets)
            (program_error overflow))
          _ h in
      let (_, _, made) =
        >>=-eq-ok (validate_state (record d.vault { pending_withdrawal_assets = pending })) _ h in
      sym (ap (λ (x : State W). x.tickets) (ok_inj _ s' made))
      ∙ paid s c _ d.tickets pays
      ∙ struck_accounts s.vault supply now 0 c.tickets s.tickets struck

  pub try_deposit-Counted :
      (hashv : List Bytes → Key) (s : State W) (c : DepositContext) (args : DepositArgs)
      (worth : ProgramResult ℕ) (now : ℤ) {s' : State W}
      → try_deposit r hashv s c args worth now ≡ ok s'
      → Counted s s' s.vault.requested_withdrawal_shares s.tickets
  unfolding try_deposit execute_deposit
  try_deposit-Counted hashv s c args worth now {s'} h =
      let (_, _, h) =
        >>=-eq-ok
          (fail_if (ltb max_access_proof_len (length args.access_proof))
            (program_error invalid_access_proof))
          _ h in
      let (paused, _, h) = >>=-eq-ok (bool_flag s.vault.deposits_paused_flag) _ h in
      let (_, _, h) = >>=-eq-ok (fail_if paused (program_error vault_paused)) _ h in
      let (_, _, h) =
        >>=-eq-ok
          (fail_if (not (allows_depositor hashv s.vault c.depositor args.access_proof))
            (program_error invalid_access_proof))
          _ h in
      let (b, _, h) = >>=-eq-ok worth _ h in
      let (total, _, h) = >>=-eq-ok (total_assets_after_deposit s.vault b) _ h in
      let (supply, _, h) = >>=-eq-ok (mint_supply (r.account s.runtime c.share_mint)) _ h in
      let (shares, _, h) = >>=-eq-ok (price_deposit s.vault b supply args.min_shares_out now) _ h in
      let (w, _, h) =
        >>=-eq-ok (r.transfer s.runtime c.source c.custody c.depositor args.amount []) _ h in
      let (tag, _, h) = >>=-eq-ok (tag_seed s.vault) _ h in
      let (w', _, made) =
        >>=-eq-ok
          (r.mint_to w c.share_mint c.share_dest c.vault_account shares
            (vault_signer_seeds s.vault tag))
          _ h in
      let result : State W = record s {
        runtime = w';
        vault = record s.vault { total_assets = total };
      } in
      subst (λ (x : State W). Counted s x s.vault.requested_withdrawal_shares s.tickets)
        (ok_inj result s' made) (record { counter = refl; list = refl })
