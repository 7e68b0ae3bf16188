-- ===== src/Withdrawals/Conservation.antt =====
-- process_withdrawals.rs: what striking and paying tickets does to the vault's books.
use roshi.Common.{
  ℕ, ◌+◌, ◌≤◌, ◌≡◌, arith, Bool-cases, subst, refl, inl, inr, List, [], ◌∷◌, ltb, ◌==◌, ◌||◌,
  if◌then◌else◌,
}
use roshi.Common.Result.{ok, ok_inj, >>=-eq-ok, fail_if, ok_or}
use roshi.Common.Error.{
  program_error, lift, overflow, invalid_vault_state, invalid_withdrawal_ticket_account,
}
use roshi.Common.Int.{ℤ}
use roshi.Common.Word.{u64, checked_add, checked_sub, ok_or-checked_sub}
use roshi.Math.{assets_for_shares}
use roshi.Vault.{
  Vault, economic_share_supply, effective_total_assets, debit_assets_at_effective,
  remaining_locked_profit,
}
use roshi.Vault.Config.{validate_state}
use roshi.Token.{mint_supply, token_amount}
use roshi.Runtime.{Runtime, BalanceLaws}
use roshi.Runtime.Balances.{at_account, Balanced}
use roshi.Common.Bytes.{Bytes, Key}
use roshi.Withdrawals.Payments.{owed, due_to, pay_all-Balanced}
use roshi.Tickets.{State, WithdrawalTicket, withdrawal_strike_delay_epochs}
use roshi.Withdrawals.{
  TicketSettlement, WithdrawalsContext, Struck, Settled, book_strike, strike_ticket,
  strike_unpriced, strike_all, pay_all, process, sub_account_signer_seeds,
}

-- The shares of the settlements that are not yet struck.
unfoldable pub unstruck_shares : List TicketSettlement → ℕ
unstruck_shares [] = 0
unstruck_shares (s ∷ rest) =
    (if s.ticket.assets_owed == 0 then s.ticket.shares_burned else 0) + unstruck_shares rest

-- A debit takes the amount off the total assets, and leaves the rest of the books alone.
pub debit_books :
    (v : Vault) (amount : ℕ) (now : ℤ) {v' : Vault}
    → debit_assets_at_effective v amount now ≡ ok v'
    → (v'.total_assets + amount ≡ v.total_assets)
      × (v'.pending_withdrawal_assets ≡ v.pending_withdrawal_assets)
      × (v'.requested_withdrawal_shares ≡ v.requested_withdrawal_shares)
unfolding debit_assets_at_effective
debit_books v amount now {v'} h =
    let (remaining, _, h) = >>=-eq-ok (remaining_locked_profit v now) _ h in ground (arith, h)

-- The books before and after some strikes: `shares` leave the requested ones, and what leaves the
-- total assets is pending.
record Books (v v' : Vault) (shares : ℕ) : Type 0 where
  conserved :
      v'.total_assets + v'.pending_withdrawal_assets ≡ v.total_assets + v.pending_withdrawal_assets
  requested : v'.requested_withdrawal_shares + shares ≡ v.requested_withdrawal_shares
  pending : v.pending_withdrawal_assets ≤ v'.pending_withdrawal_assets

book_strike-Books :
    (v : Vault) (t : WithdrawalTicket) (amount : ℕ) (now : ℤ) {s : Struck}
    → book_strike v t amount now ≡ ok s
    → Books v s.vault t.shares_burned
unfolding book_strike
book_strike-Books v t amount now {s} h =
    let (requested, left, h) =
      >>=-eq-ok
        (ok_or (checked_sub v.requested_withdrawal_shares t.shares_burned) (program_error overflow))
        _ h in
    let (v', debit, h) =
      >>=-eq-ok
        (debit_assets_at_effective (record v { requested_withdrawal_shares = requested }) amount
          now)
        _ h in
    let (total, pending, same) =
      debit_books (record v { requested_withdrawal_shares = requested }) amount now debit in
    let (sum, added, made) =
      >>=-eq-ok
        (ok_or (checked_add u64 v'.pending_withdrawal_assets amount) (program_error overflow)) _
        h in
    let struck : Struck = record {
      vault = record v' { pending_withdrawal_assets = sum };
      ticket = record t { assets_owed = amount };
    } in
    subst (λ x. Books v x.vault t.shares_burned) (ok_inj struck s made)
      (record {
        conserved = ground (arith, added, total, pending);
        requested = ground (arith, left, same);
        pending = ground (arith, added, pending);
      })

strike-Books :
    (v : Vault) (supply : ℕ) (t : WithdrawalTicket) (now : ℤ) {s : Struck}
    → strike_ticket v supply t now ≡ ok s
    → Books v s.vault t.shares_burned
unfolding strike_ticket
strike-Books v supply t now {s} h =
    let (earliest, _, h) =
      >>=-eq-ok
        (ok_or (checked_add u64 t.request_epoch withdrawal_strike_delay_epochs)
          (program_error overflow))
        _ h in
    let (_, _, h) =
      >>=-eq-ok
        (fail_if (ltb v.report_epoch earliest || ltb v.report_epoch t.request_epoch)
          (program_error invalid_withdrawal_ticket_account))
        _ h in
    let (supply', _, h) = >>=-eq-ok (economic_share_supply v supply) _ h in
    let (effective, _, h) = >>=-eq-ok (effective_total_assets v now) _ h in
    let (amount, _, h) =
      >>=-eq-ok (lift (assets_for_shares t.shares_burned effective supply' v.base_decimals)) _ h in
    book_strike-Books v t amount now h

unpriced-Books :
    (v : Vault) (supply : ℕ) (t : WithdrawalTicket) (now : ℤ) {s : Struck}
    → strike_unpriced v supply t now ≡ ok s
    → Books v s.vault (if t.assets_owed == 0 then t.shares_burned else 0)
unfolding strike_unpriced
unpriced-Books v supply t now {s} h = elim (Bool-cases (t.assets_owed == 0)) [
  | inl due ↦ rw due (strike-Books v supply t now (rw due at h))
  | inr struck ↦
      let made : ok (record { vault = v; ticket = t }) ≡ ok s = rw struck at h in
      rw struck (
        subst (λ x. Books v x.vault 0) (ok_inj _ _ made)
          (record { conserved = omega arith; requested = omega arith; pending = omega arith }))
]

Books-trans : (a b c : Vault) (m n : ℕ) → Books a b m → Books b c n → Books a c (m + n)
Books-trans a b c m n h k = record {
  conserved = omega (arith, h.conserved, k.conserved);
  requested = omega (arith, h.requested, k.requested);
  pending = omega (arith, h.pending, k.pending);
}

all-Books :
    (v : Vault) (supply : ℕ) (now : ℤ) (settled : ℕ) (ts : List TicketSettlement) {d : Settled}
    → strike_all v supply now settled ts ≡ ok d
    → Books v d.vault (unstruck_shares ts) × (d.settled_assets ≡ settled + owed d.tickets)
unfolding strike_all unstruck_shares owed
all-Books v supply now settled [] {d} made =
    subst (λ x. Books v x.vault 0 × (x.settled_assets ≡ settled + owed x.tickets)) (ok_inj _ _ made)
      (
        record { conserved = omega arith; requested = omega arith; pending = omega arith },
        omega arith,
      )
all-Books v supply now settled (t ∷ ts) {d} h =
    let (struck, first, h) = >>=-eq-ok (strike_unpriced v supply t.ticket now) _ h in
    let (total, sum, h) =
      >>=-eq-ok (ok_or (checked_add u64 settled struck.ticket.assets_owed) (program_error overflow))
        _ h in
    let (done, later, made) = >>=-eq-ok (strike_all struck.vault supply now total ts) _ h in
    let (books, paid) = all-Books struck.vault supply now total ts later in
    let whole =
      Books-trans v struck.vault done.vault _ _ (unpriced-Books v supply t.ticket now first)
        books in
    subst
      (λ x.
        Books v x.vault (unstruck_shares (t ∷ ts)) × (x.settled_assets ≡ settled + owed x.tickets))
      (ok_inj _ _ made) (whole, ground (arith, sum, paid))

-- The parts of a `process` that succeeds: the strikes, the payments, and the books after them.
pub record Processed {W : Type 0} (r : Runtime W) (s : State W) (c : WithdrawalsContext) (now : ℤ)
    (s' : State W) : Type 0 where
  pub done : Settled
  pub supply : ℕ
  pub seeds : List Bytes
  pub paid : State W
  pub read : mint_supply (r.account s.runtime c.share_mint) ≡ ok supply
  pub struck : strike_all s.vault supply now 0 c.tickets ≡ ok done
  pub payments : pay_all r s c seeds done.tickets ≡ ok paid
  pub runtime : paid.runtime ≡ s'.runtime
  pub assets :
      s'.vault.total_assets + s'.vault.pending_withdrawal_assets + owed done.tickets
      ≡ s.vault.total_assets + s.vault.pending_withdrawal_assets
  pub shares :
      s'.vault.requested_withdrawal_shares + unstruck_shares c.tickets
      ≡ s.vault.requested_withdrawal_shares

pub process-Processed :
    {W : Type 0} (r : Runtime W) (s : State W) (c : WithdrawalsContext) (now : ℤ) {s' : State W}
    → process r s c now ≡ ok s'
    → Processed r s c now s'
unfolding process
process-Processed {W = W} r s c now {s'} h =
    let (supply, read, h) = >>=-eq-ok (mint_supply (r.account s.runtime c.share_mint)) _ h in
    let (d, struck, h) = >>=-eq-ok (strike_all s.vault supply now 0 c.tickets) _ h in
    let (books, paid) = all-Books s.vault supply now 0 c.tickets struck in
    let (_, covered, h) =
      >>=-eq-ok
        (fail_if (ltb d.vault.pending_withdrawal_assets d.settled_assets)
          (program_error invalid_vault_state))
        _ h in
    let seeds =
      sub_account_signer_seeds c.vault_account d.vault.withdraw_sub_account c.sub_account_bump in
    let (t, payments, h) = >>=-eq-ok (pay_all r s c seeds d.tickets) _ h in
    let (pending, left, h) =
      >>=-eq-ok
        (ok_or (checked_sub d.vault.pending_withdrawal_assets d.settled_assets)
          (program_error overflow))
        _ h in
    let taken = ok_or-checked_sub u64 _ _ _ left in
    let v' : Vault = record d.vault { pending_withdrawal_assets = pending } in
    let (_, _, made) = >>=-eq-ok (validate_state v') _ h in
    subst (Processed r s c now) (ok_inj (record t { vault = v' }) s' made) (record {
      done = d;
      supply = supply;
      seeds = seeds;
      paid = t;
      read = read;
      struck = struck;
      payments = payments;
      runtime = refl;
      assets = omega (arith, taken, books.conserved, paid);
      shares = books.requested;
    })

-- A `process` that succeeds, over a token program that keeps its laws, strikes the tickets and pays
-- what they then owe. Of any token account that had a balance: what the tickets owe in all leaves
-- it if it is the custody account, what they owe to it arrives, and nothing else moves. The same sum
-- leaves the total and the pending assets together, and the shares of the tickets that were unstruck
-- leave the requested ones.
pub process_conserves :
    {W : Type 0} (r : Runtime W) (laws : BalanceLaws r) (s : State W) (c : WithdrawalsContext)
    (now : ℤ) (k : Key) (n : ℕ) {s' : State W}
    → token_amount (r.account s.runtime k) ≡ ok n
    → process r s c now ≡ ok s'
    → (d : Settled) × (supply : ℕ) × (strike_all s.vault supply now 0 c.tickets ≡ ok d)
      × (mint_supply (r.account s.runtime c.share_mint) ≡ ok supply)
      × (s'.vault.total_assets + s'.vault.pending_withdrawal_assets + owed d.tickets
          ≡ s.vault.total_assets + s.vault.pending_withdrawal_assets)
      × (s'.vault.requested_withdrawal_shares + unstruck_shares c.tickets
          ≡ s.vault.requested_withdrawal_shares)
      × Balanced r s'.runtime k n (at_account k c.custody (owed d.tickets)) (due_to k d.tickets)
process_conserves {W = W} r laws s c now k n {s'} held h =
    let p = process-Processed r s c now h in
    let balance = pay_all-Balanced r laws s c p.seeds p.done.tickets k n held p.payments in
    let moved =
      subst
        (λ (w : W).
          Balanced r w k n (at_account k c.custody (owed p.done.tickets)) (due_to k p.done.tickets))
        p.runtime balance in
    (p.done, p.supply, p.struck, p.read, p.assets, p.shares, moved)
