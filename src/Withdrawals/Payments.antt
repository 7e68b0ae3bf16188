-- ===== src/Withdrawals/Payments.antt =====
-- process_withdrawals.rs: what the payments of tickets do to the balances of token accounts.
use roshi.Common.{ℕ, ◌+◌, ◌≡◌, ◌∙◌, subst, ap, arith, List, [], ◌∷◌}
use roshi.Common.Result.{ok, >>=-eq-ok, ok_inj, ok_or}
use roshi.Common.Error.{arithmetic_overflow}
use roshi.Common.Word.{u64, checked_add}
use roshi.Common.Bytes.{Bytes, Key}
use roshi.Token.{token_amount}
use roshi.Runtime.{Runtime, BalanceLaws}
use roshi.Runtime.Balances.{at_account, at_account_add, Balanced, transfer-Balanced}
use roshi.Tickets.{State, close_account}
use roshi.Withdrawals.{TicketSettlement, WithdrawalsContext, pay_all}

-- The assets that the settlements owe.
unfoldable pub owed : List TicketSettlement → ℕ
owed [] = 0
owed (s ∷ rest) = s.ticket.assets_owed + owed rest

-- What they owe to one account.
unfoldable pub due_to : Key → List TicketSettlement → ℕ
due_to k [] = 0
due_to k (s ∷ rest) = at_account k s.destination s.ticket.assets_owed + due_to k rest

nothing : (k meant : Key) → at_account k meant 0 ≡ 0
unfolding at_account
nothing k meant = ground arith

module _ {W : Type 0} (r : Runtime W) (laws : BalanceLaws r) where
  close_account-balance :
      (s : State W) (key refund_to k : Key) {n : ℕ} {s' : State W}
      → token_amount (r.account s.runtime k) ≡ ok n
      → close_account r s key refund_to ≡ ok s'
      → token_amount (r.account s'.runtime k) ≡ ok n
  unfolding close_account
  close_account-balance s key refund_to k {n} {s'} held h =
      let (balance, _, h) =
        >>=-eq-ok
          (ok_or (checked_add u64 (r.lamports s.runtime refund_to) (r.lamports s.runtime key))
            arithmetic_overflow)
          _ h in
      let funded = r.set_lamports s.runtime refund_to balance in
      let (w, released, made) = >>=-eq-ok (r.release (r.set_lamports funded key 0) key) _ h in
      let still : token_amount (r.account (r.set_lamports funded key 0) k) ≡ ok n =
        laws.moved funded key k 0 ∙ laws.moved s.runtime refund_to k balance ∙ held in
      subst (λ (x : State W). token_amount (r.account x.runtime k) ≡ ok n) (ok_inj _ s' made)
        (laws.released k still released)

  -- The loop of payments takes from the custody account what the tickets owe, and gives each account
  -- what they owe to it.
  pub pay_all-Balanced :
      (s : State W) (c : WithdrawalsContext) (seeds : List Bytes) (ts : List TicketSettlement)
      (k : Key) (n : ℕ) {s' : State W}
      → token_amount (r.account s.runtime k) ≡ ok n
      → pay_all r s c seeds ts ≡ ok s'
      → Balanced r s'.runtime k n (at_account k c.custody (owed ts)) (due_to k ts)
  unfolding pay_all owed due_to
  pay_all-Balanced s c seeds [] k n {s'} held h =
      subst (λ (x : State W). Balanced r x.runtime k n (at_account k c.custody 0) 0) (ok_inj s s' h)
        (n, held, ap (λ (x : ℕ). n + x) (nothing k c.custody))
  pay_all-Balanced s c seeds (t ∷ ts) k n {s'} held h =
      let (w, paid, h) =
        >>=-eq-ok
          (r.transfer s.runtime c.custody t.destination c.sub_account t.ticket.assets_owed seeds) _
          h in
      let (u, closed, h) =
        >>=-eq-ok (close_account r (record s { runtime = w }) t.ticket_account t.owner) _ h in
      let (m, left, first) =
        transfer-Balanced r laws s.runtime k c.custody t.destination c.sub_account
          t.ticket.assets_owed n seeds held paid in
      let still =
        close_account-balance (record s { runtime = w }) t.ticket_account t.owner k left closed in
      let (l, last, others) = pay_all-Balanced u c seeds ts k m still h in
      let both = at_account_add k c.custody t.ticket.assets_owed (owed ts) in
      (l, last, omega (arith, first, others, both))
