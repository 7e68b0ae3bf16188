-- ===== src/System/Reachable.antt =====
-- What holds in every state that the instructions reach.
use roshi.Common.{◌≡◌, refl, sym, ap, ◌∙◌, subst, arith}
use roshi.Tickets.{State}
use roshi.Redeem.Supply.{ticket_shares, IsBacked, ticket_shares-remove}
use roshi.Withdrawals.Conservation.{process-Processed}
use roshi.Admin.Scope.{Books, try_administer-IsAdministered}
use roshi.NavReport.Books.{apply_nav_report_lem}
use roshi.System.{
  Environment, Step, deposit, redeem, cancel_redeem, process_withdrawals, report_nav, administer,
  collect_fees, invest_external, return_external, atomic_redeem, elsewhere, Reach, start, then,
}
use roshi.System.Custody.{
  try_collect_fees-requested, try_invest_external-requested, try_return_external-requested,
  settle_atomic_redeem-Counted,
}
use roshi.System.Remaining.{
  AllUnstruck, unstruck-remove, unstruck-remove_all, remove_all, remove_all-shares,
}
use roshi.System.Tickets.{
  try_redeem-Counted, try_cancel_redeem-Counted, process-tickets, try_deposit-Counted,
}

-- The counter of requested shares is what the open tickets stand for, and no open ticket is struck.
pub record IsConsistent {W : Type 0} (s : State W) : Type 0 where
  pub backed : IsBacked s
  pub unstruck : AllUnstruck s.tickets

module _ {W : Type 0} (e : Environment W) where
  same_books :
      (s s' : State W)
      → s'.vault.requested_withdrawal_shares ≡ s.vault.requested_withdrawal_shares
      → s'.tickets ≡ s.tickets
      → IsConsistent s
      → IsConsistent s'
  unfolding IsBacked
  same_books s s' counter tickets c = record {
    backed = counter ∙ c.backed ∙ sym (ap ticket_shares tickets);
    unstruck = subst AllUnstruck (sym tickets) c.unstruck;
  }

  -- One step of any kind keeps a consistent state consistent.
  pub Step-IsConsistent : (s s' : State W) → Step e s s' → IsConsistent s → IsConsistent s'
  unfolding IsBacked ticket_shares AllUnstruck
  Step-IsConsistent _ _ (deposit s s' c args worth now at_mint h) con =
      let counted = try_deposit-Counted e.runtime e.hashv s c args worth now h in
      same_books s s' counted.counter counted.list con
  Step-IsConsistent _ _ (redeem s s' c args clock at_mint h) con =
      let counted = try_redeem-Counted e.runtime s c args clock h in
      let tickets = sym counted.list in
      let backed = con.backed in
      record {
        backed = counted.counter ∙ omega (arith, backed) ∙ ap ticket_shares tickets;
        unstruck = subst AllUnstruck tickets (refl, con.unstruck);
      }
  Step-IsConsistent _ _ (cancel_redeem s s' c min_shares_out clock held h) con =
      let (n, taken, counted) = try_cancel_redeem-Counted e.runtime s c min_shares_out clock h in
      let fewer = ticket_shares-remove c.ticket_account s.tickets held in
      let backed = con.backed in
      let tickets = sym counted.list in
      record {
        backed = counted.counter ∙ omega (arith, backed, taken, fewer) ∙ ap ticket_shares tickets;
        unstruck =
            subst AllUnstruck tickets (unstruck-remove c.ticket_account s.tickets con.unstruck);
      }
  Step-IsConsistent _ _ (process_withdrawals s s' c now held distinct h) con =
      let shares = (process-Processed e.runtime s c now h).shares in
      let tickets = sym (process-tickets e.runtime s c now h) in
      let fewer = remove_all-shares c.tickets s.tickets con.unstruck held distinct in
      let backed = con.backed in
      let left : s'.vault.requested_withdrawal_shares
          ≡ ticket_shares (remove_all c.tickets s.tickets) =
        omega (arith, shares, fewer, backed) in
      record {
        backed = left ∙ ap ticket_shares tickets;
        unstruck = subst AllUnstruck tickets (unstruck-remove_all c.tickets s.tickets con.unstruck);
      }
  Step-IsConsistent _ _ (report_nav s s' a report kind now bound h tickets) con =
      let accepted =
        apply_nav_report_lem e.sub_account_address e.associated_token_address s.vault a report kind
          now bound h in
      same_books s s' accepted.books.requested tickets con
  Step-IsConsistent _ _ (administer s s' a i h tickets) con =
      let done = try_administer-IsAdministered s.vault a i h in
      same_books s s' (ap (λ (b : Books). b.requested_withdrawal_shares) done.keeps.0) tickets con
  Step-IsConsistent _ _ (collect_fees s s' p a sub_account amount loaded h tickets) con =
      same_books s s'
        (try_collect_fees-requested p e.runtime s.runtime a sub_account amount s.vault loaded h)
        tickets con
  Step-IsConsistent _ _ (invest_external s s' p a sub_account amount loaded h tickets) con =
      same_books s s'
        (try_invest_external-requested p e.runtime s.runtime a sub_account amount s.vault loaded h)
        tickets con
  Step-IsConsistent _ _ (return_external s s' p a sub_account amount loaded h tickets) con =
      same_books s s'
        (try_return_external-requested p e.runtime s.runtime a sub_account amount s.vault loaded h)
        tickets con
  Step-IsConsistent _ _ (atomic_redeem s s' c index shares payout now h) con =
      let counted = settle_atomic_redeem-Counted e.runtime s c index shares payout now h in
      same_books s s' counted.counter counted.list con
  Step-IsConsistent _ _ (elsewhere s s' vault tickets) con =
      same_books s s' (ap (λ v. v.requested_withdrawal_shares) vault) tickets con

  -- In every state that the steps reach from a consistent one, whatever their order, the requested
  -- shares of the vault are exactly those of its open tickets, and none of these is struck. The steps
  -- are deposits, redeems and their cancellation, the processing of withdrawals, reports of the NAV,
  -- the administration of the vault, the collection of fees, external investments and their return,
  -- the settlement of atomic redeems, and what changes neither the vault nor its tickets.
  pub Reach-IsConsistent : (s t : State W) → Reach e s t → IsConsistent s → IsConsistent t
  Reach-IsConsistent s t (start) con = con
  Reach-IsConsistent s t (then u v before step) con =
      Step-IsConsistent u v step (Reach-IsConsistent s u before con)
