-- ===== src/Redeem/Supply.antt =====
-- redeem.rs and cancel_redeem.rs: the shares that back the price. A redeem burns them into a ticket
-- and a cancellation mints them again, and neither moves the economic supply or the assets.
use roshi.Common.{
  ℕ, ◌+◌, ◌-◌, ◌≡◌, subst, sym, ap, refl, arith, Bool-cases, inl, inr, some, List, [], ◌∷◌, ltb,
  ◌==◌, ◌∙◌,
}
use roshi.Common.Result.{ok, ok_inj, >>=-eq-ok, fail_if, ok_or}
use roshi.Common.Error.{
  program_error, lift, overflow, vault_paused, zero_output, invalid_vault_state,
  arithmetic_overflow, slippage_exceeded,
}
use roshi.Common.Word.{u64, checked_add, checked_sub, ok_or-checked_add, ok_or-checked_sub}
use roshi.Common.Bytes.{Key, bytes_eq}
use roshi.Math.{assets_for_redeem}
use roshi.Vault.{bool_flag, economic_share_supply, effective_total_assets}
use roshi.Vault.Config.{tag_seed}
use roshi.Token.{mint_supply}
use roshi.Runtime.{Runtime, TokenLaws}
use roshi.Tickets.{
  State, WithdrawalTicket, create_ticket, close_account, find_ticket, remove_ticket, ticket_space,
}
use roshi.Redeem.{
  Clock, RedeemContext, RedeemArgs, CancelContext, requested_ticket, verify_cancellable, try_redeem,
  try_cancel_redeem, vault_signer_seeds,
}

-- The shares that the open tickets stand for.
unfoldable pub ticket_shares : List (Key × WithdrawalTicket) → ℕ
ticket_shares [] = 0
ticket_shares ((k, t) ∷ rest) = t.shares_burned + ticket_shares rest

-- The invariant that ties the vault's counter to the tickets.
unfoldable pub IsBacked : {W : Type 0} → State W → Type 0
IsBacked s = s.vault.requested_withdrawal_shares ≡ ticket_shares s.tickets

-- What both operations leave as it was: the economic supply and the assets; and the counter stays
-- backed by the tickets.
pub record KeepsSupply {W : Type 0} (r : Runtime W) (mint : Key) (s s' : State W) : Type 0 where
  pub supply : ℕ
  pub supply' : ℕ
  pub read : mint_supply (r.account s.runtime mint) ≡ ok supply
  pub read' : mint_supply (r.account s'.runtime mint) ≡ ok supply'
  pub economic :
      supply' + s'.vault.requested_withdrawal_shares ≡ supply + s.vault.requested_withdrawal_shares
  pub assets : s'.vault.total_assets ≡ s.vault.total_assets
  pub backed : IsBacked s'

pub ticket_shares-remove :
    (key : Key) (ts : List (Key × WithdrawalTicket)) {t : WithdrawalTicket}
    → find_ticket key ts ≡ some t
    → ticket_shares (remove_ticket key ts) + t.shares_burned ≡ ticket_shares ts
unfolding ticket_shares
ticket_shares-remove key [] {t} h = cc
ticket_shares-remove key ((k, u) ∷ ts) {t} h = elim (Bool-cases (bytes_eq k key)) [
  | inl same ↦
      let found : some u ≡ some t = rw same at h in
      let equal : u.shares_burned ≡ t.shares_burned = ground (arith, found) in
      rw same (omega (arith, equal))
  | inr other ↦
      let deeper : find_ticket key ts ≡ some t = rw other at h in
      rw other (omega (arith, ticket_shares-remove key ts deeper))
]

module _ {W : Type 0} (r : Runtime W) (mint : Key) (laws : TokenLaws r mint) where
  pub create_lem :
      (s : State W) (payer key : Key) (t : WithdrawalTicket) {s' : State W}
      → create_ticket r s payer key t ≡ ok s'
      → (s'.vault ≡ s.vault)
        × (s'.tickets ≡ (key, t) ∷ s.tickets)
        × (mint_supply (r.account s'.runtime mint) ≡ mint_supply (r.account s.runtime mint))
  unfolding create_ticket
  create_lem s payer key t {s'} h =
      let (w, created, made) = >>=-eq-ok (r.create_account s.runtime payer key ticket_space) _ h in
      subst
        (λ (x : State W).
          (x.vault ≡ s.vault)
          × (x.tickets ≡ (key, t) ∷ s.tickets)
          × (mint_supply (r.account x.runtime mint) ≡ mint_supply (r.account s.runtime mint)))
        (ok_inj (record s { runtime = w; tickets = (key, t) ∷ s.tickets }) s' made)
        (refl, refl, laws.created created)

  pub close_lem :
      (s : State W) (key refund_to : Key) {s' : State W}
      → close_account r s key refund_to ≡ ok s'
      → (s'.vault ≡ s.vault)
        × (s'.tickets ≡ remove_ticket key s.tickets)
        × (mint_supply (r.account s'.runtime mint) ≡ mint_supply (r.account s.runtime mint))
  unfolding close_account
  close_lem s key refund_to {s'} h =
      let (balance, _, h) =
        >>=-eq-ok
          (ok_or (checked_add u64 (r.lamports s.runtime refund_to) (r.lamports s.runtime key))
            arithmetic_overflow)
          _ h in
      let paid : W = r.set_lamports s.runtime refund_to balance in
      let (w, released, made) = >>=-eq-ok (r.release (r.set_lamports paid key 0) key) _ h in
      subst
        (λ (x : State W).
          (x.vault ≡ s.vault)
          × (x.tickets ≡ remove_ticket key s.tickets)
          × (mint_supply (r.account x.runtime mint) ≡ mint_supply (r.account s.runtime mint)))
        (ok_inj (record s { runtime = w; tickets = remove_ticket key s.tickets }) s' made)
        (
          refl,
          refl,
          laws.released released ∙ laws.moved paid key 0 ∙ laws.moved s.runtime refund_to balance,
        )

  -- A redeem that succeeds, over a token program that keeps its laws at the share mint and from a
  -- state whose counter is backed by the tickets, burns what it requests: the economic supply and the assets stay as they
  -- were, and the counter of requested shares stays backed by the tickets.
  pub try_redeem-KeepsSupply :
      (s : State W) (c : RedeemContext) (args : RedeemArgs) (clock : Clock) {s' : State W}
      → c.share_mint ≡ mint
      → IsBacked s
      → try_redeem r s c args clock ≡ ok s'
      → KeepsSupply r mint s s'
  unfolding try_redeem IsBacked ticket_shares
  try_redeem-KeepsSupply s c args clock {s'} at_mint backed h =
      let h = rw at_mint at h in
      let (paused, _, h) = >>=-eq-ok (bool_flag s.vault.withdrawals_paused_flag) _ h in
      let (_, _, h) = >>=-eq-ok (fail_if paused (program_error vault_paused)) _ h in
      let (_, _, h) = >>=-eq-ok (fail_if (args.shares == 0) (program_error zero_output)) _ h in
      let (supply, read, h) = >>=-eq-ok (mint_supply (r.account s.runtime mint)) _ h in
      let (_, _, h) =
        >>=-eq-ok (fail_if (ltb supply args.shares) (program_error invalid_vault_state)) _ h in
      let (economic, _, h) = >>=-eq-ok (economic_share_supply s.vault supply) _ h in
      let (effective, _, h) = >>=-eq-ok (effective_total_assets s.vault clock.unix_timestamp) _ h in
      let (_, _, h) =
        >>=-eq-ok (lift (assets_for_redeem args.shares effective economic s.vault.base_decimals)) _
          h in
      let (w, burnt, h) =
        >>=-eq-ok (r.burn s.runtime c.share_source mint c.owner args.shares) _ h in
      let (part, left) = laws.burned read burnt in
      let (t, created, h) =
        >>=-eq-ok
          (create_ticket r (record s { runtime = w }) c.owner c.ticket
            (requested_ticket c args s.vault clock))
          _ h in
      let (same, tickets, reread) =
        create_lem (record s { runtime = w }) c.owner c.ticket _ created in
      let (requested, sum, made) =
        >>=-eq-ok
          (ok_or (checked_add u64 s.vault.requested_withdrawal_shares args.shares)
            (program_error overflow))
          _ h in
      let (grown, _) =
        ok_or-checked_add u64 s.vault.requested_withdrawal_shares args.shares _ sum in
      let backed' : requested ≡ ticket_shares t.tickets =
        omega (arith, grown, backed) ∙ sym (ap ticket_shares tickets) in
      subst (λ (x : State W). KeepsSupply r mint s x)
        (ok_inj (record t { vault = record s.vault { requested_withdrawal_shares = requested } }) s'
          made)
        (record {
          supply = supply;
          supply' = supply - args.shares;
          read = read;
          read' = reread ∙ left;
          economic = omega (arith, grown, part);
          assets = refl;
          backed = backed';
        })

  -- A cancellation that succeeds, of a ticket that the account holds, over a token program that keeps
  -- its laws at the share mint and from a state whose counter is backed by the tickets, mints the
  -- ticket's shares again: the
  -- economic supply and the assets stay as they were, and the counter of requested shares stays
  -- backed by the tickets.
  pub try_cancel_redeem-KeepsSupply :
      (s : State W) (c : CancelContext) (min_shares_out supply : ℕ) (clock : Clock) {s' : State W}
      → c.share_mint ≡ mint
      → find_ticket c.ticket_account s.tickets ≡ some c.ticket
      → mint_supply (r.account s.runtime mint) ≡ ok supply
      → IsBacked s
      → try_cancel_redeem r s c min_shares_out clock ≡ ok s'
      → KeepsSupply r mint s s'
  unfolding try_cancel_redeem IsBacked
  try_cancel_redeem-KeepsSupply s c min_shares_out supply clock {s'} at_mint held read backed h =
      let h = rw at_mint at h in
      let shares = c.ticket.shares_burned in
      let (_, _, h) = >>=-eq-ok (verify_cancellable s.vault c.ticket clock.slot) _ h in
      let (_, _, h) =
        >>=-eq-ok (fail_if (ltb shares min_shares_out) (program_error slippage_exceeded)) _ h in
      let (tag, _, h) = >>=-eq-ok (tag_seed s.vault) _ h in
      let (w, minted, h) =
        >>=-eq-ok
          (r.mint_to s.runtime mint c.share_dest c.vault_account shares
            (vault_signer_seeds s.vault tag))
          _ h in
      let (t, closed, h) =
        >>=-eq-ok (close_account r (record s { runtime = w }) c.ticket_account c.owner) _ h in
      let (same, tickets, reread) =
        close_lem (record s { runtime = w }) c.ticket_account c.owner closed in
      let (requested, left, made) =
        >>=-eq-ok
          (ok_or (checked_sub s.vault.requested_withdrawal_shares shares) (program_error overflow))
          _ h in
      let taken = ok_or-checked_sub u64 s.vault.requested_withdrawal_shares shares _ left in
      let fewer = ticket_shares-remove c.ticket_account s.tickets held in
      let backed' : requested ≡ ticket_shares t.tickets =
        omega (arith, taken, fewer, backed) ∙ sym (ap ticket_shares tickets) in
      subst (λ (x : State W). KeepsSupply r mint s x)
        (ok_inj (record t { vault = record s.vault { requested_withdrawal_shares = requested } }) s'
          made)
        (record {
          supply = supply;
          supply' = supply + shares;
          read = read;
          read' = reread ∙ laws.minted read minted;
          economic = omega (arith, taken);
          assets = refl;
          backed = backed';
        })
