-- ===== src/System/Custody.antt =====
-- The handlers that move base assets and leave the tickets alone: what they do to the counter of
-- requested shares.
use roshi.Common.{ℕ, ◌≡◌, refl, ◌∙◌, sym, subst, ap, [], not, ltb, ◌==◌}
use roshi.Common.Result.{ok, >>=-eq-ok, ok_inj, fail_if, ok_or}
use roshi.Common.Error.{
  program_error, zero_output, overflow, invalid_vault_state, missing_required_signature,
}
use roshi.Common.Int.{ℤ}
use roshi.Common.Word.{checked_sub}
use roshi.Vault.{Vault, Role, verify_idle_sub_account, debit_assets_at_effective}
use roshi.Vault.Config.{validate_state}
use roshi.Token.{Account, verify_token_account_mint_and_owner, verify_token_program_for}
use roshi.Runtime.{Runtime}
use roshi.Tickets.{State}
use roshi.NavReport.{verify_role}
use roshi.Withdrawals.{sub_account_signer_seeds}
use roshi.Withdrawals.Conservation.{debit_books}
use roshi.Accounts.{Platform, signer_of, require_writable, load_checked, verify_sub_account}
use roshi.Admin.Custody.{
  CollectAccounts, InvestAccounts, ReturnAccounts, Moved, verify_custody, verify_external,
  verify_treasury, settle_fees, remove_external, try_collect_fees, try_invest_external,
  try_return_external,
}
use roshi.Admin.Custody.Books.{store_inv, settle_fees_inv}
use roshi.Admin.Custody.External.{try_invest_external-IsInvested}
use roshi.AtomicRedeem.{AtomicRedeemContext, settle_atomic_redeem}
use roshi.System.Tickets.{Counted}

module _ {W : Type 0} (p : Platform) (r : Runtime W) where
  -- Two readings of one account are of one vault.
  one_vault :
      (v u : Vault) (a : Account)
      → load_checked p a ≡ ok v
      → load_checked p a ≡ ok u
      → u.requested_withdrawal_shares ≡ v.requested_withdrawal_shares
  one_vault v u a first second =
      ap (λ (x : Vault). x.requested_withdrawal_shares) (ok_inj u v (sym second ∙ first))

  pub try_collect_fees-requested :
      (w : W) (a : CollectAccounts) (sub_account amount : ℕ) (v : Vault) {m : Moved W}
      → load_checked p a.vault_account ≡ ok v
      → try_collect_fees p r w a sub_account amount ≡ ok m
      → m.vault.requested_withdrawal_shares ≡ v.requested_withdrawal_shares
  unfolding try_collect_fees
  try_collect_fees-requested w a sub_account amount v {m} loaded h =
      let (_, _, h) = >>=-eq-ok (fail_if (amount == 0) (program_error zero_output)) _ h in
      let (_, _, h) = >>=-eq-ok (require_writable a.vault_account) _ h in
      let (u, read, h) = >>=-eq-ok (load_checked p a.vault_account) _ h in
      let (_, _, h) = >>=-eq-ok (verify_role u Role.admin (signer_of a.admin)) _ h in
      let (_, _, h) =
        >>=-eq-ok (fail_if (ltb u.fees_payable amount) (program_error invalid_vault_state)) _ h in
      let (_, _, h) = >>=-eq-ok (verify_idle_sub_account u sub_account) _ h in
      let (bump, _, h) =
        >>=-eq-ok (verify_custody p r u a.vault_account sub_account a.sub_account a.custody) _ h in
      let (_, _, h) = >>=-eq-ok (verify_treasury p r u a.treasury) _ h in
      let (_, _, h) = >>=-eq-ok (verify_token_program_for a.token_program a.custody) _ h in
      let (_, _, h) = >>=-eq-ok (verify_token_program_for a.token_program a.treasury) _ h in
      let (w', _, h) =
        >>=-eq-ok
          (r.transfer w a.custody.key a.treasury.key a.sub_account.key amount
            (sub_account_signer_seeds a.vault_account.key sub_account bump))
          _ h in
      let (v', settled, made) = >>=-eq-ok (settle_fees p r u amount) _ h in
      let (_, rest, _) = settle_fees_inv p r u amount settled in
      sym (ap (λ (x : Moved W). x.vault.requested_withdrawal_shares) (ok_inj _ m made))
      ∙ ap (λ (x : Vault). x.requested_withdrawal_shares) rest
      ∙ one_vault v u a.vault_account loaded read

  pub try_invest_external-requested :
      (w : W) (a : InvestAccounts) (sub_account amount : ℕ) (v : Vault) {m : Moved W}
      → load_checked p a.vault_account ≡ ok v
      → try_invest_external p r w a sub_account amount ≡ ok m
      → m.vault.requested_withdrawal_shares ≡ v.requested_withdrawal_shares
  try_invest_external-requested w a sub_account amount v loaded h =
      let done = try_invest_external-IsInvested p r w a sub_account amount h in
      ap (λ (x : Vault). x.requested_withdrawal_shares) done.rest
      ∙ one_vault v done.vault a.vault_account loaded done.loaded

  remove_external-requested :
      (v : Vault) (amount : ℕ) {v' : Vault}
      → remove_external p r v amount ≡ ok v'
      → v'.requested_withdrawal_shares ≡ v.requested_withdrawal_shares
  unfolding remove_external
  remove_external-requested v amount h =
      let (external, _, stored) =
        >>=-eq-ok (ok_or (checked_sub v.external_assets amount) (program_error overflow)) _ h in
      let (same, _) = store_inv p r _ stored in
      sym (ap (λ (x : Vault). x.requested_withdrawal_shares) same)

  pub try_return_external-requested :
      (w : W) (a : ReturnAccounts) (sub_account amount : ℕ) (v : Vault) {m : Moved W}
      → load_checked p a.vault_account ≡ ok v
      → try_return_external p r w a sub_account amount ≡ ok m
      → m.vault.requested_withdrawal_shares ≡ v.requested_withdrawal_shares
  unfolding try_return_external
  try_return_external-requested w a sub_account amount v {m} loaded h =
      let (_, _, h) = >>=-eq-ok (fail_if (amount == 0) (program_error zero_output)) _ h in
      let (_, _, h) =
        >>=-eq-ok (fail_if (not a.external_authority.is_signer) missing_required_signature) _ h in
      let (_, _, h) = >>=-eq-ok (require_writable a.vault_account) _ h in
      let (u, read, h) = >>=-eq-ok (load_checked p a.vault_account) _ h in
      let (_, _, h) = >>=-eq-ok (verify_external p r u a.strategist) _ h in
      let (_, _, h) =
        >>=-eq-ok (fail_if (ltb u.external_assets amount) (program_error invalid_vault_state)) _
          h in
      let (_, _, h) = >>=-eq-ok (verify_idle_sub_account u sub_account) _ h in
      let (_, _, h) =
        >>=-eq-ok (verify_sub_account p a.vault_account.key sub_account a.sub_account) _ h in
      let (_, _, h) = >>=-eq-ok (require_writable a.external_account) _ h in
      let (_, _, h) =
        >>=-eq-ok
          (verify_token_account_mint_and_owner a.external_account u.base_mint
            a.external_authority.key)
          _ h in
      let (_, _, h) = >>=-eq-ok (require_writable a.custody) _ h in
      let (_, _, h) =
        >>=-eq-ok (verify_token_account_mint_and_owner a.custody u.base_mint a.sub_account.key) _
          h in
      let (_, _, h) = >>=-eq-ok (verify_token_program_for a.token_program a.custody) _ h in
      let (_, _, h) = >>=-eq-ok (verify_token_program_for a.token_program a.external_account) _ h in
      let (w', _, h) =
        >>=-eq-ok
          (r.transfer w a.external_account.key a.custody.key a.external_authority.key amount []) _
          h in
      let (v', removed, made) = >>=-eq-ok (remove_external p r u amount) _ h in
      sym (ap (λ (x : Moved W). x.vault.requested_withdrawal_shares) (ok_inj _ m made))
      ∙ remove_external-requested u amount removed
      ∙ one_vault v u a.vault_account loaded read

pub settle_atomic_redeem-Counted :
    {W : Type 0} (r : Runtime W) (s : State W) (c : AtomicRedeemContext) (index shares payout : ℕ)
    (now : ℤ) {s' : State W}
    → settle_atomic_redeem r s c index shares payout now ≡ ok s'
    → Counted s s' s.vault.requested_withdrawal_shares s.tickets
unfolding settle_atomic_redeem
settle_atomic_redeem-Counted r s c index shares payout now {s'} h =
    let (w, _, h) =
      >>=-eq-ok
        (r.transfer s.runtime c.custody c.recipient_token_account c.sub_account payout
          (sub_account_signer_seeds c.vault_account index c.sub_account_bump))
        _ h in
    let (w', _, h) = >>=-eq-ok (r.burn w c.user_share_account c.share_mint c.owner shares) _ h in
    let (v, debit, h) = >>=-eq-ok (debit_assets_at_effective s.vault payout now) _ h in
    let (_, _, made) = >>=-eq-ok (validate_state v) _ h in
    let (_, _, requested) = debit_books s.vault payout now debit in
    subst (λ (x : State _). Counted s x s.vault.requested_withdrawal_shares s.tickets)
      (ok_inj (record s { vault = v; runtime = w' }) s' made)
      (record { counter = requested; list = refl })
