-- ===== src/Admin/Custody/External.antt =====
-- invest_external.rs and return_external.rs: the books of the external assets.
use roshi.Common.{ℕ, ◌+◌, ◌-◌, ◌≡◌, refl, ap, ◌∙◌, subst, arith, true, leb, ◌==◌, le→leb}
use roshi.Common.Result.{ok, >>=-eq-ok, ok_inj, fail_if, ok_or}
use roshi.Common.Error.{program_error, zero_output, overflow}
use roshi.Common.Word.{u64, checked_add, ok_or-checked_add}
use roshi.Vault.{Vault, verify_idle_sub_account}
use roshi.Vault.Config.{validate_state}
use roshi.Token.{verify_token_account_mint, verify_token_program_for}
use roshi.Runtime.{Runtime}
use roshi.Withdrawals.{sub_account_signer_seeds}
use roshi.Accounts.{Platform, require_writable, load_checked}
use roshi.Admin.{store}
use roshi.Admin.Custody.{
  InvestAccounts, Moved, verify_custody, verify_external, verify_registration, add_external,
  try_invest_external, remove_external,
}
use roshi.Admin.Custody.Books.{store_inv}

module _ {W : Type 0} (p : Platform) (r : Runtime W) where
  -- An investment: to a destination that the admin has registered, at the strategist's word, with
  -- the amount on the books.
  pub record IsInvested (w : W) (a : InvestAccounts) (sub_account amount : ℕ) (m : Moved W)
      : Type 0 where
    pub vault : Vault
    pub loaded : load_checked p a.vault_account ≡ ok vault
    pub allowed : verify_external p r vault a.strategist ≡ ok tt
    pub registered :
        verify_registration p r a.vault_account a.external_account a.registration ≡ ok tt
    pub bump : ℕ
    pub owned :
        verify_custody p r vault a.vault_account sub_account a.sub_account a.custody ≡ ok bump
    pub paid :
        r.transfer w a.custody.key a.external_account.key a.sub_account.key amount
          (sub_account_signer_seeds a.vault_account.key sub_account bump)
        ≡ ok m.runtime
    pub external : m.vault.external_assets ≡ vault.external_assets + amount
    pub rest : m.vault ≡ record vault { external_assets = m.vault.external_assets }

  add_external_inv :
      (v : Vault) (amount : ℕ) {v' : Vault}
      → add_external p r v amount ≡ ok v'
      → (v'.external_assets ≡ v.external_assets + amount)
        × (v' ≡ record v { external_assets = v'.external_assets })
  unfolding add_external
  add_external_inv v amount {v'} h =
      let (external, sum, stored) =
        >>=-eq-ok (ok_or (checked_add u64 v.external_assets amount) (program_error overflow)) _ h in
      let (same, _) = store_inv p r _ stored in
      subst
        (λ (y : Vault).
          (y.external_assets ≡ v.external_assets + amount)
          × (y ≡ record v { external_assets = y.external_assets }))
        same ((ok_or-checked_add u64 v.external_assets amount _ sum).0, refl)

  -- An investment goes from the vault's own custody to an account that is registered for the vault,
  -- signed for by its strategist while nothing is paused; it adds the amount to the external assets
  -- and changes nothing else, the total assets included.
  pub try_invest_external-IsInvested :
      (w : W) (a : InvestAccounts) (sub_account amount : ℕ) {m : Moved W}
      → try_invest_external p r w a sub_account amount ≡ ok m
      → IsInvested w a sub_account amount m
  unfolding try_invest_external
  try_invest_external-IsInvested w a sub_account amount {m} h =
      let (_, _, h) = >>=-eq-ok (fail_if (amount == 0) (program_error zero_output)) _ h in
      let (_, _, h) = >>=-eq-ok (require_writable a.vault_account) _ h in
      let (v, loaded, h) = >>=-eq-ok (load_checked p a.vault_account) _ h in
      let (_, allowed, h) = >>=-eq-ok (verify_external p r v a.strategist) _ h in
      let (_, _, h) = >>=-eq-ok (verify_idle_sub_account v sub_account) _ h in
      let (bump, owned, h) =
        >>=-eq-ok (verify_custody p r v a.vault_account sub_account a.sub_account a.custody) _ h in
      let (_, _, h) = >>=-eq-ok (require_writable a.external_account) _ h in
      let (_, _, h) = >>=-eq-ok (verify_token_account_mint a.external_account v.base_mint) _ h in
      let (_, registered, h) =
        >>=-eq-ok (verify_registration p r a.vault_account a.external_account a.registration) _ h in
      let (_, _, h) = >>=-eq-ok (verify_token_program_for a.token_program a.custody) _ h in
      let (_, _, h) = >>=-eq-ok (verify_token_program_for a.token_program a.external_account) _ h in
      let (w', paid, h) =
        >>=-eq-ok
          (r.transfer w a.custody.key a.external_account.key a.sub_account.key amount
            (sub_account_signer_seeds a.vault_account.key sub_account bump))
          _ h in
      let (v', added, made) = >>=-eq-ok (add_external p r v amount) _ h in
      let (external, rest) = add_external_inv v amount added in
      let result : Moved W = record { vault = v'; runtime = w' } in
      subst (IsInvested w a sub_account amount) (ok_inj result m made) (record {
        vault = v;
        loaded = loaded;
        allowed = allowed;
        registered = registered;
        bump = bump;
        owned = owned;
        paid = paid;
        external = external;
        rest = rest;
      })

  -- What is invested can come back: of a valid vault, the return of an amount that was just invested
  -- leaves the vault as it was before the investment.
  pub remove_external-add_external :
      (v : Vault) (amount : ℕ) {v' : Vault}
      → validate_state v ≡ ok tt
      → add_external p r v amount ≡ ok v'
      → remove_external p r v' amount ≡ ok v
  unfolding remove_external store
  remove_external-add_external v amount {v'} valid h =
      let (external, rest) = add_external_inv v amount h in
      let enough : leb amount v'.external_assets ≡ true =
        le→leb amount v'.external_assets (omega (arith, external)) in
      let back : record v' { external_assets = v'.external_assets - amount } ≡ v =
        ap (λ (y : Vault). record y { external_assets = v'.external_assets - amount }) rest
        ∙ ap (λ n. record v { external_assets = n }) (omega (arith, external)) in
      rw (enough, back, valid) refl
