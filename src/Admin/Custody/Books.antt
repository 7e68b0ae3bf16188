-- ===== src/Admin/Custody/Books.antt =====
-- collect_fees.rs, invest_external.rs, return_external.rs: the books of what moves.
use roshi.Common.{
  ℕ, ◌+◌, ◌<◌, ◌≡◌, ◌⊎◌, true, not, not-false, refl, sym, subst, arith, ltb, ◌==◌, ==→ne,
}
use roshi.Common.Result.{ok, >>=-eq-ok, ok_inj, fail_if_inv, fail_if, ok_or}
use roshi.Common.Error.{
  program_error, invalid_token_account, zero_output, invalid_vault_state, overflow,
}
use roshi.Common.Word.{u64, checked_sub, ok_or-checked_sub}
use roshi.Vault.{Vault, Role, authority_for_role, verify_idle_sub_account}
use roshi.Vault.Config.{validate_state}
use roshi.Common.Bytes.{Key, bytes_eq, bytes_eq→eq}
use roshi.Token.{
  Account, slice, token_amount, verify_token_account_mint_and_owner, verify_token_program_for,
}
use roshi.Runtime.{Runtime, BalanceLaws}
use roshi.Runtime.Balances.{at_account, Balanced, transfer-Balanced}
use roshi.NavReport.{verify_role}
use roshi.Withdrawals.{sub_account_signer_seeds}
use roshi.Accounts.{
  Platform, signer_of, require_writable, load_checked, find_sub_account_address, verify_sub_account,
}
use roshi.Accounts.Checks.{
  verify_role_inv, verify_idle_sub_account_inv, verify_sub_account_inv,
  verify_token_account_mint_inv, verify_token_account_mint_and_owner_inv,
}
use roshi.Admin.{store}
use roshi.Admin.Custody.{
  CollectAccounts, Moved, verify_custody, verify_treasury, settle_fees, try_collect_fees,
}

module _ {W : Type 0} (p : Platform) (r : Runtime W) where
  -- What a collection of fees leads to: the vault and its signer, the accounts, the books, and the
  -- balance of a token account `k` that had `n`.
  pub record IsCollected (w : W) (a : CollectAccounts) (sub_account amount : ℕ) (k : Key) (n : ℕ)
      (m : Moved W) : Type 0 where
    pub vault : Vault
    pub loaded : load_checked p a.vault_account ≡ ok vault
    pub signed : a.admin.is_signer ≡ true
    pub by_admin : a.admin.key ≡ vault.admin
    pub idle :
        (sub_account ≡ vault.deposit_sub_account) ⊎ (sub_account ≡ vault.withdraw_sub_account)
    pub of_vault :
        a.sub_account.key ≡ (find_sub_account_address p a.vault_account.key sub_account).0
    pub held_for : slice a.custody.bytes 32 32 ≡ a.sub_account.key
    pub of_base : slice a.custody.bytes 0 32 ≡ vault.base_mint
    pub to_treasury : a.treasury.key ≡ vault.treasury
    pub treasury_of_base : slice a.treasury.bytes 0 32 ≡ vault.base_mint
    pub some_amount : 0 < amount
    pub fees : m.vault.fees_payable + amount ≡ vault.fees_payable
    pub rest : m.vault ≡ record vault { fees_payable = m.vault.fees_payable }
    pub valid : validate_state m.vault ≡ ok tt
    pub balance :
        Balanced r m.runtime k n
          (at_account k a.custody.key amount)
          (at_account k vault.treasury amount)

  pub store_inv :
      (v : Vault) {v' : Vault} → store v ≡ ok v' → (v ≡ v') × (validate_state v' ≡ ok tt)
  unfolding store
  store_inv v {v'} h =
      let (_, valid, made) = >>=-eq-ok (validate_state v) _ h in
      let same = ok_inj v v' made in (same, subst (λ y. validate_state y ≡ ok tt) same valid)

  pub settle_fees_inv :
      (v : Vault) (amount : ℕ) {v' : Vault}
      → settle_fees p r v amount ≡ ok v'
      → (v'.fees_payable + amount ≡ v.fees_payable)
        × (v' ≡ record v { fees_payable = v'.fees_payable })
        × (validate_state v' ≡ ok tt)
  unfolding settle_fees
  settle_fees_inv v amount {v'} h =
      let (fees, left, stored) =
        >>=-eq-ok (ok_or (checked_sub v.fees_payable amount) (program_error overflow)) _ h in
      let (same, valid) = store_inv _ stored in
      let sum = ok_or-checked_sub u64 v.fees_payable amount _ left in
      subst
        (λ (y : Vault).
          (y.fees_payable + amount ≡ v.fees_payable)
          × (y ≡ record v { fees_payable = y.fees_payable })
          × (validate_state y ≡ ok tt))
        same (sum, refl, subst (λ y. validate_state y ≡ ok tt) (sym same) valid)

  verify_treasury_inv :
      (v : Vault) (treasury : Account)
      → verify_treasury p r v treasury ≡ ok tt
      → (treasury.key ≡ v.treasury) × (slice treasury.bytes 0 32 ≡ v.base_mint)
  unfolding verify_treasury
  verify_treasury_inv v treasury h =
      let (_, _, h) = >>=-eq-ok (require_writable treasury) _ h in
      let (_, named, h) =
        >>=-eq-ok
          (fail_if (not (bytes_eq treasury.key v.treasury)) (program_error invalid_token_account)) _
          h in
      (
        bytes_eq→eq treasury.key v.treasury (not-false _ (fail_if_inv _ _ named)),
        verify_token_account_mint_inv treasury v.base_mint h,
      )

  verify_custody_inv :
      (v : Vault) (vault_account : Account) (index : ℕ) (sub_account custody : Account) {bump : ℕ}
      → verify_custody p r v vault_account index sub_account custody ≡ ok bump
      → (sub_account.key ≡ (find_sub_account_address p vault_account.key index).0)
        × (slice custody.bytes 0 32 ≡ v.base_mint)
        × (slice custody.bytes 32 32 ≡ sub_account.key)
  unfolding verify_custody
  verify_custody_inv v vault_account index sub_account custody {bump} h =
      let (_, derived, h) =
        >>=-eq-ok (verify_sub_account p vault_account.key index sub_account) _ h in
      let (_, _, h) = >>=-eq-ok (require_writable custody) _ h in
      let (_, owned, _) =
        >>=-eq-ok (verify_token_account_mint_and_owner custody v.base_mint sub_account.key) _ h in
      let (mint, owner) =
        verify_token_account_mint_and_owner_inv custody v.base_mint sub_account.key owned in
      ((verify_sub_account_inv p vault_account.key index sub_account derived).0, mint, owner)

  -- Every collection that goes through, over a token program that keeps its laws, was signed by the
  -- admin of the vault, and moves an amount above 0 from the custody of one of its two idle
  -- sub-accounts to its treasury, both of the base mint: of any token account that had a balance, the
  -- amount leaves it if it is that custody, arrives if it is the treasury, and nothing else moves.
  -- The fees payable fall by the amount. Nothing else of the vault changes, and it is still valid.
  pub try_collect_fees-IsCollected :
      (laws : BalanceLaws r) (w : W) (a : CollectAccounts) (sub_account amount : ℕ) (k : Key)
      (n : ℕ) {m : Moved W}
      → token_amount (r.account w k) ≡ ok n
      → try_collect_fees p r w a sub_account amount ≡ ok m
      → IsCollected w a sub_account amount k n m
  unfolding try_collect_fees authority_for_role
  try_collect_fees-IsCollected laws w a sub_account amount k n {m} held h =
      let (_, some_amount, h) = >>=-eq-ok (fail_if (amount == 0) (program_error zero_output)) _ h in
      let (_, _, h) = >>=-eq-ok (require_writable a.vault_account) _ h in
      let (v, loaded, h) = >>=-eq-ok (load_checked p a.vault_account) _ h in
      let (_, role, h) = >>=-eq-ok (verify_role v Role.admin (signer_of a.admin)) _ h in
      let (_, _, h) =
        >>=-eq-ok (fail_if (ltb v.fees_payable amount) (program_error invalid_vault_state)) _ h in
      let (_, idle, h) = >>=-eq-ok (verify_idle_sub_account v sub_account) _ h in
      let (bump, owned, h) =
        >>=-eq-ok (verify_custody p r v a.vault_account sub_account a.sub_account a.custody) _ h in
      let (_, treasury, h) = >>=-eq-ok (verify_treasury p r v a.treasury) _ h in
      let (_, _, h) = >>=-eq-ok (verify_token_program_for a.token_program a.custody) _ h in
      let (_, _, h) = >>=-eq-ok (verify_token_program_for a.token_program a.treasury) _ h in
      let seeds = sub_account_signer_seeds a.vault_account.key sub_account bump in
      let (w', paid, h) =
        >>=-eq-ok (r.transfer w a.custody.key a.treasury.key a.sub_account.key amount seeds) _ h in
      let (v', settled, made) = >>=-eq-ok (settle_fees p r v amount) _ h in
      let by = verify_role_inv v Role.admin (signer_of a.admin) role in
      let (of_vault, of_base, held_for) =
        verify_custody_inv v a.vault_account sub_account a.sub_account a.custody owned in
      let to = verify_treasury_inv v a.treasury treasury in
      let (fees, rest, valid) = settle_fees_inv v amount settled in
      let nonzero = ==→ne _ _ (fail_if_inv _ _ some_amount) in
      let result : Moved W = record { vault = v'; runtime = w' } in
      subst (IsCollected w a sub_account amount k n) (ok_inj result m made) (record {
        vault = v;
        loaded = loaded;
        signed = by.0;
        by_admin = by.1;
        idle = verify_idle_sub_account_inv v sub_account idle;
        of_vault = of_vault;
        held_for = held_for;
        of_base = of_base;
        to_treasury = to.0;
        treasury_of_base = to.1;
        some_amount = omega (arith, nonzero);
        fees = fees;
        rest = rest;
        valid = valid;
        balance =
            subst
              (λ (x : Key).
                Balanced r w' k n (at_account k a.custody.key amount) (at_account k x amount))
              to.0
              (transfer-Balanced r laws w k a.custody.key a.treasury.key a.sub_account.key amount n
                seeds held paid);
      })
