-- ===== src/Accounts/Checks.antt =====
-- What the checks of accounts in crates/roshi establish where they pass: signers, sub-accounts, token
-- accounts and actions.
use roshi.Common.{ℕ, ◌≡◌, ◌⊎◌, arith, sym, true, not, ◌||◌, ltb, ◌==◌, not-false, or_false}
use roshi.Common.Result.{ok, >>=-eq-ok, ok_inj, fail_if_inv, fail_if}
use roshi.Common.Error.{
  program_error, missing_required_signature, invalid_token_account, invalid_seeds, illegal_owner,
  invalid_account_data, unauthorized_action,
}
use roshi.Common.Bytes.{Key, bytes_eq, bytes_eq→eq, length}
use roshi.Vault.{Vault, Role, has_role, authority_for_role, verify_idle_sub_account}
use roshi.Token.{
  Account, byte_at, slice, is_token_program, token_account_len, verify_token_account_mint,
  verify_token_account_mint_and_owner,
}
use roshi.NavReport.{Signer, verify_role}
use roshi.Records.{Action}
use roshi.Accounts.{
  Platform, system_program_id, find_sub_account_address, find_action_address, verify_sub_account,
  verify_for_vault,
}

pub verify_role_inv :
    (v : Vault) (role : Role) (s : Signer) {u : Unit {0}}
    → verify_role v role s ≡ ok u
    → (s.is_signer ≡ true) × (s.key ≡ authority_for_role v role)
unfolding verify_role has_role
verify_role_inv v role s h =
    let (_, signed, owned) = >>=-eq-ok (fail_if (not s.is_signer) missing_required_signature) _ h in
    (
      not-false _ (fail_if_inv _ _ signed),
      sym (bytes_eq→eq (authority_for_role v role) s.key (not-false _ (fail_if_inv _ _ owned))),
    )

-- The mint of a token account is its first 32 bytes.
pub verify_token_account_mint_inv :
    (a : Account) (mint : Key) {u : Unit {0}}
    → verify_token_account_mint a mint ≡ ok u
    → slice a.bytes 0 32 ≡ mint
unfolding verify_token_account_mint
verify_token_account_mint_inv a mint h =
    let (_, _, h) =
      >>=-eq-ok (fail_if (not (is_token_program a.owner)) (program_error invalid_token_account)) _
        h in
    let (_, _, h) =
      >>=-eq-ok
        (fail_if (ltb (length a.bytes) token_account_len || not (byte_at a.bytes 108 == 1))
          (program_error invalid_token_account))
        _ h in
    bytes_eq→eq (slice a.bytes 0 32) mint (not-false _ (fail_if_inv _ _ h))

-- Its owner is the next 32.
pub verify_token_account_mint_and_owner_inv :
    (a : Account) (mint owner : Key) {u : Unit {0}}
    → verify_token_account_mint_and_owner a mint owner ≡ ok u
    → (slice a.bytes 0 32 ≡ mint) × (slice a.bytes 32 32 ≡ owner)
unfolding verify_token_account_mint_and_owner
verify_token_account_mint_and_owner_inv a mint owner h =
    let (_, minted, h) = >>=-eq-ok (verify_token_account_mint a mint) _ h in
    (
      verify_token_account_mint_inv a mint minted,
      bytes_eq→eq (slice a.bytes 32 32) owner (not-false _ (fail_if_inv _ _ h)),
    )

pub verify_idle_sub_account_inv :
    (v : Vault) (sub_account : ℕ) {u : Unit {0}}
    → verify_idle_sub_account v sub_account ≡ ok u
    → (sub_account ≡ v.deposit_sub_account) ⊎ (sub_account ≡ v.withdraw_sub_account)
unfolding verify_idle_sub_account
verify_idle_sub_account_inv v sub_account h = ground (arith, h)

module _ (p : Platform) where
  pub verify_sub_account_inv :
      (vault : Key) (index : ℕ) (sub_account : Account) {bump : ℕ}
      → verify_sub_account p vault index sub_account ≡ ok bump
      → (sub_account.key ≡ (find_sub_account_address p vault index).0)
        × (bump ≡ (find_sub_account_address p vault index).1)
  unfolding verify_sub_account
  verify_sub_account_inv vault index sub_account {bump} h =
      let expected = find_sub_account_address p vault index in
      let (_, at_address, h) =
        >>=-eq-ok (fail_if (not (bytes_eq sub_account.key expected.0)) invalid_seeds) _ h in
      let (_, _, h) =
        >>=-eq-ok (fail_if (not (bytes_eq sub_account.owner system_program_id)) illegal_owner) _
          h in
      let (_, _, made) =
        >>=-eq-ok
          (fail_if (not (length sub_account.bytes == 0) || sub_account.executable)
            invalid_account_data)
          _ h in
      (
        bytes_eq→eq sub_account.key expected.0 (not-false _ (fail_if_inv _ _ at_address)),
        sym (ok_inj expected.1 bump made),
      )

  pub verify_for_vault_inv :
      (action : Action) (vault action_key : Key) {u : Unit {0}}
      → verify_for_vault p action vault action_key ≡ ok u
      → (action.vault ≡ vault) × (action_key ≡ (find_action_address p vault action.action_hash).0)
  unfolding verify_for_vault
  verify_for_vault_inv action vault action_key h =
      let (_, bound, h) =
        >>=-eq-ok (fail_if (not (bytes_eq action.vault vault)) (program_error unauthorized_action))
          _ h in
      let (at_address, _) = or_false _ _ (fail_if_inv _ _ h) in
      (
        bytes_eq→eq action.vault vault (not-false _ (fail_if_inv _ _ bound)),
        bytes_eq→eq action_key _ (not-false _ at_address),
      )
