-- ===== src/Admin/Scope.antt =====
-- admin: what an administrative instruction may change, and who may send it.
use roshi.Common.{ℕ, ◌+◌, ◌≤◌, ◌≡◌, refl, sym, subst, arith, true, not, ◌==◌, not-false}
use roshi.Common.Result.{ok, >>=-eq-ok, ok_inj, fail_if_inv, fail_if, ok_or}
use roshi.Common.Error.{
  program_error, invalid_account_data, invalid_write_down_amount, invalid_token_account,
  missing_required_signature,
}
use roshi.Common.Int.{ℤ}
use roshi.Common.Word.{u64, checked_sub, ok_or-checked_sub}
use roshi.Common.Bytes.{Bytes, Key, bytes_eq, bytes_eq→eq}
use roshi.Vault.{Vault, Role, ProgramResult, authority_for_role, has_role}
use roshi.Vault.Config.{validate_state}
use roshi.Token.{verify_token_account_mint}
use roshi.NavReport.{verify_role}
use roshi.Admin.{
  AdminAccounts, load_writable, store, update_writable_vault_as_admin, set_deposits_paused,
  set_withdrawals_paused, set_manage_paused, set_private, set_external_enabled, try_set_pause_flags,
  try_set_vault_access, try_set_strategist, try_set_swap_authority, try_set_nav_authority,
  try_set_withdrawal_authority, try_transfer_vault_authority, write_down, try_write_down_fees,
  configured, try_update_vault_config, AdminInstruction, set_pause_flags, set_vault_access,
  set_strategist, set_swap_authority, set_nav_authority, set_withdrawal_authority,
  transfer_vault_authority, write_down_fees, update_vault_config, try_administer,
}

-- What the vault owes and owns, apart from its fees, with its identity.
pub record Books : Type 0 where
  pub total_assets : ℕ
  pub external_assets : ℕ
  pub pending_withdrawal_assets : ℕ
  pub requested_withdrawal_shares : ℕ
  pub locked_profit : ℕ
  pub profit_unlock_start_ts : ℤ
  pub profit_unlock_end_ts : ℤ
  pub high_watermark : ℕ
  pub report_epoch : ℕ
  pub last_update_ts : ℤ
  pub base_mint : Key
  pub share_mint : Key
  pub base_decimals : ℕ
  pub tag : Bytes
  pub bump : ℕ

abbrev pub books_of : Vault → Books
books_of v = record {
  total_assets = v.total_assets;
  external_assets = v.external_assets;
  pending_withdrawal_assets = v.pending_withdrawal_assets;
  requested_withdrawal_shares = v.requested_withdrawal_shares;
  locked_profit = v.locked_profit;
  profit_unlock_start_ts = v.profit_unlock_start_ts;
  profit_unlock_end_ts = v.profit_unlock_end_ts;
  high_watermark = v.high_watermark;
  report_epoch = v.report_epoch;
  last_update_ts = v.last_update_ts;
  base_mint = v.base_mint;
  share_mint = v.share_mint;
  base_decimals = v.base_decimals;
  tag = v.tag;
  bump = v.bump;
}

-- The same books, and no more fees than there were.
abbrev pub KeepsBooks : Vault → Vault → Type 0
KeepsBooks v v' = (books_of v' ≡ books_of v) × (v'.fees_payable ≤ v.fees_payable)

-- Who sent it, and what is stored.
pub record IsAdministered (v : Vault) (a : AdminAccounts) (v' : Vault) : Type 0 where
  pub signed : a.admin.is_signer ≡ true
  pub by_admin : a.admin.key ≡ v.admin
  pub valid : validate_state v' ≡ ok tt
  pub keeps : KeepsBooks v v'

load_writable_inv :
    (v : Vault) (a : AdminAccounts) {u : Unit {0}}
    → load_writable v Role.admin a ≡ ok u
    → (a.admin.is_signer ≡ true) × (a.admin.key ≡ v.admin)
unfolding load_writable verify_role has_role authority_for_role
load_writable_inv v a h =
    let (_, _, h) = >>=-eq-ok (fail_if (not a.vault_is_writable) invalid_account_data) _ h in
    let (_, signed, owned) =
      >>=-eq-ok (fail_if (not a.admin.is_signer) missing_required_signature) _ h in
    (
      not-false _ (fail_if_inv _ _ signed),
      sym (bytes_eq→eq v.admin a.admin.key (not-false _ (fail_if_inv _ _ owned))),
    )

store_inv : (v : Vault) {v' : Vault} → store v ≡ ok v' → (v ≡ v') × (validate_state v' ≡ ok tt)
unfolding store
store_inv v {v'} h =
    let (_, valid, made) = >>=-eq-ok (validate_state v) _ h in
    let same = ok_inj v v' made in (same, subst (λ y. validate_state y ≡ ok tt) same valid)

updated :
    (v : Vault) (a : AdminAccounts) (update : Vault → ProgramResult Vault) {v' : Vault}
    → ((u : Vault) → update v ≡ ok u → KeepsBooks v u)
    → update_writable_vault_as_admin v a update ≡ ok v'
    → IsAdministered v a v'
unfolding update_writable_vault_as_admin
updated v a update {v'} keeps h =
    let (_, loaded, h) = >>=-eq-ok (load_writable v Role.admin a) _ h in
    let (u, made, stored) = >>=-eq-ok (update v) _ h in
    let (signed, by_admin) = load_writable_inv v a loaded in
    let (same, valid) = store_inv u stored in
    record {
      signed = signed;
      by_admin = by_admin;
      valid = valid;
      keeps = subst (KeepsBooks v) same (keeps u made);
    }

-- An update of fields that the books do not have.
set :
    (v u w : Vault)
    → KeepsBooks v u
    → let r : ProgramResult Vault = ok u in r ≡ ok w → KeepsBooks v w
set v u w keeps made = subst (KeepsBooks v) (ok_inj u w made) keeps

kept : (v : Vault) → KeepsBooks v v
kept v = (refl, omega arith)

write_down-KeepsBooks : (amount : ℕ) (v w : Vault) → write_down amount v ≡ ok w → KeepsBooks v w
unfolding write_down
write_down-KeepsBooks amount v w h =
    let (fees, left, made) =
      >>=-eq-ok
        (ok_or (checked_sub v.fees_payable amount) (program_error invalid_write_down_amount)) _ h in
    let sum : fees + amount ≡ v.fees_payable = ok_or-checked_sub u64 v.fees_payable amount _ left in
    set v (record v { fees_payable = fees }) w (refl, omega (arith, sum)) made

-- Every administrative instruction that goes through was signed by the vault's admin, stores a
-- valid vault, and leaves the books as they are; it never adds to the fees.
pub try_administer-IsAdministered :
    (v : Vault) (a : AdminAccounts) (i : AdminInstruction) {v' : Vault}
    → try_administer v a i ≡ ok v'
    → IsAdministered v a v'
unfolding try_administer try_set_pause_flags try_set_vault_access try_set_strategist
    try_set_swap_authority try_set_nav_authority try_set_withdrawal_authority
    try_transfer_vault_authority try_write_down_fees try_update_vault_config set_deposits_paused
    set_withdrawals_paused set_manage_paused set_private set_external_enabled configured
try_administer-IsAdministered v a (set_pause_flags args) h =
    updated v a _ (λ u made. set v _ u (kept v) made) h
try_administer-IsAdministered v a (set_vault_access args) h =
    updated v a _ (λ u made. set v _ u (kept v) made) h
try_administer-IsAdministered v a (set_strategist key) h =
    updated v a _ (λ u made. set v _ u (kept v) made) h
try_administer-IsAdministered v a (set_swap_authority key) h =
    updated v a _ (λ u made. set v _ u (kept v) made) h
try_administer-IsAdministered v a (set_nav_authority key) h =
    updated v a _ (λ u made. set v _ u (kept v) made) h
try_administer-IsAdministered v a (set_withdrawal_authority key) h =
    updated v a _ (λ u made. set v _ u (kept v) made) h
try_administer-IsAdministered v a (transfer_vault_authority key) h =
    updated v a _ (λ u made. set v _ u (kept v) made) h
try_administer-IsAdministered v a (write_down_fees amount) h =
    let (_, _, h) =
      >>=-eq-ok (fail_if (amount == 0) (program_error invalid_write_down_amount)) _ h in
    updated v a (write_down amount) (λ u made. write_down-KeepsBooks amount v u made) h
try_administer-IsAdministered v a (update_vault_config treasury args) {v'} h =
    let (_, loaded, h) = >>=-eq-ok (load_writable v Role.admin a) _ h in
    let (_, _, h) =
      >>=-eq-ok
        (fail_if (not (bytes_eq treasury.key args.treasury)) (program_error invalid_token_account))
        _ h in
    let (_, _, stored) = >>=-eq-ok (verify_token_account_mint treasury v.base_mint) _ h in
    let (signed, by_admin) = load_writable_inv v a loaded in
    let (same, valid) = store_inv (configured v args) stored in
    record {
      signed = signed;
      by_admin = by_admin;
      valid = valid;
      keeps = subst (KeepsBooks v) same (kept v);
    }
