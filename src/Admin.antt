-- ===== src/Admin.antt =====
-- crates/roshi/src/instructions/admin: the vault's administration. The vault comes loaded, and is
-- returned as it is stored; every update goes through `update_writable_vault_as_admin` of
-- accounts/vault.rs.
pub mod Scope
pub mod Flash
pub mod Custody
use roshi.Common.{ℕ, Bool, not, ltb, ◌==◌, ◌||◌, if◌then◌else◌}
use roshi.Common.Result.{ok, err, ◌>>=◌, ◌>>◌, fail_if, ok_or}
use roshi.Common.Error.{
  program_error, invalid_account_data, invalid_write_down_amount, invalid_token_account,
}
use roshi.Common.Word.{checked_sub}
use roshi.Common.Bytes.{Key, bytes_eq}
use roshi.Oracle.{OracleConfig}
use roshi.Vault.{Vault, VaultControls, Role, ProgramResult, flag}
use roshi.Vault.Config.{validate_state}
use roshi.Token.{Account, verify_token_account_mint}
use roshi.NavReport.{Signer, verify_role}

-- The caller's signature and the vault account's writable flag.
pub record AdminAccounts : Type 0 where
  pub admin : Signer
  pub vault_is_writable : Bool

-- `WritableVaultRoleContext::load`, and `store`, which writes only a valid vault.
unfoldable pub load_writable : Vault → Role → AdminAccounts → ProgramResult (Unit {0})
load_writable v role a = do
  fail_if (not a.vault_is_writable) invalid_account_data
  verify_role v role a.admin

unfoldable pub store : Vault → ProgramResult Vault
store v = do validate_state v; ok v

unfoldable pub update_writable_vault_as_admin :
    Vault → AdminAccounts → (Vault → ProgramResult Vault) → ProgramResult Vault
update_writable_vault_as_admin v a update = do
  load_writable v Role.admin a
  updated ← update v
  store updated

pub record SetPauseFlagsArgs : Type 0 where
  pub deposits_paused : Bool
  pub withdrawals_paused : Bool
  pub manage_paused : Bool

pub record SetVaultAccessArgs : Type 0 where
  pub private : Bool
  pub access_merkle_root : Key

pub record UpdateVaultConfigArgs : Type 0 where
  pub treasury : Key
  pub base_oracle : OracleConfig
  pub deposit_sub_account : ℕ
  pub withdraw_sub_account : ℕ
  pub performance_fee_bps : ℕ
  pub withdrawal_buffer_bps : ℕ
  pub deposit_cap : ℕ
  pub controls : VaultControls
  pub external_enabled : Bool

unfoldable pub set_deposits_paused : Vault → Bool → Vault
set_deposits_paused v paused = record v { deposits_paused_flag = flag paused }

unfoldable pub set_withdrawals_paused : Vault → Bool → Vault
set_withdrawals_paused v paused = record v { withdrawals_paused_flag = flag paused }

unfoldable pub set_manage_paused : Vault → Bool → Vault
set_manage_paused v paused = record v { manage_paused_flag = flag paused }

unfoldable pub set_private : Vault → Bool → Vault
set_private v private = record v { private_flag = flag private }

unfoldable pub set_external_enabled : Vault → Bool → Vault
set_external_enabled v enabled = record v { external_enabled_flag = flag enabled }

unfoldable pub try_set_pause_flags : Vault → AdminAccounts → SetPauseFlagsArgs → ProgramResult Vault
try_set_pause_flags v a args = update_writable_vault_as_admin v a λ v. ok (
    set_manage_paused
      (set_withdrawals_paused (set_deposits_paused v args.deposits_paused) args.withdrawals_paused)
      args.manage_paused)

unfoldable pub try_set_vault_access :
    Vault → AdminAccounts → SetVaultAccessArgs → ProgramResult Vault
try_set_vault_access v a args =
    update_writable_vault_as_admin v a
      λ v. ok (record (set_private v args.private) { access_merkle_root = args.access_merkle_root })

unfoldable pub try_set_strategist : Vault → AdminAccounts → Key → ProgramResult Vault
try_set_strategist v a strategist =
    update_writable_vault_as_admin v a λ v. ok (record v { strategist = strategist })

unfoldable pub try_set_swap_authority : Vault → AdminAccounts → Key → ProgramResult Vault
try_set_swap_authority v a swap_authority =
    update_writable_vault_as_admin v a λ v. ok (record v { swap_authority = swap_authority })

unfoldable pub try_set_nav_authority : Vault → AdminAccounts → Key → ProgramResult Vault
try_set_nav_authority v a nav_authority =
    update_writable_vault_as_admin v a λ v. ok (record v { nav_authority = nav_authority })

unfoldable pub try_set_withdrawal_authority : Vault → AdminAccounts → Key → ProgramResult Vault
try_set_withdrawal_authority v a withdrawal_authority =
    update_writable_vault_as_admin v a
      λ v. ok (record v { withdrawal_authority = withdrawal_authority })

unfoldable pub try_transfer_vault_authority : Vault → AdminAccounts → Key → ProgramResult Vault
try_transfer_vault_authority v a new_authority =
    update_writable_vault_as_admin v a λ v. ok (record v { admin = new_authority })

unfoldable pub write_down : ℕ → Vault → ProgramResult Vault
write_down amount v = do
  fees_payable ← ok_or (checked_sub v.fees_payable amount) (program_error invalid_write_down_amount)
  ok (record v { fees_payable = fees_payable })

unfoldable pub try_write_down_fees : Vault → AdminAccounts → ℕ → ProgramResult Vault
try_write_down_fees v a amount = do
  fail_if (amount == 0) (program_error invalid_write_down_amount)
  update_writable_vault_as_admin v a (write_down amount)

unfoldable pub configured : Vault → UpdateVaultConfigArgs → Vault
configured v args =
    set_external_enabled
      (record v {
        treasury = args.treasury;
        deposit_sub_account = args.deposit_sub_account;
        withdraw_sub_account = args.withdraw_sub_account;
        base_oracle = args.base_oracle;
        performance_fee_bps = args.performance_fee_bps;
        withdrawal_buffer_bps = args.withdrawal_buffer_bps;
        deposit_cap = args.deposit_cap;
        controls = args.controls;
      })
      args.external_enabled

unfoldable pub try_update_vault_config :
    Vault → AdminAccounts → Account → UpdateVaultConfigArgs → ProgramResult Vault
try_update_vault_config v a treasury args = do
  load_writable v Role.admin a
  fail_if (not (bytes_eq treasury.key args.treasury)) (program_error invalid_token_account)
  verify_token_account_mint treasury v.base_mint
  store (configured v args)

-- The admin's instructions on a vault.
pub data AdminInstruction : Type 0 where
  set_pause_flags : SetPauseFlagsArgs → AdminInstruction
  set_vault_access : SetVaultAccessArgs → AdminInstruction
  set_strategist : Key → AdminInstruction
  set_swap_authority : Key → AdminInstruction
  set_nav_authority : Key → AdminInstruction
  set_withdrawal_authority : Key → AdminInstruction
  transfer_vault_authority : Key → AdminInstruction
  write_down_fees : ℕ → AdminInstruction
  update_vault_config : Account → UpdateVaultConfigArgs → AdminInstruction

-- The arms of `try_process_instruction` that administer a vault and move nothing: those of its
-- authorities, which stand in a row, and the pause flags, the access, the fees written down and the
-- configuration, which stand among others.
unfoldable pub try_administer : Vault → AdminAccounts → AdminInstruction → ProgramResult Vault
try_administer v a (set_pause_flags args) = try_set_pause_flags v a args
try_administer v a (set_vault_access args) = try_set_vault_access v a args
try_administer v a (set_strategist key) = try_set_strategist v a key
try_administer v a (set_swap_authority key) = try_set_swap_authority v a key
try_administer v a (set_nav_authority key) = try_set_nav_authority v a key
try_administer v a (set_withdrawal_authority key) = try_set_withdrawal_authority v a key
try_administer v a (transfer_vault_authority key) = try_transfer_vault_authority v a key
try_administer v a (write_down_fees amount) = try_write_down_fees v a amount
try_administer v a (update_vault_config treasury args) = try_update_vault_config v a treasury args
