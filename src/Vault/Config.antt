-- ===== src/Vault/Config.antt =====
-- vault.rs: construction and validation of the vault, and its tag.
pub mod Validity
use roshi.Common.{
  ℕ, ◌+◌, ◌-◌, Bool, true, false, not, ◌||◌, List, [], ◌∷◌, ◌++◌, Option, ltb, leb, ◌==◌,
  if◌then◌else◌,
}
use roshi.Common.Result.{Result, ok, err, ◌>>=◌, ◌>>◌, fail_if, ok_or, map_err}
use roshi.Common.Error.{
  ProgramError, program_error, lift, invalid_argument, invalid_decimals, invalid_vault_tag,
  invalid_vault_state,
}
use roshi.Common.Int.{ℤ, pos, ltb_ℤ}
use roshi.Common.Bytes.{Bytes, Key, bytes_eq, length, take, replicate}
use roshi.Math.{validate_percentage_bps, share_decimals}
use roshi.Oracle.{OracleConfig, validate}
use roshi.Vault.{Vault, VaultControls, ProgramResult, bool_flag, flag}

unfoldable pub validate_controls : VaultControls → ProgramResult (Unit {0})
validate_controls c = do
  lift (validate_percentage_bps c.atomic_redeem_fee_bps)
  lift (validate_percentage_bps c.max_swap_slippage_bps)

unfoldable pub validate_config : Key → Key → ℕ → ℕ → ℕ → ProgramResult (Unit {0})
validate_config base_mint share_mint base_decimals performance_fee_bps withdrawal_buffer_bps = do
  lift (validate_percentage_bps performance_fee_bps)
  lift (validate_percentage_bps withdrawal_buffer_bps)
  fail_if (bytes_eq base_mint share_mint) invalid_argument
  fail_if (ltb share_decimals base_decimals) (program_error invalid_decimals)

abbrev pub max_tag_len : ℕ
max_tag_len = 32

unfoldable pub validate_tag : Bytes → ProgramResult (Unit {0})
validate_tag tag =
    fail_if (length tag == 0 || ltb max_tag_len (length tag)) (program_error invalid_vault_tag)

unfoldable pub pack_tag : Bytes → ProgramResult (Bytes × ℕ)
pack_tag tag = do validate_tag tag; ok (tag ++ replicate (max_tag_len - length tag) 0, length tag)

unfoldable pub unpack_tag : Bytes → ℕ → ProgramResult Bytes
unpack_tag tag tag_len = do
  fail_if (ltb (length tag) tag_len) (program_error invalid_vault_tag)
  validate_tag (take tag_len tag)
  ok (take tag_len tag)

unfoldable pub tag_seed : Vault → ProgramResult Bytes
tag_seed v = unpack_tag v.tag v.tag_len

unfoldable pub validate_oracle : OracleConfig → ProgramResult (Unit {0})
validate_oracle c = map_err (λ _. program_error invalid_vault_state) (validate c)

unfoldable pub validate_flags : Vault → ProgramResult (Unit {0})
validate_flags v = do
  bool_flag v.deposits_paused_flag
  bool_flag v.withdrawals_paused_flag
  bool_flag v.manage_paused_flag
  bool_flag v.private_flag
  bool_flag v.external_enabled_flag
  ok tt

unfoldable pub validate_state : Vault → ProgramResult (Unit {0})
validate_state v = do
  unpack_tag v.tag v.tag_len
  validate_config v.base_mint v.share_mint v.base_decimals v.performance_fee_bps
      v.withdrawal_buffer_bps
  validate_oracle v.base_oracle
  validate_controls v.controls
  fail_if (ltb v.total_assets v.locked_profit) (program_error invalid_vault_state)
  fail_if (ltb_ℤ v.profit_unlock_end_ts v.profit_unlock_start_ts)
      (program_error invalid_vault_state)
  validate_flags v

-- The arguments of `Vault::new`, under the source's names.
pub record NewVault : Type 0 where
  pub tag : Bytes
  pub admin : Key
  pub strategist : Key
  pub swap_authority : Key
  pub nav_authority : Key
  pub withdrawal_authority : Key
  pub base_mint : Key
  pub share_mint : Key
  pub base_decimals : ℕ
  pub base_oracle : OracleConfig
  pub deposit_sub_account : ℕ
  pub withdraw_sub_account : ℕ
  pub treasury : Key
  pub performance_fee_bps : ℕ
  pub withdrawal_buffer_bps : ℕ
  pub deposit_cap : ℕ
  pub controls : VaultControls
  pub private : Bool
  pub access_merkle_root : Key
  pub bump : ℕ

unfoldable pub initial_vault : NewVault → Bytes → ℕ → Vault
initial_vault a tag tag_len = record {
  base_oracle = a.base_oracle;
  total_assets = 0;
  deposit_cap = a.deposit_cap;
  external_assets = 0;
  pending_withdrawal_assets = 0;
  fees_payable = 0;
  high_watermark = 0;
  report_epoch = 0;
  requested_withdrawal_shares = 0;
  last_update_ts = pos 0;
  locked_profit = 0;
  profit_unlock_start_ts = pos 0;
  profit_unlock_end_ts = pos 0;
  tag = tag;
  admin = a.admin;
  strategist = a.strategist;
  swap_authority = a.swap_authority;
  nav_authority = a.nav_authority;
  withdrawal_authority = a.withdrawal_authority;
  base_mint = a.base_mint;
  share_mint = a.share_mint;
  treasury = a.treasury;
  last_report_hash = replicate 32 0;
  access_merkle_root = a.access_merkle_root;
  controls = a.controls;
  performance_fee_bps = a.performance_fee_bps;
  withdrawal_buffer_bps = a.withdrawal_buffer_bps;
  tag_len = tag_len;
  base_decimals = a.base_decimals;
  deposit_sub_account = a.deposit_sub_account;
  withdraw_sub_account = a.withdraw_sub_account;
  deposits_paused_flag = flag false;
  withdrawals_paused_flag = flag false;
  manage_paused_flag = flag false;
  private_flag = flag a.private;
  external_enabled_flag = flag false;
  bump = a.bump;
}

unfoldable pub new_vault : NewVault → ProgramResult Vault
new_vault a = do
  validate_config a.base_mint a.share_mint a.base_decimals a.performance_fee_bps
      a.withdrawal_buffer_bps
  validate_controls a.controls
  validate_oracle a.base_oracle
  (tag, tag_len) ← pack_tag a.tag
  ok (initial_vault a tag tag_len)
