-- ===== src/AtomicRedeem.antt =====
-- crates/roshi/src/instructions/execution/atomic_redeem.rs, the settlement of an atomic redeem: the
-- payout leaves the custody, the shares are burned, and the vault is debited.
use roshi.Common.{ℕ}
use roshi.Common.Result.{ok, ◌>>=◌, ◌>>◌}
use roshi.Common.Int.{ℤ}
use roshi.Common.Bytes.{Key}
use roshi.Vault.{ProgramResult, debit_assets_at_effective}
use roshi.Vault.Config.{validate_state}
use roshi.Runtime.{Runtime}
use roshi.Tickets.{State}
use roshi.Withdrawals.{sub_account_signer_seeds}

-- The keys of the accounts that the settlement uses, and the bump of the sub-account.
pub record AtomicRedeemContext : Type 0 where
  pub owner : Key
  pub vault_account : Key
  pub user_share_account : Key
  pub share_mint : Key
  pub recipient_token_account : Key
  pub custody : Key
  pub sub_account : Key
  pub sub_account_bump : ℕ

unfoldable pub settle_atomic_redeem :
    {W : Type 0}
    → Runtime W
    → State W
    → AtomicRedeemContext
    → ℕ
    → ℕ
    → ℕ
    → ℤ
    → ProgramResult (State W)
settle_atomic_redeem r s c sub_account_index shares payout now = do
  w ←
      r.transfer s.runtime c.custody c.recipient_token_account c.sub_account payout
        (sub_account_signer_seeds c.vault_account sub_account_index c.sub_account_bump)
  w ← r.burn w c.user_share_account c.share_mint c.owner shares
  v ← debit_assets_at_effective s.vault payout now
  validate_state v
  ok (record s { vault = v; runtime = w })
