-- ===== src/Deposit.antt =====
-- crates/roshi/src/instructions/user/deposit.rs: a deposit, with the result of `resolve_base_atoms`
-- (the worth of the deposit in base atoms, or its error) and the clock as arguments.
pub mod Books
use roshi.Common.{ℕ, ◌+◌, Bool, not, ◌&&◌, List, [], ◌∷◌, ltb, ◌==◌, if◌then◌else◌}
use roshi.Common.Result.{ok, err, ◌>>=◌, ◌>>◌, fail_if}
use roshi.Common.Error.{
  program_error, lift, vault_paused, invalid_access_proof, zero_share_price, slippage_exceeded,
}
use roshi.Common.Int.{ℤ}
use roshi.Common.Bytes.{Bytes, Key, length}
use roshi.Math.{share_price_from_assets, shares_for_deposit}
use roshi.Vault.{
  Vault, ProgramResult, bool_flag, total_assets_after_deposit, economic_share_supply,
  effective_total_assets,
}
use roshi.Vault.Config.{tag_seed}
use roshi.Access.{allows_depositor, max_access_proof_len}
use roshi.Token.{mint_supply}
use roshi.Runtime.{Runtime}
use roshi.Tickets.{State}
use roshi.Redeem.{vault_signer_seeds}

pub record DepositArgs : Type 0 where
  pub asset_mint : Key
  pub amount : ℕ
  pub min_shares_out : ℕ
  pub access_proof : List Key

pub record DepositContext : Type 0 where
  pub depositor : Key
  pub vault_account : Key
  pub source : Key
  pub custody : Key
  pub share_dest : Key
  pub share_mint : Key

-- A nonempty vault whose shares are priced at zero takes no deposit.
unfoldable pub verify_share_price : ℕ → ℕ → ProgramResult (Unit {0})
verify_share_price effective supply = if supply == 0 then ok tt else do
  price ← lift (share_price_from_assets effective supply)
  fail_if (price == 0) (program_error zero_share_price)

-- The pricing of a deposit, at the effective assets.
unfoldable pub price_deposit : Vault → ℕ → ℕ → ℕ → ℤ → ProgramResult ℕ
price_deposit v base_atoms share_supply min_shares_out now = do
  supply ← economic_share_supply v share_supply
  effective ← effective_total_assets v now
  verify_share_price effective supply
  shares ← lift (shares_for_deposit base_atoms effective supply v.base_decimals)
  fail_if (ltb shares min_shares_out) (program_error slippage_exceeded)
  ok shares

module _ {W : Type 0} (r : Runtime W) (hashv : List Bytes → Key) where
  unfoldable pub execute_deposit :
      State W → DepositContext → DepositArgs → ProgramResult ℕ → ℤ → ProgramResult (State W)
  execute_deposit s c args resolve_base_atoms now = do
    paused ← bool_flag s.vault.deposits_paused_flag
    fail_if paused (program_error vault_paused)
    fail_if (not (allows_depositor hashv s.vault c.depositor args.access_proof))
        (program_error invalid_access_proof)
    base_atoms ← resolve_base_atoms
    total ← total_assets_after_deposit s.vault base_atoms
    share_supply ← mint_supply (r.account s.runtime c.share_mint)
    shares ← price_deposit s.vault base_atoms share_supply args.min_shares_out now
    w ← r.transfer s.runtime c.source c.custody c.depositor args.amount []
    tag ← tag_seed s.vault
    w' ←
        r.mint_to w c.share_mint c.share_dest c.vault_account shares
          (vault_signer_seeds s.vault tag)
    ok (record s { runtime = w'; vault = record s.vault { total_assets = total } })

  unfoldable pub try_deposit :
      State W → DepositContext → DepositArgs → ProgramResult ℕ → ℤ → ProgramResult (State W)
  try_deposit s c args resolve_base_atoms now = do
    fail_if (ltb max_access_proof_len (length args.access_proof))
        (program_error invalid_access_proof)
    execute_deposit s c args resolve_base_atoms now
