-- ===== src/Deposit/Books.antt =====
-- deposit.rs: what a deposit that succeeds has checked, and what it does to the books.
use roshi.Common.{
  ℕ, ◌+◌, ◌≤◌, ◌<◌, ◌≡◌, ◌⊎◌, subst, ap, refl, arith, true, false, not, List, [], ltb, ◌∙◌,
}
use roshi.Common.Result.{ok, ok_inj, >>=-eq-ok, fail_if, ok_or}
use roshi.Common.Error.{
  program_error, lift, lift_ok, vault_paused, invalid_access_proof, slippage_exceeded, overflow,
}
use roshi.Common.Int.{ℤ}
use roshi.Common.Word.{u64, checked_add, ok_or-checked_add}
use roshi.Common.Bytes.{Bytes, Key, length}
use roshi.Math.{shares_for_deposit}
use roshi.Vault.{
  Vault, ProgramResult, bool_flag, total_assets_after_deposit, economic_share_supply,
  effective_total_assets,
}
use roshi.Vault.Config.{tag_seed}
use roshi.Access.{allows_depositor, max_access_proof_len}
use roshi.Token.{mint_supply}
use roshi.Runtime.{Runtime, TokenLaws}
use roshi.Tickets.{State}
use roshi.Redeem.{vault_signer_seeds}
use roshi.Deposit.{
  DepositArgs, DepositContext, verify_share_price, price_deposit, execute_deposit, try_deposit,
}

-- The total after a deposit is exact and within the cap, where there is one.
pub total_assets_after_deposit_inv :
    (v : Vault) (b : ℕ) {total : ℕ}
    → total_assets_after_deposit v b ≡ ok total
    → (total ≡ v.total_assets + b) × (total < u64) × ((v.deposit_cap ≡ 0) ⊎ (total ≤ v.deposit_cap))
unfolding total_assets_after_deposit
total_assets_after_deposit_inv v b {total} h =
    let (projected, sum, h) =
      >>=-eq-ok (ok_or (checked_add u64 v.total_assets b) (program_error overflow)) _ h in
    let (exact, fits) = ok_or-checked_add u64 v.total_assets b _ sum in
    ground (arith, h, exact, fits)

-- What a priced deposit has established.
pub record IsPriced (v : Vault) (b supply min_shares_out : ℕ) (now : ℤ) (shares : ℕ) : Type 0 where
  pub effective : ℕ
  pub economic : ℕ
  pub read : effective_total_assets v now ≡ ok effective
  pub counted : economic_share_supply v supply ≡ ok economic
  pub minted : shares_for_deposit b effective economic v.base_decimals ≡ ok shares
  pub enough : min_shares_out ≤ shares

price_deposit_inv :
    (v : Vault) (b supply min_shares_out : ℕ) (now : ℤ) {shares : ℕ}
    → price_deposit v b supply min_shares_out now ≡ ok shares
    → IsPriced v b supply min_shares_out now shares
unfolding price_deposit
price_deposit_inv v b supply min_shares_out now {shares} h =
    let (economic, counted, h) = >>=-eq-ok (economic_share_supply v supply) _ h in
    let (effective, read, h) = >>=-eq-ok (effective_total_assets v now) _ h in
    let (_, _, h) = >>=-eq-ok (verify_share_price effective economic) _ h in
    let (n, minted, h) =
      >>=-eq-ok (lift (shares_for_deposit b effective economic v.base_decimals)) _ h in
    let priced : shares_for_deposit b effective economic v.base_decimals ≡ ok n =
      lift_ok (shares_for_deposit b effective economic v.base_decimals) minted in
    let (_, slip, made) =
      >>=-eq-ok (fail_if (ltb n min_shares_out) (program_error slippage_exceeded)) _ h in
    let same : n ≡ shares = ok_inj n shares made in
    record {
      effective = effective;
      economic = economic;
      read = read;
      counted = counted;
      minted =
          subst (λ x. shares_for_deposit b effective economic v.base_decimals ≡ ok x) same priced;
      enough = ground (arith, slip, same);
    }

-- What a deposit worth `b` base atoms has done: the vault's total assets have grown by `b`, within
-- the cap, the share supply by the shares that `b` is worth at the effective assets, at least the
-- minimum asked for, and the counter of requested shares and the tickets are as they were.
pub record Deposited {W : Type 0} (r : Runtime W) (s : State W) (c : DepositContext)
    (args : DepositArgs) (now : ℤ) (b : ℕ) (s' : State W) : Type 0 where
  pub supply : ℕ
  pub shares : ℕ
  pub priced : IsPriced s.vault b supply args.min_shares_out now shares
  pub read : mint_supply (r.account s.runtime c.share_mint) ≡ ok supply
  pub read' : mint_supply (r.account s'.runtime c.share_mint) ≡ ok (supply + shares)
  pub assets : s'.vault.total_assets ≡ s.vault.total_assets + b
  pub capped : (s.vault.deposit_cap ≡ 0) ⊎ (s'.vault.total_assets ≤ s.vault.deposit_cap)
  pub requested : s'.vault.requested_withdrawal_shares ≡ s.vault.requested_withdrawal_shares
  pub tickets : s'.tickets ≡ s.tickets

module _ {W : Type 0} (r : Runtime W) (hashv : List Bytes → Key) where
  execute_deposit_lem :
      (s : State W) (c : DepositContext) (args : DepositArgs) (resolved : ProgramResult ℕ) (now : ℤ)
      {s' : State W}
      → TokenLaws r c.share_mint
      → execute_deposit r hashv s c args resolved now ≡ ok s'
      → (bool_flag s.vault.deposits_paused_flag ≡ ok false)
        × (allows_depositor hashv s.vault c.depositor args.access_proof ≡ true)
        × ((b : ℕ) × (resolved ≡ ok b) × Deposited r s c args now b s')
  unfolding execute_deposit
  execute_deposit_lem s c args resolved now {s'} laws h =
      let allowed = allows_depositor hashv s.vault c.depositor args.access_proof in
      let (paused, flag, h) = >>=-eq-ok (bool_flag s.vault.deposits_paused_flag) _ h in
      let (_, open_vault, h) = >>=-eq-ok (fail_if paused (program_error vault_paused)) _ h in
      let (_, proved, h) =
        >>=-eq-ok (fail_if (not allowed) (program_error invalid_access_proof)) _ h in
      let (b, worth, h) = >>=-eq-ok resolved _ h in
      let (total, sum, h) = >>=-eq-ok (total_assets_after_deposit s.vault b) _ h in
      let (supply, read, h) = >>=-eq-ok (mint_supply (r.account s.runtime c.share_mint)) _ h in
      let (shares, priced, h) =
        >>=-eq-ok (price_deposit s.vault b supply args.min_shares_out now) _ h in
      let (w, moved, h) =
        >>=-eq-ok (r.transfer s.runtime c.source c.custody c.depositor args.amount []) _ h in
      let (tag, _, h) = >>=-eq-ok (tag_seed s.vault) _ h in
      let (w', minted, made) =
        >>=-eq-ok
          (r.mint_to w c.share_mint c.share_dest c.vault_account shares
            (vault_signer_seeds s.vault tag))
          _ h in
      let (exact, _, capped) = total_assets_after_deposit_inv s.vault b sum in
      let is_open : paused ≡ false = ground (arith, open_vault) in
      (
        flag ∙ ap ok is_open,
        ground (arith, proved),
        (
          b,
          worth,
          subst (λ (x : State W). Deposited r s c args now b x)
              (ok_inj (record s { runtime = w'; vault = record s.vault { total_assets = total } })
                s' made)
              (record {
                supply = supply;
                shares = shares;
                priced = price_deposit_inv s.vault b supply args.min_shares_out now priced;
                read = read;
                read' = laws.minted (laws.transferred moved ∙ read) minted;
                assets = exact;
                capped = capped;
                requested = refl;
                tickets = refl;
              }),
        ),
      )

  -- A deposit that succeeds, the token program keeping its laws, had deposits open, a depositor whom
  -- the vault allows and a proof of at most 32 hashes, and was resolved to some `b` base atoms; it
  -- has priced, minted and booked them as `Deposited` says.
  pub try_deposit_lem :
      (s : State W) (c : DepositContext) (args : DepositArgs) (resolved : ProgramResult ℕ) (now : ℤ)
      {s' : State W}
      → TokenLaws r c.share_mint
      → try_deposit r hashv s c args resolved now ≡ ok s'
      → (length args.access_proof ≤ max_access_proof_len)
        × (bool_flag s.vault.deposits_paused_flag ≡ ok false)
        × (allows_depositor hashv s.vault c.depositor args.access_proof ≡ true)
        × ((b : ℕ) × (resolved ≡ ok b) × Deposited r s c args now b s')
  unfolding try_deposit
  try_deposit_lem s c args resolved now {s'} laws h =
      let (_, short, h) =
        >>=-eq-ok
          (fail_if (ltb max_access_proof_len (length args.access_proof))
            (program_error invalid_access_proof))
          _ h in
      let (is_open, allowed, done) = execute_deposit_lem s c args resolved now laws h in
      (ground (arith, short), is_open, allowed, done)
