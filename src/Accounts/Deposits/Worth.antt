-- ===== src/Accounts/Deposits/Worth.antt =====
-- accounts/deposit.rs: what a deposit is worth. The base mint is worth itself, and another asset
-- what its own oracle and, for a routed asset, the vault's say.
use roshi.Common.{
  ℕ, zero, suc, ◌+◌, ◌≤◌, ◌≡◌, sym, ap, ◌∙◌, subst, arith, Bool, Bool-cases, inl, inr, ◌⊎◌, true,
  false, not, ◌||◌, List, [], ◌∷◌, Option, none, some, ltb, not-false, or_false,
}
use roshi.Common.Result.{ok, >>=-eq-ok, ok_inj, fail_if_inv, fail_if, ok_or, map_err}
use roshi.Common.Error.{
  program_error, lift_ok, invalid_account_data, not_enough_account_keys, invalid_token_account,
  invalid_asset_account, overflow,
}
use roshi.Common.Word.{u64, checked_add, ok_or-checked_add}
use roshi.Common.Bytes.{Key, bytes_eq, bytes_eq→eq, length, take, drop}
use roshi.Math.{OraclePrice, unit_price, base_atoms_from_asset_atoms}
use roshi.Vault.{Vault}
use roshi.Token.{Account, token_amount}
use roshi.Oracle.{OracleConfig, active}
use roshi.Deposit.{DepositArgs}
use roshi.Records.{Asset, enabled, routed}
use roshi.Feeds.Switchboard.{QuoteVerifier}
use roshi.Feeds.Session.{
  OracleLeg, Clock, OracleReadSession, leg_accounts, parse_leg, read_leg, session_read,
}
use roshi.Feeds.Session.Transparent.{AllLoaded, AllRead, session_read-AllRead}
use roshi.Accounts.{
  Platform, load_as_asset, find_sub_account_address, find_asset_address, associated_token_address,
}
use roshi.Accounts.Deposits.{
  LoadedDeposit, verify_asset, verify_inventory, parse_base_leg, read_base_price, price_asset,
  resolve_asset_atoms, resolve_base_atoms,
}

-- The price of the base asset that a deposit uses: 1, or a direct read of a leg of the vault's
-- oracle.
pub data IsBasePrice {OracleQuote : Type 0} (verifier : QuoteVerifier OracleQuote) (v : Vault)
    (clock : Clock) : Bool → OraclePrice → Type 0 where
  direct : IsBasePrice verifier v clock false unit_price
  by_leg :
      (accounts rest : List Account) (leg : OracleLeg) (price : OraclePrice)
      → parse_leg v.base_oracle accounts ≡ ok (leg, rest)
      → read_leg verifier leg clock ≡ ok price
      → IsBasePrice verifier v clock true price

-- What stands behind the worth of a deposit of another asset.
pub record IsPriced {OracleQuote : Type 0} (p : Platform) (verifier : QuoteVerifier OracleQuote)
    (c : LoadedDeposit) (args : DepositArgs) (clock : Clock) (worth : ℕ) : Type 0 where
  pub asset_account : Account
  pub asset : Asset
  pub loaded : load_as_asset p asset_account ≡ ok asset
  pub address : asset_account.key ≡ (find_asset_address p c.vault_account.key args.asset_mint).0
  pub vault : asset.vault ≡ c.vault_account.key
  pub is_enabled : enabled asset ≡ ok true
  pub balance : ℕ
  pub held : token_amount c.custody ≡ ok balance
  pub within_cap : balance + args.amount ≤ asset.deposit_cap_atoms
  pub is_routed : Bool
  pub route : routed asset ≡ ok is_routed
  pub oracle_accounts : List Account
  pub remaining : List Account
  pub leg : OracleLeg
  pub parsed : parse_leg asset.oracle oracle_accounts ≡ ok (leg, remaining)
  pub asset_price : OraclePrice
  pub read : read_leg verifier leg clock ≡ ok asset_price
  pub base_price : OraclePrice
  pub base : IsBasePrice verifier c.vault clock is_routed base_price
  pub worth_is :
      base_atoms_from_asset_atoms args.amount asset_price base_price asset.asset_decimals
        c.vault.base_decimals
      ≡ ok worth

-- A part of the accounts that the runtime hands out is one too.
AllLoaded-take :
    (account : Key → Account) (n : ℕ) (xs : List Account)
    → AllLoaded account xs
    → AllLoaded account (take n xs) × AllLoaded account (drop n xs)
unfolding AllLoaded
AllLoaded-take account zero xs all = (tt, all)
AllLoaded-take account (suc n) [] all = (tt, tt)
AllLoaded-take account (suc n) (x ∷ xs) all =
    let (first, rest) = AllLoaded-take account n xs all.1 in ((all.0, first), rest)

parse_leg-AllLoaded :
    (account : Key → Account) (oracle : OracleConfig) (accounts : List Account) {leg : OracleLeg}
    {rest : List Account}
    → AllLoaded account accounts
    → parse_leg oracle accounts ≡ ok (leg, rest)
    → AllLoaded account leg.accounts × AllLoaded account rest
unfolding parse_leg
parse_leg-AllLoaded account oracle accounts {leg} {rest} all h =
    let (config, _, h) = >>=-eq-ok (map_err (λ _. invalid_account_data) (active oracle)) _ h in
    let (_, _, made) =
      >>=-eq-ok (fail_if (ltb (length accounts) (leg_accounts config)) not_enough_account_keys) _
        h in
    subst (λ (y : OracleLeg × List Account). AllLoaded account y.0.accounts × AllLoaded account y.1)
      (ok_inj _ (leg, rest) made) (AllLoaded-take account (leg_accounts config) accounts all)

module _ {OracleQuote : Type 0} (p : Platform) (verifier : QuoteVerifier OracleQuote)
    (account : Key → Account) (c : LoadedDeposit) (args : DepositArgs) (clock : Clock) where
  load-IsBasePrice :
      (is_routed : Bool) (session : OracleReadSession) (accounts : List Account)
      (leg : Option OracleLeg) {price : OraclePrice}
      → AllLoaded account accounts
      → AllRead verifier account clock session
      → parse_base_leg p verifier c.vault is_routed accounts ≡ ok leg
      → read_base_price p verifier session leg clock ≡ ok price
      → IsBasePrice verifier c.vault clock is_routed price
  unfolding parse_base_leg read_base_price
  load-IsBasePrice false session accounts leg {price} all sound h k =
      let unset = ok_inj none leg h in
      let k = subst (λ y. read_base_price p verifier session y clock ≡ ok price) (sym unset) k in
      subst (IsBasePrice verifier c.vault clock false) (ok_inj unit_price price k) direct
  load-IsBasePrice true session accounts leg {price} all sound h k =
      let ((base_leg, rest), parsed, made) =
        >>=-eq-ok (parse_leg c.vault.base_oracle accounts) _ h in
      let set_leg = ok_inj (some base_leg) leg made in
      let k = subst (λ y. read_base_price p verifier session y clock ≡ ok price) (sym set_leg) k in
      let ((read, after), reads, same) =
        >>=-eq-ok (session_read verifier session base_leg clock) _ k in
      let loaded = (parse_leg-AllLoaded account c.vault.base_oracle accounts all parsed).0 in
      let once =
        (session_read-AllRead verifier account clock session base_leg loaded sound reads).0 in
      by_leg accounts rest base_leg price parsed (once ∙ same)

  asset_atoms-IsPriced :
      (accounts : List Account) {worth : ℕ}
      → AllLoaded account accounts
      → resolve_asset_atoms p verifier c args accounts clock ≡ ok worth
      → IsPriced p verifier c args clock worth
  unfolding resolve_asset_atoms verify_asset verify_inventory price_asset AllLoaded AllRead
  asset_atoms-IsPriced [] {worth} all h = absurd (cc)
  asset_atoms-IsPriced (a ∷ oracle_accounts) {worth} all h =
      let (asset, loaded, h) = >>=-eq-ok (load_as_asset p a) _ h in
      let (_, verified, h) = >>=-eq-ok (verify_asset p c args a asset) _ h in
      let (_, stocked, h) = >>=-eq-ok (verify_inventory p c args asset) _ h in
      let (_, bound, verified) =
        >>=-eq-ok
          (fail_if
            (not (bytes_eq a.key (find_asset_address p c.vault_account.key args.asset_mint).0)
              || not (bytes_eq asset.vault c.vault_account.key))
            (program_error invalid_asset_account))
          _ verified in
      let (is_on, flag_read, on) = >>=-eq-ok (enabled asset) _ verified in
      let (address, vault) = or_false _ _ (fail_if_inv _ _ bound) in
      let (balance, held, stocked) = >>=-eq-ok (token_amount c.custody) _ stocked in
      let (projected, sum, capped) =
        >>=-eq-ok (ok_or (checked_add u64 balance args.amount) (program_error overflow)) _
          stocked in
      let total = (ok_or-checked_add u64 balance args.amount _ sum).0 in
      let capped = fail_if_inv _ _ capped in
      let ((leg, remaining), parsed, h) = >>=-eq-ok (parse_leg asset.oracle oracle_accounts) _ h in
      let (is_routed, route, h) = >>=-eq-ok (routed asset) _ h in
      let (base_leg, base_parsed, h) =
        >>=-eq-ok (parse_base_leg p verifier c.vault is_routed remaining) _ h in
      let ((asset_price, session), reads, h) = >>=-eq-ok (session_read verifier [] leg clock) _ h in
      let (base_price, base_read, priced) =
        >>=-eq-ok (read_base_price p verifier session base_leg clock) _ h in
      let (in_leg, after) = parse_leg-AllLoaded account asset.oracle oracle_accounts all.1 parsed in
      let (direct_read, sound) =
        session_read-AllRead verifier account clock [] leg in_leg tt reads in
      record {
        asset_account = a;
        asset = asset;
        loaded = loaded;
        address =
            bytes_eq→eq a.key (find_asset_address p c.vault_account.key args.asset_mint).0
              (not-false _ address);
        vault = bytes_eq→eq asset.vault c.vault_account.key (not-false _ vault);
        is_enabled = flag_read ∙ ap ok (not-false _ (fail_if_inv _ _ on));
        balance = balance;
        held = held;
        within_cap = ground (arith, capped, total);
        is_routed = is_routed;
        route = route;
        oracle_accounts = oracle_accounts;
        remaining = remaining;
        leg = leg;
        parsed = parsed;
        asset_price = asset_price;
        read = direct_read;
        base_price = base_price;
        base =
            load-IsBasePrice is_routed session remaining base_leg after sound base_parsed base_read;
        worth_is = lift_ok _ priced;
      }

  -- Every deposit whose worth is resolved goes to the vault's own token account for the mint: of the
  -- base mint it is worth its amount, and of another an amount at the prices that its own oracle and,
  -- for a routed asset, the vault's oracle give when they are read each on its own, of an enabled
  -- asset of this vault, within the asset's cap. The accounts are those that the runtime has under their keys.
  pub resolve_base_atoms-IsPriced :
      {worth : ℕ}
      → AllLoaded account c.extra
      → resolve_base_atoms p verifier c args clock ≡ ok worth
      → (c.custody.key
          ≡ associated_token_address p
              (find_sub_account_address p c.vault_account.key c.vault.deposit_sub_account).0
              args.asset_mint
              c.asset_token_program.key)
        × (((args.asset_mint ≡ c.vault.base_mint) × (worth ≡ args.amount))
            ⊎ IsPriced p verifier c args clock worth)
  unfolding resolve_base_atoms
  resolve_base_atoms-IsPriced {worth} all h =
      let (_, custody, h) =
        >>=-eq-ok
          (fail_if
            (not (
              bytes_eq c.custody.key (
                associated_token_address p
                  (find_sub_account_address p c.vault_account.key c.vault.deposit_sub_account).0
                  args.asset_mint c.asset_token_program.key)))
            (program_error invalid_token_account))
          _ h in
      (
        bytes_eq→eq c.custody.key _ (not-false _ (fail_if_inv _ _ custody)),
        elim (Bool-cases (bytes_eq args.asset_mint c.vault.base_mint)) [
          | inl base ↦
              let h = rw base at h in
              inl (
                bytes_eq→eq args.asset_mint c.vault.base_mint base,
                sym (ok_inj args.amount worth h),
              )
          | inr other ↦ let h = rw other at h in inr (asset_atoms-IsPriced c.extra all h)
        ],
      )
