-- ===== src/Examples.antt =====
-- A vault, accounts and a token program with concrete contents, for the examples.
pub mod Arithmetic
pub mod Books
pub mod Handlers
pub mod Ledger
pub mod Payments
pub mod Systems
pub mod Hashes
pub mod Prices
pub mod Contexts
pub mod Swaps
pub mod Administration
use roshi.Common.{
  ℕ, ◌+◌, ◌-◌, ◌^◌, ◌≤◌, ◌<◌, ◌≡◌, sym, ap, ◌∙◌, Bool-cases, inl, inr, refl, arith, true, false,
  List, [], ◌∷◌, ◌++◌, leb, ltb, ◌&&◌, if◌then◌else◌,
}
use roshi.Common.Result.{ok, err, ok_inj}
use roshi.Common.Error.{invalid_account_data}
use roshi.Common.Int.{pos}
use roshi.Common.Bytes.{Bytes, Key, replicate, to_le_bytes, from_le_bytes}
use roshi.Oracle.{OracleConfig}
use roshi.Vault.{Vault, VaultControls, bool_flag}
use roshi.Vault.Unlock.{IsSound}
use roshi.Token.{Account, token_program_id, mint_supply, is_token_program}
use roshi.Common.Bytes.{bytes_eq}
use roshi.Runtime.{Runtime, TokenLaws}
use roshi.Tickets.{WithdrawalTicket, State}

abbrev pub key : ℕ → Key
key n = replicate 32 n

abbrev pub oracle : OracleConfig
oracle = record { legs = replicate 192 0; kind = 0; padding = replicate 7 0 }

abbrev pub controls : VaultControls
controls = record {
  max_unlock_duration_secs = 1000;
  max_report_age_secs = 0;
  min_report_interval_secs = 60;
  cancel_grace_slots = 0;
  max_nav_gain_bps = 1000;
  atomic_redeem_fee_bps = 10;
  max_swap_slippage_bps = 100;
}

-- A vault of a million base atoms, a tenth of them locked until the time 2000, with 1000 requested
-- shares and a 10% fee.
abbrev pub vault : Vault
vault = record {
  base_oracle = oracle;
  total_assets = 1000000;
  deposit_cap = 5000000;
  external_assets = 0;
  pending_withdrawal_assets = 500;
  fees_payable = 7;
  high_watermark = 900000;
  report_epoch = 5;
  requested_withdrawal_shares = 100000;
  last_update_ts = pos 1000;
  locked_profit = 100000;
  profit_unlock_start_ts = pos 1000;
  profit_unlock_end_ts = pos 2000;
  tag = 65 ∷ replicate 31 0;
  admin = key 1;
  strategist = key 2;
  swap_authority = key 3;
  nav_authority = key 4;
  withdrawal_authority = key 5;
  base_mint = key 6;
  share_mint = key 7;
  treasury = key 8;
  last_report_hash = key 9;
  access_merkle_root = key 0;
  controls = controls;
  performance_fee_bps = 1000;
  withdrawal_buffer_bps = 100;
  tag_len = 1;
  base_decimals = 6;
  deposit_sub_account = 10;
  withdraw_sub_account = 11;
  deposits_paused_flag = 0;
  withdrawals_paused_flag = 0;
  manage_paused_flag = 0;
  private_flag = 0;
  external_enabled_flag = 0;
  bump = 255;
}

pub vault-IsSound : IsSound vault
vault-IsSound = record {
  locked = omega arith;
  total = omega arith;
  ordered = omega arith;
  short = omega arith;
}

abbrev pub mint_bytes : ℕ → ℕ → Bytes
mint_bytes supply decimals =
    replicate 36 0 ++ (to_le_bytes 8 supply ++ (decimals ∷ 1 ∷ replicate 36 0))

abbrev pub mint_account : Key → ℕ → ℕ → Account
mint_account k supply decimals = record {
  key = k;
  owner = token_program_id;
  bytes = mint_bytes supply decimals;
  is_signer = false;
  is_writable = true;
  executable = false;
}

abbrev pub custody : Key → ℕ → Account
custody k amount = record {
  key = k;
  owner = token_program_id;
  bytes = replicate 64 0 ++ (to_le_bytes 8 amount ++ (replicate 36 0 ++ (1 ∷ replicate 56 0)));
  is_signer = false;
  is_writable = true;
  executable = false;
}

-- A token program of one mint, whose state is its supply.
abbrev pub one_mint : Runtime ℕ
one_mint = record {
  account = λ supply k. mint_account k supply 9;
  lamports = λ supply k. 5;
  set_lamports = λ supply k n. supply;
  release = λ supply k. ok supply;
  create_account = λ supply payer k space. ok supply;
  transfer = λ supply source dest authority amount seeds. ok supply;
  mint_to = λ supply mint dest authority amount seeds.
      if ltb (supply + amount) (2 ^ 64) then ok (supply + amount) else err invalid_account_data;
  burn = λ supply source mint authority amount.
      if leb amount supply && ltb supply (2 ^ 64)
      then ok (supply - amount)
      else err invalid_account_data;
}

supply_read :
    (n : ℕ) (k : Key) → mint_supply (mint_account k n 9) ≡ ok (from_le_bytes (to_le_bytes 8 n))
unfolding mint_supply is_token_program bytes_eq to_le_bytes
supply_read n k = refl

pub supply_exact : (n : ℕ) → n ≤ 2 ^ 64 - 1 → from_le_bytes (to_le_bytes 8 n) ≡ n
unfolding from_le_bytes to_le_bytes
supply_exact n h = omega arith

ok_lt : (n : ℕ) (k : Key) {m : ℕ} → n ≤ 2 ^ 64 - 1 → mint_supply (mint_account k n 9) ≡ ok m → m ≡ n
ok_lt n k {m} h read = ok_inj m n (sym read ∙ supply_read n k ∙ ap ok (supply_exact n h))

one_mint_minted :
    (k : Key) (w amount : ℕ) {w' n : ℕ}
    → mint_supply (mint_account k w 9) ≡ ok n
    → one_mint.mint_to w k k k amount [] ≡ ok w'
    → mint_supply (mint_account k w' 9) ≡ ok (n + amount)
one_mint_minted k w amount {w'} {n} read made = elim (Bool-cases (ltb (w + amount) (2 ^ 64))) [
  | inl fits ↦
      let small : w + amount < 2 ^ 64 = ground (arith, fits) in
      let done = rw fits at made in
      let same : n ≡ w = ok_lt w k (omega (arith, small)) read in
      let sum : w' ≡ w + amount = sym (ok_inj (w + amount) w' done) in
      rw (sum, same)
        (supply_read (w + amount) k ∙ ap ok (supply_exact (w + amount) (omega (arith, small))))
  | inr full ↦ let failed = rw full at made in absurd (cc)
]

one_mint_burned :
    (k : Key) (w amount : ℕ) {w' n : ℕ}
    → mint_supply (mint_account k w 9) ≡ ok n
    → one_mint.burn w k k k amount ≡ ok w'
    → (amount ≤ n) × (mint_supply (mint_account k w' 9) ≡ ok (n - amount))
one_mint_burned k w amount {w'} {n} read made = elim (Bool-cases (leb amount w && ltb w (2 ^ 64))) [
  | inl fits ↦
      let small : (amount ≤ w) × (w < 2 ^ 64) = ground (arith, fits) in
      let done = rw fits at made in
      let same : n ≡ w = ok_lt w k (omega (arith, small.1)) read in
      let left : w' ≡ w - amount = sym (ok_inj (w - amount) w' done) in
      rw (left, same)
        (
          small.0,
          supply_read (w - amount) k ∙ ap ok (supply_exact (w - amount) (omega (arith, small.1))),
        )
  | inr full ↦ let failed = rw full at made in absurd (cc)
]

pub one_mint-TokenLaws : (k : Key) → TokenLaws one_mint k
one_mint-TokenLaws k = record {
  minted = λ {w} {w'} {dest} {authority} {amount} {n} {seeds} read made.
      one_mint_minted k w amount read made;
  burned =
      λ {w} {w'} {source} {authority} {amount} {n} read made. one_mint_burned k w amount read made;
  transferred = λ {w} {w'} {source} {dest} {authority} {amount} {seeds} done.
      ap (λ x. mint_supply (mint_account k x 9)) (sym (ok_inj w w' done));
  created = λ {w} {w'} {payer} {key = u} {space} done.
      ap (λ x. mint_supply (mint_account k x 9)) (sym (ok_inj w w' done));
  released = λ {w} {w'} {key = u} done.
      ap (λ x. mint_supply (mint_account k x 9)) (sym (ok_inj w w' done));
  moved = λ w account n. refl;
}
