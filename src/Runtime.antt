-- ===== src/Runtime.antt =====
-- What the handlers use of the Solana runtime and of the programs it invokes, over a state `W` of
-- theirs: the accounts and their lamports, and the token and system programs' instructions, which
-- either fail or give a new state. The accounts that the program itself writes are not in `W`.
pub mod Balances
use roshi.Common.{ℕ, ◌+◌, ◌-◌, ◌≤◌, ◌≡◌, ◌≢◌, List}
use roshi.Common.Result.{ok}
use roshi.Common.Bytes.{Bytes, Key}
use roshi.Vault.{ProgramResult}
use roshi.Token.{Account, mint_supply, token_amount}

-- `transfer` takes the source, the destination and the authority, `mint_to` the mint, the
-- destination and the authority, `burn` the token account, the mint and the authority; then the
-- amount, and the seeds of a signing address.
pub record Runtime (W : Type 0) : Type 0 where
  pub account : W → Key → Account
  pub lamports : W → Key → ℕ
  pub set_lamports : W → Key → ℕ → W
  -- `account.resize(0)` and `account.assign(&system_program::ID)`
  pub release : W → Key → ProgramResult W
  -- The creation of an account by the system program: the payer, the account and its space.
  pub create_account : W → Key → Key → ℕ → ProgramResult W
  pub transfer : W → Key → Key → Key → ℕ → List Bytes → ProgramResult W
  pub mint_to : W → Key → Key → Key → ℕ → List Bytes → ProgramResult W
  pub burn : W → Key → Key → Key → ℕ → ProgramResult W

-- What the SPL token program documents of a mint's supply, and that the system program's work on
-- other accounts leaves it alone: `mint_to` adds the amount, within 64 bits, and `burn` takes it off.
pub record TokenLaws {W : Type 0} (r : Runtime W) (mint : Key) : Type 0 where
  pub minted :
      {w w' : W} {dest authority : Key} {amount n : ℕ} {seeds : List Bytes}
      → mint_supply (r.account w mint) ≡ ok n
      → r.mint_to w mint dest authority amount seeds ≡ ok w'
      → mint_supply (r.account w' mint) ≡ ok (n + amount)
  pub burned :
      {w w' : W} {source authority : Key} {amount n : ℕ}
      → mint_supply (r.account w mint) ≡ ok n
      → r.burn w source mint authority amount ≡ ok w'
      → (amount ≤ n) × (mint_supply (r.account w' mint) ≡ ok (n - amount))
  pub transferred :
      {w w' : W} {source dest authority : Key} {amount : ℕ} {seeds : List Bytes}
      → r.transfer w source dest authority amount seeds ≡ ok w'
      → mint_supply (r.account w' mint) ≡ mint_supply (r.account w mint)
  pub created :
      {w w' : W} {payer key : Key} {space : ℕ}
      → r.create_account w payer key space ≡ ok w'
      → mint_supply (r.account w' mint) ≡ mint_supply (r.account w mint)
  pub released :
      {w w' : W} {key : Key}
      → r.release w key ≡ ok w'
      → mint_supply (r.account w' mint) ≡ mint_supply (r.account w mint)
  pub moved :
      (w : W) (key : Key) (n : ℕ)
      → mint_supply (r.account (r.set_lamports w key n) mint) ≡ mint_supply (r.account w mint)

-- What the SPL token program documents of balances, for a mint without a transfer fee: a transfer
-- moves the amount between two accounts, leaves an account that pays itself as it is, and touches no
-- other. Lamports are no part of a balance, and only the program's own accounts are released.
pub record BalanceLaws {W : Type 0} (r : Runtime W) : Type 0 where
  pub sent :
      {w w' : W} {source dest authority : Key} {amount n : ℕ} {seeds : List Bytes}
      → source ≢ dest
      → token_amount (r.account w source) ≡ ok n
      → r.transfer w source dest authority amount seeds ≡ ok w'
      → (amount ≤ n) × (token_amount (r.account w' source) ≡ ok (n - amount))
  pub received :
      {w w' : W} {source dest authority : Key} {amount n : ℕ} {seeds : List Bytes}
      → source ≢ dest
      → token_amount (r.account w dest) ≡ ok n
      → r.transfer w source dest authority amount seeds ≡ ok w'
      → token_amount (r.account w' dest) ≡ ok (n + amount)
  pub to_itself :
      {w w' : W} {source authority : Key} {amount n : ℕ} {seeds : List Bytes}
      → token_amount (r.account w source) ≡ ok n
      → r.transfer w source source authority amount seeds ≡ ok w'
      → token_amount (r.account w' source) ≡ ok n
  pub others :
      {w w' : W} {source dest authority other : Key} {amount n : ℕ} {seeds : List Bytes}
      → other ≢ source
      → other ≢ dest
      → token_amount (r.account w other) ≡ ok n
      → r.transfer w source dest authority amount seeds ≡ ok w'
      → token_amount (r.account w' other) ≡ ok n
  pub released :
      {w w' : W} {key : Key} (other : Key) {n : ℕ}
      → token_amount (r.account w other) ≡ ok n
      → r.release w key ≡ ok w'
      → token_amount (r.account w' other) ≡ ok n
  pub moved :
      (w : W) (key other : Key) (n : ℕ)
      → token_amount (r.account (r.set_lamports w key n) other) ≡ token_amount (r.account w other)
