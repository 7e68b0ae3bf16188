-- ===== src/System.antt =====
-- The instructions that write a vault or its tickets, as the steps of one system: a vault, its open
-- tickets and the runtime. A step is a handler that returns a state; one that fails changes nothing.
pub mod Remaining
pub mod Tickets
pub mod Custody
pub mod Reachable
use roshi.Common.{ℕ, ◌<◌, ◌≡◌, List, [], ◌∷◌, some}
use roshi.Common.Result.{ok}
use roshi.Common.Int.{ℤ}
use roshi.Common.Bytes.{Bytes, Key}
use roshi.Common.Word.{u64}
use roshi.Vault.{ProgramResult}
use roshi.Runtime.{Runtime}
use roshi.Tickets.{State, WithdrawalTicket, find_ticket}
use roshi.Redeem.{Clock, RedeemContext, RedeemArgs, CancelContext, try_redeem, try_cancel_redeem}
use roshi.Deposit.{DepositContext, DepositArgs, try_deposit}
use roshi.Withdrawals.{TicketSettlement, WithdrawalsContext, process}
use roshi.NavReport.{ReportAccounts, NavReport, ReportKind, apply_nav_report}
use roshi.Admin.{AdminAccounts, AdminInstruction, try_administer}
use roshi.Admin.Custody.{
  CollectAccounts, InvestAccounts, ReturnAccounts, Moved, try_collect_fees, try_invest_external,
  try_return_external,
}
use roshi.Accounts.{Platform, load_checked}
use roshi.AtomicRedeem.{AtomicRedeemContext, settle_atomic_redeem}
use roshi.Accounts.Settlements.Distinct.{AllDistinct}

-- The settlements are of tickets that their accounts hold.
unfoldable pub AllHeld : List (Key × WithdrawalTicket) → List TicketSettlement → Type 0
AllHeld tickets [] = Unit {0}
AllHeld tickets (s ∷ rest) =
    (find_ticket s.ticket_account tickets ≡ some s.ticket) × AllHeld tickets rest

-- What the runtime gives to all instructions: the token and system programs, the derivation of
-- addresses, and the hash of access lists.
pub record Environment (W : Type 0) : Type 0 where
  pub runtime : Runtime W
  pub hashv : List Bytes → Key
  pub sub_account_address : Key → ℕ → Key
  pub associated_token_address : Key → Key → Key → Key
  pub mint : Key

-- One instruction of the program that writes the vault or its tickets, or anything that changes
-- neither. A relayed call to another program is of the latter kind, since only the program writes its
-- own accounts: so an atomic redeem is its call and then its settlement, and a deposit that deploys is
-- a deposit and then its call. Relayed calls to the program itself are left out: a settlement would
-- store a vault that was read before them. Contexts come from the loaders: their share mint is the
-- vault's, and their tickets are those that the accounts hold. The watermark of a vault is a `u64`.
pub data Step {W : Type 0} (e : Environment W) : State W → State W → Type 0 where
  deposit :
      (s s' : State W) (c : DepositContext) (args : DepositArgs) (worth : ProgramResult ℕ) (now : ℤ)
      → c.share_mint ≡ e.mint
      → try_deposit e.runtime e.hashv s c args worth now ≡ ok s'
      → Step e s s'
  redeem :
      (s s' : State W) (c : RedeemContext) (args : RedeemArgs) (clock : Clock)
      → c.share_mint ≡ e.mint
      → try_redeem e.runtime s c args clock ≡ ok s'
      → Step e s s'
  cancel_redeem :
      (s s' : State W) (c : CancelContext) (min_shares_out : ℕ) (clock : Clock)
      → find_ticket c.ticket_account s.tickets ≡ some c.ticket
      → try_cancel_redeem e.runtime s c min_shares_out clock ≡ ok s'
      → Step e s s'
  process_withdrawals :
      (s s' : State W) (c : WithdrawalsContext) (now : ℤ)
      → AllHeld s.tickets c.tickets
      → AllDistinct c.tickets
      → process e.runtime s c now ≡ ok s'
      → Step e s s'
  report_nav :
      (s s' : State W) (a : ReportAccounts) (report : NavReport) (kind : ReportKind) (now : ℤ)
      → s.vault.high_watermark < u64
      → apply_nav_report e.sub_account_address e.associated_token_address s.vault a report kind now
        ≡ ok s'.vault
      → s'.tickets ≡ s.tickets
      → Step e s s'
  administer :
      (s s' : State W) (a : AdminAccounts) (i : AdminInstruction)
      → try_administer s.vault a i ≡ ok s'.vault
      → s'.tickets ≡ s.tickets
      → Step e s s'
  collect_fees :
      (s s' : State W) (p : Platform) (a : CollectAccounts) (sub_account amount : ℕ)
      → load_checked p a.vault_account ≡ ok s.vault
      → try_collect_fees p e.runtime s.runtime a sub_account amount
        ≡ ok (record { vault = s'.vault; runtime = s'.runtime })
      → s'.tickets ≡ s.tickets
      → Step e s s'
  invest_external :
      (s s' : State W) (p : Platform) (a : InvestAccounts) (sub_account amount : ℕ)
      → load_checked p a.vault_account ≡ ok s.vault
      → try_invest_external p e.runtime s.runtime a sub_account amount
        ≡ ok (record { vault = s'.vault; runtime = s'.runtime })
      → s'.tickets ≡ s.tickets
      → Step e s s'
  return_external :
      (s s' : State W) (p : Platform) (a : ReturnAccounts) (sub_account amount : ℕ)
      → load_checked p a.vault_account ≡ ok s.vault
      → try_return_external p e.runtime s.runtime a sub_account amount
        ≡ ok (record { vault = s'.vault; runtime = s'.runtime })
      → s'.tickets ≡ s.tickets
      → Step e s s'
  atomic_redeem :
      (s s' : State W) (c : AtomicRedeemContext) (sub_account_index shares payout : ℕ) (now : ℤ)
      → settle_atomic_redeem e.runtime s c sub_account_index shares payout now ≡ ok s'
      → Step e s s'
  elsewhere : (s s' : State W) → s'.vault ≡ s.vault → s'.tickets ≡ s.tickets → Step e s s'

-- What a sequence of steps leads to.
pub data Reach {W : Type 0} (e : Environment W) (s : State W) : State W → Type 0 where
  start : Reach e s s
  then : (t u : State W) → Reach e s t → Step e t u → Reach e s u
