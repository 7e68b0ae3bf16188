-- ===== src/Tickets.antt =====
-- crates/roshi/src/state/withdrawal_ticket.rs, and the program's own accounts as its handlers see
-- them: the vault, and the withdrawal tickets by the keys of their accounts.
use roshi.Common.{ℕ, Option, none, some, List, [], ◌∷◌, if◌then◌else◌}
use roshi.Common.Result.{ok, ◌>>=◌, ok_or}
use roshi.Common.Error.{arithmetic_overflow}
use roshi.Common.Word.{u64, checked_add}
use roshi.Common.Bytes.{Key, bytes_eq}
use roshi.Vault.{Vault, ProgramResult}
use roshi.Runtime.{Runtime}

abbrev pub redeem_cancel_delay_slots : ℕ
redeem_cancel_delay_slots = 150

abbrev pub withdrawal_strike_delay_epochs : ℕ
withdrawal_strike_delay_epochs = 1

-- `std::mem::size_of::<WithdrawalTicket>() + 1`
abbrev pub ticket_space : ℕ
ticket_space = 137

pub record WithdrawalTicket : Type 0 where
  pub vault : Key
  pub owner : Key
  pub recipient_token_account : Key
  pub shares_burned : ℕ
  pub assets_owed : ℕ
  pub request_epoch : ℕ
  pub request_slot : ℕ
  pub ticket_index : ℕ
  pub bump : ℕ

pub record State (W : Type 0) : Type 0 where
  pub vault : Vault
  pub tickets : List (Key × WithdrawalTicket)
  pub runtime : W

-- The ticket that an account holds, and the accounts without it.
abbrev pub find_ticket : Key → List (Key × WithdrawalTicket) → Option WithdrawalTicket
find_ticket key [] = none
find_ticket key ((k, t) ∷ rest) = if bytes_eq k key then some t else find_ticket key rest

abbrev pub remove_ticket : Key → List (Key × WithdrawalTicket) → List (Key × WithdrawalTicket)
remove_ticket key [] = []
remove_ticket key ((k, t) ∷ rest) = if bytes_eq k key then rest else (k, t) ∷ remove_ticket key rest

module _ {W : Type 0} (r : Runtime W) where
  -- `create_ticket`: the new account, and the ticket stored in it.
  unfoldable pub create_ticket : State W → Key → Key → WithdrawalTicket → ProgramResult (State W)
  create_ticket s payer key ticket = do
    w ← r.create_account s.runtime payer key ticket_space
    ok (record s { runtime = w; tickets = (key, ticket) ∷ s.tickets })

  -- `close_account`: the lamports go to the owner, and the ticket is gone.
  unfoldable pub close_account : State W → Key → Key → ProgramResult (State W)
  close_account s key refund_to = do
    balance ←
        ok_or (checked_add u64 (r.lamports s.runtime refund_to) (r.lamports s.runtime key))
          arithmetic_overflow
    w ← r.release (r.set_lamports (r.set_lamports s.runtime refund_to balance) key 0) key
    ok (record s { runtime = w; tickets = remove_ticket key s.tickets })
