-- ===== src/Accounts/Settlements.antt =====
-- crates/roshi/src/instructions/accounts/redeem.rs, cancel_redeem.rs and process_withdrawals.rs:
-- the accounts of a redemption, of its cancellation, and of the tickets to settle.
pub mod Distinct
use roshi.Common.{
  ℕ, ◌+◌, ◌%◌, Bool, true, false, not, ◌||◌, List, [], ◌∷◌, ◌++◌, ◌==◌, if◌then◌else◌, zero, suc,
}
use roshi.Common.Result.{ok, err, ◌>>=◌, ◌>>◌, fail_if, ok_or}
use roshi.Common.Error.{
  program_error, not_enough_account_keys, invalid_token_account, invalid_seeds,
  invalid_withdrawal_ticket_account,
}
use roshi.Common.Bytes.{Key, bytes_eq, length}
use roshi.Vault.{Vault, Role, ProgramResult}
use roshi.Token.{
  Account, verify_token_account_mint, verify_token_account_mint_and_owner, verify_token_program_for,
}
use roshi.NavReport.{verify_share_mint, verify_role}
use roshi.Tickets.{WithdrawalTicket}
use roshi.Redeem.{RedeemArgs, RedeemContext, CancelContext}
use roshi.Withdrawals.{TicketSettlement, WithdrawalsContext}
use roshi.Accounts.{
  Platform, next_account, signer_of, require_writable, require_writable_signer,
  require_uninitialized_account, require_system_program, require_token_program, load_checked,
  load_as_ticket, find_ticket_address, verify_sub_account,
}

module _ (p : Platform) where
  unfoldable pub load_redeem : List Account → RedeemArgs → ProgramResult (Vault × RedeemContext)
  load_redeem accounts args = do
    (owner, accounts) ← next_account accounts
    require_writable_signer owner
    (vault_account, accounts) ← next_account accounts
    require_writable vault_account
    (share_source, accounts) ← next_account accounts
    require_writable share_source
    (share_mint, accounts) ← next_account accounts
    require_writable share_mint
    (recipient_token_account, accounts) ← next_account accounts
    (ticket, accounts) ← next_account accounts
    require_uninitialized_account ticket
    (system_program_acc, accounts) ← next_account accounts
    require_system_program system_program_acc
    (token_program, accounts) ← next_account accounts
    require_token_program token_program
    vault ← load_checked p vault_account
    verify_share_mint vault share_mint
    fail_if (not (bytes_eq recipient_token_account.key args.recipient_token_account))
        (program_error invalid_token_account)
    verify_token_account_mint recipient_token_account vault.base_mint
    let expected = find_ticket_address p vault_account.key owner.key args.ticket_index
    fail_if (not (bytes_eq ticket.key expected.0)) invalid_seeds
    ok (
      vault,
      record {
        owner = owner.key;
        vault_account = vault_account.key;
        share_source = share_source.key;
        share_mint = share_mint.key;
        recipient_token_account = recipient_token_account.key;
        ticket = ticket.key;
        ticket_bump = expected.1;
      },
    )

  -- The address of a ticket's account.
  unfoldable pub verify_ticket_address :
      Key → Key → Key → WithdrawalTicket → ProgramResult (Unit {0})
  verify_ticket_address ticket_account vault owner ticket = do
    let expected = find_ticket_address p vault owner ticket.ticket_index
    fail_if (not (bytes_eq ticket_account expected.0) || not (ticket.bump == expected.1))
        invalid_seeds

  unfoldable pub load_cancel : List Account → ProgramResult (Vault × CancelContext)
  load_cancel accounts = do
    (owner, accounts) ← next_account accounts
    require_writable_signer owner
    (vault_account, accounts) ← next_account accounts
    require_writable vault_account
    (ticket_account, accounts) ← next_account accounts
    require_writable ticket_account
    (share_mint, accounts) ← next_account accounts
    require_writable share_mint
    (share_dest, accounts) ← next_account accounts
    require_writable share_dest
    (token_program, accounts) ← next_account accounts
    require_token_program token_program
    vault ← load_checked p vault_account
    verify_share_mint vault share_mint
    ticket ← load_as_ticket p ticket_account
    fail_if (not (bytes_eq ticket.vault vault_account.key) || not (bytes_eq ticket.owner owner.key))
        (program_error invalid_withdrawal_ticket_account)
    verify_ticket_address ticket_account.key vault_account.key owner.key ticket
    verify_token_account_mint_and_owner share_dest share_mint.key owner.key
    ok (
      vault,
      record {
        owner = owner.key;
        vault_account = vault_account.key;
        ticket_account = ticket_account.key;
        share_mint = share_mint.key;
        share_dest = share_dest.key;
        ticket = ticket;
      },
    )

  -- `tickets.iter().any(..)`
  unfoldable pub is_listed : Key → List TicketSettlement → Bool
  is_listed key [] = false
  is_listed key (s ∷ rest) = bytes_eq s.ticket_account key || is_listed key rest

  -- One turn of the loop over the remaining accounts.
  unfoldable pub load_settlement :
      Vault
      → Key
      → List TicketSettlement
      → Account
      → Account
      → Account
      → ProgramResult TicketSettlement
  load_settlement vault vault_account tickets ticket_account owner destination = do
    require_writable ticket_account
    require_writable owner
    require_writable destination
    ticket ← load_as_ticket p ticket_account
    fail_if
        (not (bytes_eq ticket.vault vault_account)
          || not (bytes_eq ticket.owner owner.key)
          || not (bytes_eq ticket.recipient_token_account destination.key)
          || (ticket.shares_burned == 0))
        (program_error invalid_withdrawal_ticket_account)
    verify_ticket_address ticket_account.key vault_account owner.key ticket
    verify_token_account_mint destination vault.base_mint
    fail_if (is_listed ticket_account.key tickets) (program_error invalid_withdrawal_ticket_account)
    ok (record {
      ticket_account = ticket_account.key;
      owner = owner.key;
      destination = destination.key;
      ticket = ticket;
    })

  unfoldable pub load_settlements :
      Vault → Key → List TicketSettlement → List Account → ProgramResult (List TicketSettlement)
  load_settlements vault vault_account tickets [] = ok tickets
  load_settlements vault vault_account tickets (a ∷ b ∷ c ∷ rest) = do
    settlement ← load_settlement vault vault_account tickets a b c
    load_settlements vault vault_account (tickets ++ (settlement ∷ [])) rest
  load_settlements vault vault_account tickets _ = err not_enough_account_keys

  unfoldable pub load_process : List Account → ProgramResult (Vault × WithdrawalsContext)
  load_process accounts = do
    (withdrawal_authority, accounts) ← next_account accounts
    (vault_account, accounts) ← next_account accounts
    require_writable vault_account
    vault ← load_checked p vault_account
    verify_role vault Role.withdrawal_authority (signer_of withdrawal_authority)
    (sub_account, accounts) ← next_account accounts
    sub_account_bump ← verify_sub_account p vault_account.key vault.withdraw_sub_account sub_account
    (custody, accounts) ← next_account accounts
    require_writable custody
    verify_token_account_mint_and_owner custody vault.base_mint sub_account.key
    (share_mint, accounts) ← next_account accounts
    verify_share_mint vault share_mint
    (token_program, remaining) ← next_account accounts
    verify_token_program_for token_program custody
    fail_if ((length remaining == 0) || not (length remaining % 3 == 0)) not_enough_account_keys
    tickets ← load_settlements vault vault_account.key [] remaining
    ok (
      vault,
      record {
        vault_account = vault_account.key;
        sub_account = sub_account.key;
        custody = custody.key;
        share_mint = share_mint.key;
        sub_account_bump = sub_account_bump;
        tickets = tickets;
      },
    )
