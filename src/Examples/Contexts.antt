-- ===== src/Examples/Contexts.antt =====
-- The loaders and the administrative handlers, at concrete accounts.
use roshi.Common.{ℕ, ◌≡◌, refl, true, some, none, Option, [], ◌∷◌, ◌++◌, ◌==◌, if◌then◌else◌, ◌⊎◌}
use roshi.Common.Result.{ok}
use roshi.Common.Bytes.{Bytes, Key, replicate, bytes_eq, to_le_bytes, from_le_bytes}
use roshi.Math.{
  base_atoms_from_asset_atoms, pow10, scale_numerator, scale_denominator, checked_nonzero_u64,
  net_decimals, checked_u64,
}
use roshi.Oracle.{
  switchboard_oracle, switchboard_config, switchboard_to_leg_bytes, switchboard_from_leg_bytes,
  write_leg, read_leg, store_byte, load_byte, active, active_of_kind, config_kind, validate,
  validate_active,
}
use roshi.Token.{
  Account, token_program_id, is_token_program, token_amount, verify_token_account_mint,
}
use roshi.Tickets.{WithdrawalTicket}
use roshi.Deposit.{DepositArgs}
use roshi.Withdrawals.{TicketSettlement}
use roshi.Records.{
  Asset, asset_flag, enabled, routed, validate_asset, Action, manager, StoredAccount, stored_vault,
  stored_action, stored_ticket, stored_asset,
}
use roshi.Feeds.Switchboard
use roshi.Feeds.Switchboard.{verify_account_contract, price_from_quote}
use roshi.Feeds.Session
use roshi.Feeds.Session.{
  leg_accounts, parse_leg, read_active, session_read, find_reused, price_or_read,
}
use roshi.Feeds.Session.Transparent.{AllLoaded}
use roshi.Accounts.{
  Platform, id, load, load_as_asset, load_as_ticket, find_sub_account_address, find_ticket_address,
  find_asset_address, associated_token_address, require_writable,
}
use roshi.Accounts.Deposits.{
  LoadedDeposit, verify_asset, verify_inventory, parse_base_leg, read_base_price, price_asset,
  resolve_asset_atoms, resolve_base_atoms,
}
use roshi.Accounts.Deposits.Worth.{IsPriced, resolve_base_atoms-IsPriced}
use roshi.Accounts.Settlements.{is_listed, verify_ticket_address, load_settlement, load_settlements}
use roshi.Accounts.Settlements.Distinct.{AllDue, AllDistinct, load_settlements-AllDue}
use roshi.Action.Hash.{empty_ops}
use roshi.Examples.{vault, key}
use roshi.Examples.Prices.{verifier, plain_account, quote_config, clock}

abbrev pub asset : Asset
asset = record {
  vault = key 1;
  asset_mint = key 65;
  oracle = switchboard_oracle quote_config;
  deposit_cap_atoms = 1000;
  asset_decimals = 6;
  enabled_flag = 1;
  routed_flag = 0;
  bump = 255;
}

abbrev pub action : Action
action = record {
  vault = key 1;
  action_hash = key 42;
  ops = empty_ops;
  fee_num = 1;
  fee_den = 10000;
  scope = manager;
  amount_offset = 0;
  bump = 255;
}

abbrev pub ticket : WithdrawalTicket
ticket = record {
  vault = key 1;
  owner = key 21;
  recipient_token_account = key 22;
  shares_burned = 100;
  assets_owed = 0;
  request_epoch = 4;
  request_slot = 700;
  ticket_index = 0;
  bump = 255;
}

-- Account data is one byte, the tag of the account, and every address is the same.
abbrev pub decode : Bytes → Option StoredAccount
decode [] = none
decode (n ∷ rest) =
    if n == 1
    then some (stored_vault vault)
    else if n == 2
    then some (stored_action action)
    else if n == 3
    then some (stored_ticket ticket)
    else if n == 4
    then some (stored_asset asset)
    else none

abbrev pub platform : Platform
platform = record { deserialize = decode; find_program_address = λ seeds program. (key 1, 255) }

abbrev pub program_account : ℕ → Account
program_account tag = record (plain_account (key 1)) {
  owner = id;
  bytes = tag ∷ [];
  is_writable = true;
}

abbrev pub token_account : Key → Key → Key → ℕ → Account
token_account k mint owner amount = record (plain_account k) {
  owner = token_program_id;
  bytes = mint ++ (owner ++ (to_le_bytes 8 amount ++ (replicate 36 0 ++ (1 ∷ replicate 56 0))));
  is_writable = true;
}

abbrev pub signer : Key → Account
signer k = record (plain_account k) { is_signer = true; is_writable = true }

-- A deposit of 100 atoms of an asset at 0.05 base tokens.
abbrev loaded_deposit : LoadedDeposit
loaded_deposit = record {
  depositor = signer (key 80);
  vault_account = program_account 1;
  source = token_account (key 81) (key 65) (key 80) 500;
  custody = token_account (key 1) (key 65) (key 1) 200;
  share_dest = plain_account (key 82);
  share_mint = plain_account (key 7);
  asset_token_program = plain_account token_program_id;
  extra =
      program_account 4
      ∷ plain_account (key 62)
      ∷ plain_account (key 63)
      ∷ plain_account (key 60)
      ∷ plain_account (key 61)
      ∷ [];
  vault = vault;
}

abbrev deposit_args : DepositArgs
deposit_args = record { asset_mint = key 65; amount = 100; min_shares_out = 0; access_proof = [] }

abbrev account : Key → Account
account k = if bytes_eq k (key 1) then program_account 4 else plain_account k

extra-AllLoaded : AllLoaded account loaded_deposit.extra
unfolding AllLoaded bytes_eq
extra-AllLoaded = (refl, (refl, (refl, (refl, (refl, tt)))))

abbrev worth : ℕ
worth = 5

deposit_resolves : resolve_base_atoms platform verifier loaded_deposit deposit_args clock ≡ ok worth
unfolding resolve_base_atoms resolve_asset_atoms load_as_asset load validate_asset asset_flag
    enabled routed verify_asset verify_inventory price_asset parse_leg leg_accounts parse_base_leg
    session_read find_reused price_or_read Session.read_leg read_active
    Switchboard.read_verified_price verify_account_contract price_from_quote read_base_price
    bytes_eq find_sub_account_address find_asset_address associated_token_address token_amount
    is_token_program to_le_bytes from_le_bytes validate active config_kind active_of_kind
    validate_active switchboard_oracle switchboard_config switchboard_to_leg_bytes
    switchboard_from_leg_bytes write_leg read_leg store_byte load_byte base_atoms_from_asset_atoms
    scale_numerator scale_denominator pow10 checked_nonzero_u64 net_decimals checked_u64
deposit_resolves = refl

resolve_base_atoms-IsPriced_example :
    (key 1
      ≡ associated_token_address platform
          (find_sub_account_address platform (key 1) 10).0
          (key 65)
          token_program_id)
    × (((key 65 ≡ key 6) × (worth ≡ deposit_args.amount))
        ⊎ IsPriced platform verifier loaded_deposit deposit_args clock worth)
resolve_base_atoms-IsPriced_example =
    resolve_base_atoms-IsPriced platform verifier account loaded_deposit deposit_args clock
      extra-AllLoaded deposit_resolves

abbrev settlement : TicketSettlement
settlement = record {
  ticket_account = key 1;
  owner = key 21;
  destination = key 22;
  ticket = ticket;
}

settlement_loads :
    load_settlements platform vault
      (key 1)
      []
      (program_account 3 ∷ signer (key 21) ∷ token_account (key 22) (key 6) (key 21) 0 ∷ [])
    ≡ ok (settlement ∷ [])
unfolding load_settlements load_settlement require_writable load_as_ticket load
    verify_ticket_address find_ticket_address is_listed verify_token_account_mint is_token_program
    bytes_eq to_le_bytes from_le_bytes
settlement_loads = refl

no_settlements : AllDue platform (key 1) [] × AllDistinct []
unfolding AllDue AllDistinct
no_settlements = (tt, tt)

load_settlements-AllDue_example :
    AllDue platform (key 1) (settlement ∷ []) × AllDistinct (settlement ∷ [])
load_settlements-AllDue_example =
    load_settlements-AllDue platform vault (key 1) []
      (program_account 3 ∷ signer (key 21) ∷ token_account (key 22) (key 6) (key 21) 0 ∷ [])
      no_settlements.0 no_settlements.1 settlement_loads
