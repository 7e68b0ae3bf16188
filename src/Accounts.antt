-- ===== src/Accounts.antt =====
-- crates/roshi/src/state: how an account becomes a value that a handler trusts, by its owner, its
-- type, its own validation and its address; and the checks of instructions/accounts/shared.rs. The
-- decoding of account data and the derivation of addresses are parameters.
pub mod Checks
pub mod Deposits
pub mod Settlements
pub mod Swaps
use roshi.Common.{
  ℕ, Bool, not, ◌||◌, List, [], ◌∷◌, Option, none, some, ◌==◌, if◌then◌else◌, ltb, leb,
}
use roshi.Common.Result.{ok, err, ◌>>=◌, ◌>>◌, fail_if, ok_or}
use roshi.Common.Error.{
  program_error, illegal_owner, invalid_account_data, invalid_seeds, incorrect_program_id,
  missing_required_signature, account_already_initialized, not_enough_account_keys,
  invalid_vault_account, invalid_action_account, invalid_withdrawal_ticket_account,
  invalid_asset_account, invalid_external_destination_account, invalid_program_config_account,
  unauthorized_action,
}
use roshi.Common.Bytes.{Bytes, Key, bytes_eq, length, replicate}
use roshi.Vault.{Vault, Role, ProgramResult}
use roshi.Vault.Config.{validate_state, tag_seed, validate_tag}
use roshi.Token.{Account, token_program_id}
use roshi.Redeem.{vault_seed}
use roshi.Withdrawals.{sub_account_seed}
use roshi.Tickets.{WithdrawalTicket}
use roshi.NavReport.{Signer, verify_role}
use roshi.Records.{
  Asset, validate_asset, Action, ExternalDestination, ProgramConfig, StoredAccount, stored_vault,
  stored_action, stored_ticket, stored_asset, stored_destination, stored_config,
}

-- RoshianbALLAs1RzbvHSHpLRaA8ayaKERQCbfmLb9UP
abbrev pub id : Key
id =
    6 ∷ 90 ∷ 240 ∷ 177 ∷ 218 ∷ 150 ∷ 106 ∷ 217 ∷ 233 ∷ 137 ∷ 234 ∷ 135 ∷ 93 ∷ 244 ∷ 238 ∷ 214 ∷ 100
    ∷ 17 ∷ 78 ∷ 110 ∷ 88 ∷ 191 ∷ 111 ∷ 135 ∷ 238 ∷ 109 ∷ 236 ∷ 146 ∷ 174 ∷ 26 ∷ 147 ∷ 212 ∷ []

-- ATokenGPvbdGVxr1b2hvZbsiqW5xWH25efTNsLJA8knL
abbrev pub associated_token_program_id : Key
associated_token_program_id =
    140 ∷ 151 ∷ 37 ∷ 143 ∷ 78 ∷ 36 ∷ 137 ∷ 241 ∷ 187 ∷ 61 ∷ 16 ∷ 41 ∷ 20 ∷ 142 ∷ 13 ∷ 131 ∷ 11 ∷ 90
    ∷ 19 ∷ 153 ∷ 218 ∷ 255 ∷ 16 ∷ 132 ∷ 4 ∷ 142 ∷ 123 ∷ 216 ∷ 219 ∷ 233 ∷ 248 ∷ 89 ∷ []

-- `system_program::ID`
abbrev pub system_program_id : Key
system_program_id = replicate 32 0

-- `wincode::deserialize`, and `Pubkey::find_program_address` of seeds and a program.
pub record Platform : Type 0 where
  pub deserialize : Bytes → Option StoredAccount
  pub find_program_address : List Bytes → Key → Key × ℕ

abbrev pub signer_of : Account → Signer
signer_of a = record { key = a.key; is_signer = a.is_signer }

-- `next_account`, with the accounts that follow.
unfoldable pub next_account : List Account → ProgramResult (Account × List Account)
next_account [] = err not_enough_account_keys
next_account (a ∷ rest) = ok (a, rest)

unfoldable pub require_writable : Account → ProgramResult (Unit {0})
require_writable a = fail_if (not a.is_writable) invalid_account_data

unfoldable pub require_writable_signer : Account → ProgramResult (Unit {0})
require_writable_signer a = do
  fail_if (not a.is_signer) missing_required_signature
  require_writable a

unfoldable pub require_uninitialized_account : Account → ProgramResult (Unit {0})
require_uninitialized_account a =
    fail_if (not (length a.bytes == 0) || not (bytes_eq a.owner system_program_id))
      account_already_initialized

unfoldable pub require_system_program : Account → ProgramResult (Unit {0})
require_system_program a = fail_if (not (bytes_eq a.key system_program_id)) incorrect_program_id

-- The contexts' test of the share token program.
unfoldable pub require_token_program : Account → ProgramResult (Unit {0})
require_token_program a = fail_if (not (bytes_eq a.key token_program_id)) incorrect_program_id

module _ (p : Platform) where
  unfoldable pub load : Account → ProgramResult StoredAccount
  load a = do
    fail_if (not (bytes_eq a.owner id)) illegal_owner
    ok_or (p.deserialize a.bytes) invalid_account_data

  -- `load_as` at each type: the variant of the enum, and then `validate`.
  unfoldable pub load_as_vault : Account → ProgramResult Vault
  load_as_vault a = do
    stored ← load a
    vault ← elim stored [ stored_vault v ↦ ok v | _ ↦ err (program_error invalid_vault_account) ]
    validate_state vault
    ok vault

  unfoldable pub load_as_asset : Account → ProgramResult Asset
  load_as_asset a = do
    stored ← load a
    asset ← elim stored [ stored_asset v ↦ ok v | _ ↦ err (program_error invalid_asset_account) ]
    validate_asset asset
    ok asset

  unfoldable pub load_as_action : Account → ProgramResult Action
  load_as_action a = do
    stored ← load a
    elim stored [ stored_action v ↦ ok v | _ ↦ err (program_error invalid_action_account) ]

  unfoldable pub load_as_ticket : Account → ProgramResult WithdrawalTicket
  load_as_ticket a = do
    stored ← load a
    elim stored [
      | stored_ticket v ↦ ok v
      | _ ↦ err (program_error invalid_withdrawal_ticket_account)
    ]

  unfoldable pub load_as_destination : Account → ProgramResult ExternalDestination
  load_as_destination a = do
    stored ← load a
    elim stored [
      | stored_destination v ↦ ok v
      | _ ↦ err (program_error invalid_external_destination_account)
    ]

  unfoldable pub load_as_config : Account → ProgramResult ProgramConfig
  load_as_config a = do
    stored ← load a
    elim stored [ stored_config v ↦ ok v | _ ↦ err (program_error invalid_program_config_account) ]

  -- The `find_address` functions, each with its seed.
  unfoldable pub find_vault_address : Bytes → Key → ProgramResult (Key × ℕ)
  find_vault_address tag base_mint = do
    validate_tag tag
    ok (p.find_program_address (vault_seed ∷ tag ∷ base_mint ∷ []) id)

  -- `b"sub_account"`
  unfoldable pub find_sub_account_address : Key → ℕ → Key × ℕ
  find_sub_account_address vault index =
      p.find_program_address (sub_account_seed ∷ vault ∷ (index ∷ []) ∷ []) id

  -- `b"action"`
  unfoldable pub find_action_address : Key → Key → Key × ℕ
  find_action_address vault action_hash =
      p.find_program_address ((97 ∷ 99 ∷ 116 ∷ 105 ∷ 111 ∷ 110 ∷ []) ∷ vault ∷ action_hash ∷ []) id

  -- `b"ticket"`
  unfoldable pub find_ticket_address : Key → Key → ℕ → Key × ℕ
  find_ticket_address vault owner ticket_index =
      p.find_program_address
        ((116 ∷ 105 ∷ 99 ∷ 107 ∷ 101 ∷ 116 ∷ []) ∷ vault ∷ owner ∷ (ticket_index ∷ []) ∷ []) id

  -- `b"asset"`
  unfoldable pub find_asset_address : Key → Key → Key × ℕ
  find_asset_address vault asset_mint =
      p.find_program_address ((97 ∷ 115 ∷ 115 ∷ 101 ∷ 116 ∷ []) ∷ vault ∷ asset_mint ∷ []) id

  -- `b"external_destination"`
  unfoldable pub find_destination_address : Key → Key → Key × ℕ
  find_destination_address vault token_account =
      p.find_program_address
        ((101 ∷ 120 ∷ 116 ∷ 101 ∷ 114 ∷ 110 ∷ 97 ∷ 108 ∷ 95 ∷ 100 ∷ 101 ∷ 115 ∷ 116 ∷ 105 ∷ 110 ∷ 97
            ∷ 116 ∷ 105 ∷ 111 ∷ 110 ∷ [])
          ∷ vault
          ∷ token_account
          ∷ [])
        id

  -- `b"program_config"`
  unfoldable pub find_config_address : Key × ℕ
  find_config_address =
      p.find_program_address
        ((112 ∷ 114 ∷ 111 ∷ 103 ∷ 114 ∷ 97 ∷ 109 ∷ 95 ∷ 99 ∷ 111 ∷ 110 ∷ 102 ∷ 105 ∷ 103 ∷ []) ∷ [])
        id

  unfoldable pub associated_token_address : Key → Key → Key → Key
  associated_token_address wallet mint token_program =
      (p.find_program_address (wallet ∷ token_program ∷ mint ∷ []) associated_token_program_id).0

  unfoldable pub verify_vault_address : Vault → Key → ProgramResult (Unit {0})
  verify_vault_address v vault_key = do
    tag ← tag_seed v
    (expected_vault_key, expected_bump) ← find_vault_address tag v.base_mint
    fail_if (not (bytes_eq vault_key expected_vault_key) || not (v.bump == expected_bump))
        invalid_seeds

  unfoldable pub load_checked : Account → ProgramResult Vault
  load_checked a = do vault ← load_as_vault a; verify_vault_address vault a.key; ok vault

  -- `VaultRoleContext::load`
  unfoldable pub load_vault_with_role : Account → Account → Role → ProgramResult Vault
  load_vault_with_role authority vault_account role = do
    vault ← load_checked vault_account
    verify_role vault role (signer_of authority)
    ok vault

  unfoldable pub verify_sub_account : Key → ℕ → Account → ProgramResult ℕ
  verify_sub_account vault index sub_account = do
    let expected = find_sub_account_address vault index
    fail_if (not (bytes_eq sub_account.key expected.0)) invalid_seeds
    fail_if (not (bytes_eq sub_account.owner system_program_id)) illegal_owner
    fail_if (not (length sub_account.bytes == 0) || sub_account.executable) invalid_account_data
    ok expected.1

  unfoldable pub verify_for_vault : Action → Key → Key → ProgramResult (Unit {0})
  verify_for_vault action vault action_key = do
    fail_if (not (bytes_eq action.vault vault)) (program_error unauthorized_action)
    let expected = find_action_address vault action.action_hash
    fail_if (not (bytes_eq action_key expected.0) || not (action.bump == expected.1)) invalid_seeds

  -- `ProgramConfigAuthorityContext::load`
  unfoldable pub load_config_with_authority : Account → Account → ProgramResult ProgramConfig
  load_config_with_authority authority config_account = do
    fail_if (not (bytes_eq config_account.key find_config_address.0)) invalid_seeds
    config ← load_as_config config_account
    fail_if (not (bytes_eq authority.key config.authority)) illegal_owner
    fail_if (not authority.is_signer) missing_required_signature
    ok config

  -- `try_transfer_program_authority`
  unfoldable pub try_transfer_program_authority :
      Account → Account → Key → ProgramResult ProgramConfig
  try_transfer_program_authority authority config_account new_authority = do
    require_writable config_account
    load_config_with_authority authority config_account
    ok (record { authority = new_authority })
