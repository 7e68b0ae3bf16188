-- ===== src/Token.antt =====
-- crates/roshi/src/instructions/token.rs: the readers and verifiers of SPL mints and token
-- accounts. A byte is only indexed behind a test of the length; the
-- value that a reader here gives past the end is never used.
pub mod Extensions
use roshi.Common.{
  ℕ, ◌+◌, ◌-◌, ◌*◌, Bool, true, false, not, ◌&&◌, ◌||◌, List, [], ◌∷◌, zero, suc, ltb, leb, ◌==◌,
  if◌then◌else◌, Option, some, none,
}
use roshi.Common.Result.{Result, ok, err, ◌>>=◌, ◌>>◌, fail_if}
use roshi.Common.Error.{
  ProgramError, program_error, invalid_mint_account, invalid_token_account, incorrect_program_id,
}
use roshi.Common.Bytes.{Bytes, Key, bytes_eq, length, take, drop, get_elem?, from_le_bytes}
use roshi.Vault.{ProgramResult}

-- An account of the runtime, as far as the program reads it.
pub record Account : Type 0 where
  pub key : Key
  pub owner : Key
  pub bytes : Bytes
  pub is_signer : Bool
  pub is_writable : Bool
  pub executable : Bool

-- TokenkegQfeZyiNwAJbNbGKPFXCWuBvf9Ss623VQ5DA
abbrev pub token_program_id : Key
token_program_id =
    6 ∷ 221 ∷ 246 ∷ 225 ∷ 215 ∷ 101 ∷ 161 ∷ 147 ∷ 217 ∷ 203 ∷ 225 ∷ 70 ∷ 206 ∷ 235 ∷ 121 ∷ 172 ∷ 28
    ∷ 180 ∷ 133 ∷ 237 ∷ 95 ∷ 91 ∷ 55 ∷ 145 ∷ 58 ∷ 140 ∷ 245 ∷ 133 ∷ 126 ∷ 255 ∷ 0 ∷ 169 ∷ []

-- TokenzQdBNbLqP5VEhdkAS6EPFLC1PHnBqCXEpPxuEb
abbrev pub token_2022_program_id : Key
token_2022_program_id =
    6 ∷ 221 ∷ 246 ∷ 225 ∷ 238 ∷ 117 ∷ 143 ∷ 222 ∷ 24 ∷ 66 ∷ 93 ∷ 188 ∷ 228 ∷ 108 ∷ 205 ∷ 218 ∷ 182
    ∷ 26 ∷ 252 ∷ 77 ∷ 131 ∷ 185 ∷ 13 ∷ 39 ∷ 254 ∷ 189 ∷ 249 ∷ 40 ∷ 216 ∷ 161 ∷ 139 ∷ 252 ∷ []

abbrev pub mint_len : ℕ
mint_len = 82

abbrev pub token_account_len : ℕ
token_account_len = 165

unfoldable pub is_token_program : Key → Bool
is_token_program key = bytes_eq key token_program_id || bytes_eq key token_2022_program_id

-- `data[i]`
abbrev pub byte_at : Bytes → ℕ → ℕ
byte_at bytes i = elim (get_elem? bytes i) [ some b ↦ b | none ↦ 0 ]

-- `data[offset..offset + len]`
abbrev pub slice : Bytes → ℕ → ℕ → Bytes
slice bytes offset len = take len (drop offset bytes)

unfoldable pub mint_supply : Account → ProgramResult ℕ
mint_supply a = do
  fail_if (not (is_token_program a.owner)) (program_error invalid_mint_account)
  fail_if (ltb (length a.bytes) mint_len || not (byte_at a.bytes 45 == 1))
      (program_error invalid_mint_account)
  ok (from_le_bytes (slice a.bytes 36 8))

unfoldable pub token_amount : Account → ProgramResult ℕ
token_amount a = do
  fail_if (not (is_token_program a.owner)) (program_error invalid_token_account)
  fail_if (ltb (length a.bytes) token_account_len || not (byte_at a.bytes 108 == 1))
      (program_error invalid_token_account)
  ok (from_le_bytes (slice a.bytes 64 8))

unfoldable pub verify_token_account_mint : Account → Key → ProgramResult (Unit {0})
verify_token_account_mint a expected_mint = do
  fail_if (not (is_token_program a.owner)) (program_error invalid_token_account)
  fail_if (ltb (length a.bytes) token_account_len || not (byte_at a.bytes 108 == 1))
      (program_error invalid_token_account)
  fail_if (not (bytes_eq (slice a.bytes 0 32) expected_mint)) (program_error invalid_token_account)

unfoldable pub verify_token_account_mint_and_owner : Account → Key → Key → ProgramResult (Unit {0})
verify_token_account_mint_and_owner a expected_mint expected_owner = do
  verify_token_account_mint a expected_mint
  fail_if (not (bytes_eq (slice a.bytes 32 32) expected_owner))
      (program_error invalid_token_account)

unfoldable pub has_transfer_authority : Bytes → Bool
has_transfer_authority bytes =
    not (from_le_bytes (slice bytes 72 4) == 0) || not (from_le_bytes (slice bytes 129 4) == 0)

unfoldable pub has_close_authority : Bytes → Bool
has_close_authority bytes = not (from_le_bytes (slice bytes 129 4) == 0)

-- The initialized token account of a sub-account, as three verifiers read it.
abbrev pub verify_subaccount_owned : Account → Key → ProgramResult (Unit {0})
verify_subaccount_owned a subaccount = do
  fail_if (not (is_token_program a.owner)) (program_error invalid_token_account)
  fail_if (ltb (length a.bytes) token_account_len || not (byte_at a.bytes 108 == 1))
      (program_error invalid_token_account)
  fail_if (not (bytes_eq (slice a.bytes 32 32) subaccount)) (program_error invalid_token_account)

unfoldable pub verify_custody_account : Account → Key → ProgramResult (Unit {0})
verify_custody_account a subaccount = do
  verify_subaccount_owned a subaccount
  fail_if (has_transfer_authority a.bytes) (program_error invalid_token_account)

unfoldable pub verify_swap_endpoint_custody : Account → Key → ProgramResult (Unit {0})
verify_swap_endpoint_custody a subaccount = do
  verify_subaccount_owned a subaccount
  fail_if (has_close_authority a.bytes) (program_error invalid_token_account)

unfoldable pub verify_swap_endpoint_unchanged : Bytes → Account → ProgramResult (Unit {0})
verify_swap_endpoint_unchanged pre a =
    fail_if
      (not (length pre == length a.bytes)
        || not (bytes_eq (take 64 pre) (take 64 a.bytes))
        || not (bytes_eq (drop 72 pre) (drop 72 a.bytes)))
      (program_error invalid_token_account)

abbrev pub extension_metadata_pointer : ℕ
extension_metadata_pointer = 18

abbrev pub extension_token_metadata : ℕ
extension_token_metadata = 19

-- `u16::from_le_bytes([data[offset], data[offset + 1]])`
abbrev pub u16_at : Bytes → ℕ → ℕ
u16_at bytes offset = byte_at bytes offset + 256 * byte_at bytes (offset + 1)

-- The loop over the extensions. Each turn moves the offset on by at least 4, so that the length of
-- the data is fuel enough.
unfoldable pub scan_extensions : ℕ → Bytes → ℕ → ProgramResult (Unit {0})
scan_extensions zero bytes offset = err (program_error invalid_mint_account)
scan_extensions (suc fuel) bytes offset =
    let header_end = offset + 4 in
    let kind = u16_at bytes offset in
    let next = header_end + u16_at bytes (offset + 2) in
    let rest = scan_extensions fuel bytes next in
    if leb (length bytes) offset
    then ok tt
    else if ltb (length bytes) header_end
    then err (program_error invalid_mint_account)
    else if kind == 0
    then ok tt
    else if not (kind == extension_metadata_pointer) && not (kind == extension_token_metadata)
    then err (program_error invalid_mint_account)
    else if ltb (length bytes) next
    then err (program_error invalid_mint_account)
    else rest

unfoldable pub verify_token_2022_mint_extensions : Bytes → ProgramResult (Unit {0})
verify_token_2022_mint_extensions bytes =
    if length bytes == mint_len
    then ok tt
    else if leb (length bytes) token_account_len || not (byte_at bytes token_account_len == 1)
    then err (program_error invalid_mint_account)
    else scan_extensions (length bytes) bytes (token_account_len + 1)

unfoldable pub verify_mint_layout : Account → ProgramResult (Unit {0})
verify_mint_layout a =
    if bytes_eq a.owner token_2022_program_id
    then verify_token_2022_mint_extensions a.bytes
    else fail_if (not (length a.bytes == mint_len)) (program_error invalid_mint_account)

unfoldable pub verify_mint_authority : Account → Option Key → ProgramResult (Unit {0})
verify_mint_authority a none = ok tt
verify_mint_authority a (some authority) =
    fail_if
      (not (from_le_bytes (slice a.bytes 0 4) == 1)
        || not (bytes_eq (slice a.bytes 4 32) authority))
      (program_error invalid_mint_account)

unfoldable pub verify_mint : Account → Key → ℕ → Option Key → ProgramResult (Unit {0})
verify_mint a expected_key decimals expected_authority = do
  fail_if (not (bytes_eq a.key expected_key) || not (is_token_program a.owner))
      (program_error invalid_mint_account)
  verify_mint_layout a
  fail_if
      (ltb (length a.bytes) mint_len
        || not (byte_at a.bytes 45 == 1)
        || not (byte_at a.bytes 44 == decimals))
      (program_error invalid_mint_account)
  verify_mint_authority a expected_authority

-- `token_account_mint`
unfoldable pub token_account_mint : Account → ProgramResult Key
token_account_mint a = do
  fail_if (ltb (length a.bytes) token_account_len) (program_error invalid_token_account)
  ok (slice a.bytes 0 32)

unfoldable pub verify_token_program : Account → ProgramResult (Unit {0})
verify_token_program a = fail_if (not (is_token_program a.key)) incorrect_program_id

unfoldable pub verify_token_program_for : Account → Account → ProgramResult (Unit {0})
verify_token_program_for token_program token_account = do
  verify_token_program token_program
  fail_if (not (bytes_eq token_account.owner token_program.key)) incorrect_program_id
