-- ===== src/Feeds/Pyth.antt =====
-- crates/roshi/src/oracle/pyth.rs: the reading of a Pyth price update, and of what an accepted price
-- can be relied on.
pub mod Accepted
use roshi.Common.{
  ℕ, Bool, true, false, not, ◌||◌, ◌^◌, ◌-◌, [], ◌∷◌, Option, none, some, ltb, if◌then◌else◌,
}
use roshi.Common.Result.{ok, err, ◌>>=◌, ◌>>◌, fail_if, ok_or}
use roshi.Common.Error.{invalid_account_data, illegal_owner}
use roshi.Common.Int.{ℤ, pos, ◌+ℤ◌, i64_max, ltb_ℤ}
use roshi.Common.Bytes.{Bytes, Key, bytes_eq}
use roshi.Math.{OraclePrice}
use roshi.Oracle.{PythOracleConfig, pinned_price_update_account}
use roshi.Vault.{ProgramResult}
use roshi.Token.{Account}
use roshi.Feeds.Parse.{VerificationLevel, partial, full, PriceUpdate, parse_update, price_from_pyth}

-- rec5EKMGg6MxZYaMdyBfgwp4d5rB9T1VQH5pJv5LtFJ
abbrev pub solana_receiver_program_id : Key
solana_receiver_program_id =
    12 ∷ 183 ∷ 250 ∷ 187 ∷ 82 ∷ 247 ∷ 166 ∷ 72 ∷ 187 ∷ 91 ∷ 49 ∷ 125 ∷ 154 ∷ 1 ∷ 139 ∷ 144 ∷ 87
    ∷ 203 ∷ 2 ∷ 71 ∷ 116 ∷ 250 ∷ 254 ∷ 1 ∷ 230 ∷ 196 ∷ 223 ∷ 152 ∷ 204 ∷ 56 ∷ 88 ∷ 129 ∷ []

unfoldable pub is_full : VerificationLevel → Bool
is_full full = true
is_full (partial num_signatures) = false

-- `saturating_add` of an `i64` and a bound that is not negative.
unfoldable pub saturating_add_i64 : ℤ → ℕ → ℤ
saturating_add_i64 a n = if ltb_ℤ i64_max (a +ℤ pos n) then i64_max else a +ℤ pos n

unfoldable pub read_verified_update : PythOracleConfig → PriceUpdate → ℤ → ProgramResult OraclePrice
read_verified_update c update now = do
  fail_if (ltb (2 ^ 63 - 1) c.max_age_seconds) invalid_account_data
  fail_if
      (not (is_full update.verification_level)
        || not (bytes_eq update.price.feed_id c.feed_id)
        || ltb_ℤ (saturating_add_i64 update.price.publish_time c.max_age_seconds) now)
      invalid_account_data
  ok_or (price_from_pyth c update.price) invalid_account_data

unfoldable pub verify_pin : Option Key → Key → ProgramResult (Unit {0})
verify_pin none key = ok tt
verify_pin (some pinned) key = fail_if (not (bytes_eq key pinned)) invalid_account_data

unfoldable pub read_verified_price : PythOracleConfig → Account → ℤ → ProgramResult OraclePrice
read_verified_price c account now = do
  verify_pin (pinned_price_update_account c) account.key
  fail_if (not (bytes_eq account.owner solana_receiver_program_id)) illegal_owner
  update ← ok_or (parse_update account.bytes) invalid_account_data
  read_verified_update c update now
