-- ===== src/Feeds/Switchboard.antt =====
-- crates/roshi/src/oracle/switchboard.rs. The quote verifier of the Switchboard library, and the
-- quotes that it gives, are parameters.
use roshi.Common.{ℕ, not, ◌||◌, Option}
use roshi.Common.Result.{ok, ◌>>=◌, ◌>>◌, fail_if, ok_or}
use roshi.Common.Error.{invalid_account_data}
use roshi.Common.Int.{ℤ, pos, leb_ℤ, try_to_u128}
use roshi.Common.Bytes.{Key, bytes_eq}
use roshi.Math.{OraclePrice}
use roshi.Oracle.{SwitchboardOracleConfig}
use roshi.Vault.{ProgramResult}
use roshi.Token.{Account}

-- What the library offers: the verification of a quote account against its queue, the two sysvars,
-- the slot and the maximal age, and the value of a feed in a quote.
pub record QuoteVerifier (OracleQuote : Type 0) : Type 0 where
  pub verify_account : Account → Account → Account → ℕ → ℕ → Key → Account → Option OracleQuote
  pub feed_value : OracleQuote → Key → Option ℤ
  -- `sysvar::slot_hashes::ID` and `sysvar::instructions::ID`
  pub slot_hashes_id : Key
  pub instructions_id : Key

module _ {OracleQuote : Type 0} (verifier : QuoteVerifier OracleQuote) where
  unfoldable pub verify_account_contract :
      SwitchboardOracleConfig → Account → Account → Account → Account → ProgramResult (Unit {0})
  verify_account_contract c quote queue slothash instructions =
      fail_if
        (not (bytes_eq quote.key c.quote_account)
          || not (bytes_eq queue.key c.queue_account)
          || not (bytes_eq slothash.key verifier.slot_hashes_id)
          || not (bytes_eq instructions.key verifier.instructions_id))
        invalid_account_data

  unfoldable pub price_from_quote :
      SwitchboardOracleConfig → OracleQuote → ProgramResult OraclePrice
  price_from_quote c quote = do
    raw_value ← ok_or (verifier.feed_value quote c.feed_id) invalid_account_data
    fail_if (leb_ℤ raw_value (pos 0)) invalid_account_data
    value ← ok_or (try_to_u128 raw_value) invalid_account_data
    ok (record { value = value; decimals = c.price_decimals })

  unfoldable pub read_verified_price :
      SwitchboardOracleConfig
      → Account
      → Account
      → Account
      → Account
      → ℕ
      → ProgramResult OraclePrice
  read_verified_price c quote queue slothash instructions clock_slot = do
    verify_account_contract c quote queue slothash instructions
    parsed ←
        ok_or
          (verifier.verify_account queue slothash instructions clock_slot c.max_age_slots queue.key
            quote)
          invalid_account_data
    price_from_quote c parsed
