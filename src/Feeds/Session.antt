-- ===== src/Feeds/Session.antt =====
-- crates/roshi/src/instructions/accounts/oracle_price.rs: the legs of a valuation, and the session
-- that reads a repeated feed once.
pub mod Equality
pub mod Transparent
use roshi.Common.{
  ℕ, ◌+◌, Bool, true, false, not, ◌&&◌, List, [], ◌∷◌, ◌++◌, Option, none, some, ltb, leb, ◌==◌,
  if◌then◌else◌,
}
use roshi.Common.Result.{ok, err, ◌>>=◌, ◌>>◌, fail_if, ok_or, map_err}
use roshi.Common.Error.{invalid_account_data, not_enough_account_keys}
use roshi.Common.Int.{ℤ}
use roshi.Common.Bytes.{Bytes, Key, bytes_eq, length, take, drop}
use roshi.Math.{OraclePrice}
use roshi.Oracle.{
  OracleConfig, SwitchboardOracleConfig, PythOracleConfig, ScopeOracleConfig, ActiveOracleConfig,
  active_switchboard, active_pyth, active_scope, active,
}
use roshi.Vault.{ProgramResult}
use roshi.Token.{Account}
use roshi.Feeds.Pyth
use roshi.Feeds.Scope
use roshi.Feeds.Scope.{mapping_eq}
use roshi.Feeds.Switchboard
use roshi.Feeds.Switchboard.{QuoteVerifier}

abbrev pub pyth_leg_accounts : ℕ
pyth_leg_accounts = 1

abbrev pub switchboard_leg_accounts : ℕ
switchboard_leg_accounts = 4

abbrev pub scope_leg_accounts : ℕ
scope_leg_accounts = 2

pub record OracleLeg : Type 0 where
  pub config : ActiveOracleConfig
  pub accounts : List Account

pub record Clock : Type 0 where
  pub slot : ℕ
  pub unix_timestamp : ℤ

unfoldable pub leg_accounts : ActiveOracleConfig → ℕ
leg_accounts (active_pyth c) = pyth_leg_accounts
leg_accounts (active_switchboard c) = switchboard_leg_accounts
leg_accounts (active_scope c) = scope_leg_accounts

-- The leg, and the accounts that remain.
unfoldable pub parse_leg : OracleConfig → List Account → ProgramResult (OracleLeg × List Account)
parse_leg oracle accounts = do
  config ← map_err (λ _. invalid_account_data) (active oracle)
  fail_if (ltb (length accounts) (leg_accounts config)) not_enough_account_keys
  ok (
    record { config = config; accounts = take (leg_accounts config) accounts },
    drop (leg_accounts config) accounts,
  )

module _ {OracleQuote : Type 0} (verifier : QuoteVerifier OracleQuote) where
  -- `split_leg` fails where a leg has too few accounts.
  unfoldable pub read_active : ActiveOracleConfig → List Account → Clock → ProgramResult OraclePrice
  read_active (active_pyth c) (price_account ∷ _) clock =
      Pyth.read_verified_price c price_account clock.unix_timestamp
  read_active (active_switchboard c) (quote ∷ queue ∷ slothash ∷ ix_sysvar ∷ _) clock =
      Switchboard.read_verified_price verifier c quote queue slothash ix_sysvar clock.slot
  read_active (active_scope c) (prices ∷ mappings ∷ _) clock =
      Scope.read_verified_price c prices mappings clock.unix_timestamp
  read_active _ _ clock = err not_enough_account_keys

  unfoldable pub read_leg : OracleLeg → Clock → ProgramResult OraclePrice
  read_leg leg clock = read_active leg.config leg.accounts clock

pub data OracleFeedKey : Type 0 where
  switchboard_feed : Key → OracleFeedKey
  pyth_feed : Key → OracleFeedKey
  scope_feed : (prices_account : Key) (price_index : ℕ) → OracleFeedKey

unfoldable pub feed_key : ActiveOracleConfig → OracleFeedKey
feed_key (active_switchboard c) = switchboard_feed c.feed_id
feed_key (active_pyth c) = pyth_feed c.feed_id
feed_key (active_scope c) = scope_feed c.prices_account c.price_index

-- `==` on feed keys.
unfoldable pub feed_key_eq : OracleFeedKey → OracleFeedKey → Bool
feed_key_eq (switchboard_feed k) (switchboard_feed l) = bytes_eq k l
feed_key_eq (pyth_feed k) (pyth_feed l) = bytes_eq k l
feed_key_eq (scope_feed k i) (scope_feed l j) = bytes_eq k l && (i == j)
feed_key_eq _ _ = false

-- `==` on configurations, field by field.
unfoldable pub switchboard_eq : SwitchboardOracleConfig → SwitchboardOracleConfig → Bool
switchboard_eq c d =
    bytes_eq c.quote_account d.quote_account
    && (bytes_eq c.queue_account d.queue_account
        && (bytes_eq c.feed_id d.feed_id
            && ((c.max_age_slots == d.max_age_slots)
                && ((c.price_decimals == d.price_decimals) && bytes_eq c.padding d.padding))))

unfoldable pub pyth_eq : PythOracleConfig → PythOracleConfig → Bool
pyth_eq c d =
    bytes_eq c.feed_id d.feed_id
    && (bytes_eq c.price_update_account d.price_update_account
        && ((c.max_age_seconds == d.max_age_seconds)
            && ((c.max_confidence_bps == d.max_confidence_bps)
                && ((c.price_decimals == d.price_decimals) && bytes_eq c.padding d.padding))))

unfoldable pub scope_eq : ScopeOracleConfig → ScopeOracleConfig → Bool
scope_eq c d =
    bytes_eq c.prices_account d.prices_account
    && (mapping_eq c.mapping d.mapping
        && ((c.max_age_seconds == d.max_age_seconds)
            && ((c.price_index == d.price_index) && bytes_eq c.padding d.padding)))

unfoldable pub config_eq : ActiveOracleConfig → ActiveOracleConfig → Bool
config_eq (active_switchboard c) (active_switchboard d) = switchboard_eq c d
config_eq (active_pyth c) (active_pyth d) = pyth_eq c d
config_eq (active_scope c) (active_scope d) = scope_eq c d
config_eq _ _ = false

unfoldable pub feeds_match : ActiveOracleConfig → ActiveOracleConfig → ProgramResult Bool
feeds_match left right =
    if not (feed_key_eq (feed_key left) (feed_key right))
    then ok false
    else if not (config_eq left right)
    then err invalid_account_data
    else ok true

unfoldable pub same_account_keys : List Account → List Account → Bool
same_account_keys [] [] = true
same_account_keys (a ∷ left) (b ∷ right) = bytes_eq a.key b.key && same_account_keys left right
same_account_keys _ _ = false

pub record VerifiedOracleLeg : Type 0 where
  pub leg : OracleLeg
  pub price : OraclePrice

-- The array of three slots and its length, as the list of the legs so far. A fourth read would run
-- off the array; the valuations of the program read at most three legs.
abbrev pub OracleReadSession : Type 0
OracleReadSession = List VerifiedOracleLeg

-- The loop of `read` over the verified legs, with the price it has found so far.
unfoldable pub find_reused :
    OracleLeg → List VerifiedOracleLeg → Option OraclePrice → ProgramResult (Option OraclePrice)
find_reused leg [] reused = ok reused
find_reused leg (v ∷ rest) reused = do
  same ← feeds_match leg.config v.leg.config
  if not same then find_reused leg rest reused else do
    fail_if (not (same_account_keys leg.accounts v.leg.accounts)) invalid_account_data
    find_reused leg rest (some v.price)

module _ {OracleQuote : Type 0} (verifier : QuoteVerifier OracleQuote) where
  unfoldable pub price_or_read : Option OraclePrice → OracleLeg → Clock → ProgramResult OraclePrice
  price_or_read (some price) leg clock = ok price
  price_or_read none leg clock = read_leg verifier leg clock

  unfoldable pub session_read :
      OracleReadSession → OracleLeg → Clock → ProgramResult (OraclePrice × OracleReadSession)
  session_read session leg clock = do
    reused ← find_reused leg session none
    price ← price_or_read reused leg clock
    ok (price, session ++ (record { leg = leg; price = price } ∷ []))
