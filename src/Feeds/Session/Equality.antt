-- ===== src/Feeds/Session/Equality.antt =====
-- oracle_price.rs: configurations that compare as equal are equal.
use roshi.Common.{◌≡◌, ap, Bool-cases, inl, inr, true, not, ==→eq, not-false, and_true}
use roshi.Common.Result.{ok}
use roshi.Common.Bytes.{bytes_eq→eq}
use roshi.Oracle.{
  SwitchboardOracleConfig, PythOracleConfig, ScopeOracleConfig, ActiveOracleConfig,
  active_switchboard, active_pyth, active_scope,
}
use roshi.Feeds.Scope.Accepted.{mapping_eq→eq}
use roshi.Feeds.Session.{
  feed_key, feed_key_eq, switchboard_eq, pyth_eq, scope_eq, config_eq, feeds_match,
}

switchboard_eq→eq : (c d : SwitchboardOracleConfig) → switchboard_eq c d ≡ true → c ≡ d
unfolding switchboard_eq
switchboard_eq→eq c d h =
    let (quote, h) = and_true _ _ h in
    let (queue, h) = and_true _ _ h in
    let (feed, h) = and_true _ _ h in
    let (age, h) = and_true _ _ h in
    let (decimals, padding) = and_true _ _ h in
    let quote = bytes_eq→eq c.quote_account d.quote_account quote in
    let queue = bytes_eq→eq c.queue_account d.queue_account queue in
    let feed = bytes_eq→eq c.feed_id d.feed_id feed in
    let age = ==→eq c.max_age_slots d.max_age_slots age in
    let decimals = ==→eq c.price_decimals d.price_decimals decimals in
    let padding = bytes_eq→eq c.padding d.padding padding in
    λ i. record {
      quote_account = quote i;
      queue_account = queue i;
      feed_id = feed i;
      max_age_slots = age i;
      price_decimals = decimals i;
      padding = padding i;
    }

pyth_eq→eq : (c d : PythOracleConfig) → pyth_eq c d ≡ true → c ≡ d
unfolding pyth_eq
pyth_eq→eq c d h =
    let (feed, h) = and_true _ _ h in
    let (account, h) = and_true _ _ h in
    let (age, h) = and_true _ _ h in
    let (confidence, h) = and_true _ _ h in
    let (decimals, padding) = and_true _ _ h in
    let feed = bytes_eq→eq c.feed_id d.feed_id feed in
    let account = bytes_eq→eq c.price_update_account d.price_update_account account in
    let age = ==→eq c.max_age_seconds d.max_age_seconds age in
    let confidence = ==→eq c.max_confidence_bps d.max_confidence_bps confidence in
    let decimals = ==→eq c.price_decimals d.price_decimals decimals in
    let padding = bytes_eq→eq c.padding d.padding padding in
    λ i. record {
      feed_id = feed i;
      price_update_account = account i;
      max_age_seconds = age i;
      max_confidence_bps = confidence i;
      price_decimals = decimals i;
      padding = padding i;
    }

scope_eq→eq : (c d : ScopeOracleConfig) → scope_eq c d ≡ true → c ≡ d
unfolding scope_eq
scope_eq→eq c d h =
    let (prices, h) = and_true _ _ h in
    let (mapping, h) = and_true _ _ h in
    let (age, h) = and_true _ _ h in
    let (index, padding) = and_true _ _ h in
    let prices = bytes_eq→eq c.prices_account d.prices_account prices in
    let mapping = mapping_eq→eq c.mapping d.mapping mapping in
    let age = ==→eq c.max_age_seconds d.max_age_seconds age in
    let index = ==→eq c.price_index d.price_index index in
    let padding = bytes_eq→eq c.padding d.padding padding in
    λ i. record {
      prices_account = prices i;
      mapping = mapping i;
      max_age_seconds = age i;
      price_index = index i;
      padding = padding i;
    }

config_eq→eq : (c d : ActiveOracleConfig) → config_eq c d ≡ true → c ≡ d
unfolding config_eq
config_eq→eq (active_switchboard c) (active_switchboard d) h =
    ap active_switchboard (switchboard_eq→eq c d h)
config_eq→eq (active_switchboard c) (active_pyth d) h = absurd (cc)
config_eq→eq (active_switchboard c) (active_scope d) h = absurd (cc)
config_eq→eq (active_pyth c) (active_switchboard d) h = absurd (cc)
config_eq→eq (active_pyth c) (active_pyth d) h = ap active_pyth (pyth_eq→eq c d h)
config_eq→eq (active_pyth c) (active_scope d) h = absurd (cc)
config_eq→eq (active_scope c) (active_switchboard d) h = absurd (cc)
config_eq→eq (active_scope c) (active_pyth d) h = absurd (cc)
config_eq→eq (active_scope c) (active_scope d) h = ap active_scope (scope_eq→eq c d h)

pub feeds_match→eq : (c d : ActiveOracleConfig) → feeds_match c d ≡ ok true → c ≡ d
unfolding feeds_match
feeds_match→eq c d h = elim (Bool-cases (not (feed_key_eq (feed_key c) (feed_key d)))) [
  | inl other ↦ let h = rw other at h in absurd (cc)
  | inr same ↦ elim (Bool-cases (not (config_eq c d))) [
    | inl changed ↦ let h = rw (same, changed) at h in absurd (cc)
    | inr equal ↦ config_eq→eq c d (not-false _ equal)
  ]
]
