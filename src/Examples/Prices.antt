-- ===== src/Examples/Prices.antt =====
-- The oracle readers, at concrete accounts and updates.
use roshi.Common.{ℕ, ◌*◌, ◌≡◌, refl, arith, false, some, [], ◌∷◌, ◌++◌}
use roshi.Common.Result.{ok}
use roshi.Common.Int.{pos, negsuc, ◌+ℤ◌}
use roshi.Common.Bytes.{Key, replicate, bytes_eq, to_le_bytes, from_le_bytes}
use roshi.Math.{OraclePrice}
use roshi.Oracle.{
  PythOracleConfig, ScopeOracleConfig, ScopeOracleMapping, SwitchboardOracleConfig,
  active_switchboard,
}
use roshi.Token.{Account}
use roshi.Feeds.Parse.{
  PriceUpdate, full, scale_price, price_scale, scaled_price, price_from_pyth,
  confidence_within_bounds, well_formed, mapping_array_entry, dated_field, parse_dated_price,
  price_from_entry,
}
use roshi.Feeds.Pyth.{read_verified_update, is_full, saturating_add_i64}
use roshi.Feeds.Pyth.Accepted.{IsBacked, read_verified_update-IsBacked}
use roshi.Feeds.Scope
use roshi.Feeds.Scope.{
  scope_program_id, oracle_prices_discriminator, oracle_mappings_discriminator, is_frozen,
  without_flag, mapping_eq, mapping_at, verify_mapping_entry, try_to_u64, verify_freshness,
}
use roshi.Feeds.Scope.Accepted.{IsAccepted, read_verified_price-IsAccepted}
use roshi.Feeds.Switchboard
use roshi.Feeds.Switchboard.{QuoteVerifier, verify_account_contract, price_from_quote}
use roshi.Feeds.Session.{
  OracleLeg, Clock, read_active, read_leg, feed_key, feed_key_eq, switchboard_eq, config_eq,
  feeds_match, same_account_keys, find_reused, price_or_read, session_read,
}
use roshi.Feeds.Session.Transparent.{
  AllLoaded, AllLegsLoaded, session_prices, direct_prices, session_prices-direct_prices,
}
use roshi.Examples.{key}

abbrev pyth_config : PythOracleConfig
pyth_config = record {
  feed_id = key 50;
  price_update_account = key 0;
  max_age_seconds = 60;
  max_confidence_bps = 100;
  price_decimals = 6;
  padding = replicate 5 0;
}

-- 1.23456789 with the exponent -8, published 30 seconds ago.
abbrev update : PriceUpdate
update = record {
  verification_level = full;
  price = record {
    feed_id = key 50;
    price = pos 123456789;
    conf = 1000;
    exponent = negsuc 7;
    publish_time = pos 970;
  };
  posted_slot = 5;
}

abbrev pyth_price : OraclePrice
pyth_price = record { value = 1234567; decimals = 6 }

update_read : read_verified_update pyth_config update (pos 1000) ≡ ok pyth_price
unfolding read_verified_update is_full bytes_eq saturating_add_i64 ◌+ℤ◌ price_from_pyth
    confidence_within_bounds scaled_price scale_price price_scale
update_read = refl

read_verified_update-IsBacked_example : IsBacked pyth_config update (pos 1000) pyth_price
read_verified_update-IsBacked_example =
    read_verified_update-IsBacked pyth_config update (pos 1000) (omega arith) update_read

-- A verifier that takes every quote, whose feeds are all at 5.
abbrev pub verifier : QuoteVerifier ℕ
verifier = record {
  verify_account = λ queue slothash instructions slot max_age queue_key quote. some 5;
  feed_value = λ quote feed. some (pos quote);
  slot_hashes_id = key 60;
  instructions_id = key 61;
}

abbrev pub plain_account : Key → Account
plain_account k = record {
  key = k;
  owner = key 0;
  bytes = [];
  is_signer = false;
  is_writable = false;
  executable = false;
}

abbrev pub quote_config : SwitchboardOracleConfig
quote_config = record {
  quote_account = key 62;
  queue_account = key 63;
  feed_id = key 64;
  max_age_slots = 10;
  price_decimals = 2;
  padding = replicate 7 0;
}

abbrev leg : OracleLeg
leg = record {
  config = active_switchboard quote_config;
  accounts =
      plain_account (key 62)
      ∷ plain_account (key 63)
      ∷ plain_account (key 60)
      ∷ plain_account (key 61)
      ∷ [];
}

abbrev pub clock : Clock
clock = record { slot = 1000; unix_timestamp = pos 1000 }

abbrev price : OraclePrice
price = record { value = 5; decimals = 2 }

leg-AllLoaded : AllLegsLoaded verifier plain_account clock (leg ∷ leg ∷ [])
unfolding AllLegsLoaded AllLoaded
leg-AllLoaded = ((refl, (refl, (refl, (refl, tt)))), ((refl, (refl, (refl, (refl, tt)))), tt))

leg_read_twice :
    session_prices verifier plain_account clock [] (leg ∷ leg ∷ []) ≡ ok (price ∷ price ∷ [])
unfolding session_prices session_read find_reused feeds_match feed_key feed_key_eq config_eq
    switchboard_eq same_account_keys price_or_read read_leg read_active
    Switchboard.read_verified_price verify_account_contract price_from_quote bytes_eq
leg_read_twice = refl

session_prices-direct_prices_example :
    direct_prices verifier plain_account clock (leg ∷ leg ∷ []) ≡ ok (price ∷ price ∷ [])
session_prices-direct_prices_example =
    session_prices-direct_prices verifier plain_account clock (leg ∷ leg ∷ []) leg-AllLoaded
      leg_read_twice

abbrev scope_mapping : ScopeOracleMapping
scope_mapping = record {
  price_info_account = key 70;
  twap_source_or_ref_price_tolerance_bps = 3;
  ref_price = 4;
  generic = replicate 20 9;
  price_type = 2;
  twap_enabled_bitmask = 1;
  padding = replicate 6 0;
}

abbrev scope_config : ScopeOracleConfig
scope_config = record {
  prices_account = key 71;
  mapping = scope_mapping;
  max_age_seconds = 60;
  price_index = 0;
  padding = replicate 6 0;
}

abbrev prices : Account
prices = record (plain_account (key 71)) {
  owner = scope_program_id;
  bytes =
      oracle_prices_discriminator
      ++ (key 72
          ++ (to_le_bytes 8 777
              ++ (to_le_bytes 8 6
                  ++ (to_le_bytes 8 0 ++ (to_le_bytes 8 990 ++ replicate 28640 0)))));
}

abbrev mappings : Account
mappings = record (plain_account (key 72)) {
  owner = scope_program_id;
  bytes =
      oracle_mappings_discriminator
      ++ (key 70
          ++ (replicate (511 * 32) 0
              ++ ((2 ∷ replicate 511 0)
                  ++ ((3 ∷ replicate 1023 0)
                      ++ ((1 ∷ replicate 511 0)
                          ++ ((4 ∷ replicate 1023 0)
                              ++ (replicate 20 9 ++ replicate (511 * 20) 0)))))));
}

abbrev scope_price : OraclePrice
scope_price = record { value = 777; decimals = 6 }

scope_read : Scope.read_verified_price scope_config prices mappings (pos 1000) ≡ ok scope_price
unfolding Scope.read_verified_price bytes_eq well_formed verify_mapping_entry is_frozen without_flag
    mapping_at mapping_array_entry mapping_eq parse_dated_price dated_field verify_freshness
    try_to_u64 price_from_entry to_le_bytes from_le_bytes
scope_read = refl

read_verified_price-IsAccepted_example :
    IsAccepted scope_config prices mappings (pos 1000) scope_price
read_verified_price-IsAccepted_example =
    read_verified_price-IsAccepted scope_config prices mappings (pos 1000) scope_read
