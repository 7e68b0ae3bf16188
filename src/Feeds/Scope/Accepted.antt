-- ===== src/Feeds/Scope/Accepted.antt =====
-- oracle/scope.rs: what a price that the reader accepts comes from.
use roshi.Common.{
  ℕ, ◌+◌, ◌≤◌, ◌<◌, ◌≡◌, ap, ◌∙◌, arith, true, false, not, ◌||◌, some, ltb, leb, leb→gt, ==→eq,
  not-false, or_false, and_true,
}
use roshi.Common.Maybe.{some_inj}
use roshi.Common.Result.{ok, >>=-eq-ok, ok_or_inv, fail_if_inv, fail_if, ok_or}
use roshi.Common.Error.{invalid_account_data, illegal_owner}
use roshi.Common.Int.{ℤ, pos, negsuc}
use roshi.Common.Word.{u8}
use roshi.Common.Bytes.{Bytes, bytes_eq, bytes_eq→eq, get_elem?, slice?}
use roshi.Math.{OraclePrice}
use roshi.Oracle.{ScopeOracleMapping, ScopeOracleConfig, max_entries}
use roshi.Token.{Account}
use roshi.Feeds.Parse.{DatedPrice, well_formed, parse_dated_price, price_from_entry}
use roshi.Feeds.Scope.{
  scope_program_id, oracle_prices_len, oracle_prices_discriminator, oracle_mappings_len,
  oracle_mappings_discriminator, oracle_prices_mappings_offset, price_types_offset, is_frozen,
  mapping_eq, mapping_at, verify_mapping_entry, try_to_u64, verify_freshness, read_verified_price,
}

pub mapping_eq→eq : (m n : ScopeOracleMapping) → mapping_eq m n ≡ true → m ≡ n
unfolding mapping_eq
mapping_eq→eq m n h =
    let (account, h) = and_true _ _ h in
    let (tolerance, h) = and_true _ _ h in
    let (ref_price, h) = and_true _ _ h in
    let (generic, h) = and_true _ _ h in
    let (price_type, h) = and_true _ _ h in
    let (bitmask, padding) = and_true _ _ h in
    let account = bytes_eq→eq m.price_info_account n.price_info_account account in
    let tolerance =
      ==→eq m.twap_source_or_ref_price_tolerance_bps n.twap_source_or_ref_price_tolerance_bps
        tolerance in
    let ref_price = ==→eq m.ref_price n.ref_price ref_price in
    let generic = bytes_eq→eq m.generic n.generic generic in
    let price_type = ==→eq m.price_type n.price_type price_type in
    let bitmask = ==→eq m.twap_enabled_bitmask n.twap_enabled_bitmask bitmask in
    let padding = bytes_eq→eq m.padding n.padding padding in
    λ i. record {
      price_info_account = account i;
      twap_source_or_ref_price_tolerance_bps = tolerance i;
      ref_price = ref_price i;
      generic = generic i;
      price_type = price_type i;
      twap_enabled_bitmask = bitmask i;
      padding = padding i;
    }

-- The mapping account holds the committed source at the index, not frozen.
pub record IsCommitted (c : ScopeOracleConfig) (mappings : Bytes) : Type 0 where
  pub shape : well_formed mappings oracle_mappings_len oracle_mappings_discriminator ≡ true
  pub index : c.price_index < max_entries
  pub price_type : ℕ
  pub read : get_elem? mappings (price_types_offset + c.price_index) ≡ some price_type
  pub live : is_frozen price_type ≡ false
  pub source : mapping_at mappings c.price_index price_type ≡ ok c.mapping

pub verify_mapping_entry-IsCommitted :
    (c : ScopeOracleConfig) (bytes : Bytes) {u : Unit {0}}
    → verify_mapping_entry c bytes ≡ ok u
    → IsCommitted c bytes
unfolding verify_mapping_entry
verify_mapping_entry-IsCommitted c bytes h =
    let (_, shape, h) =
      >>=-eq-ok
        (fail_if (not (well_formed bytes oracle_mappings_len oracle_mappings_discriminator))
          invalid_account_data)
        _ h in
    let (_, small, h) =
      >>=-eq-ok (fail_if (leb max_entries c.price_index) invalid_account_data) _ h in
    let (price_type, read, h) =
      >>=-eq-ok (ok_or (get_elem? bytes (price_types_offset + c.price_index)) invalid_account_data)
        _ h in
    let (_, live, h) = >>=-eq-ok (fail_if (is_frozen price_type) invalid_account_data) _ h in
    let (mapping, made, same) = >>=-eq-ok (mapping_at bytes c.price_index price_type) _ h in
    let same = mapping_eq→eq mapping c.mapping (not-false _ (fail_if_inv _ _ same)) in
    record {
      shape = not-false _ (fail_if_inv _ _ shape);
      index = leb→gt _ _ (fail_if_inv _ _ small);
      price_type = price_type;
      read = ok_or_inv (get_elem? bytes (price_types_offset + c.price_index)) _ read;
      live = fail_if_inv _ _ live;
      source = made ∙ ap ok same;
    }

-- The entry is neither from the future nor older than the configuration allows.
pub IsFresh : ScopeOracleConfig → DatedPrice → ℤ → Type 0
IsFresh c entry unix_timestamp =
    (now : ℕ) × (unix_timestamp ≡ pos now)
    × (entry.unix_timestamp ≤ now)
    × (now ≤ entry.unix_timestamp + c.max_age_seconds)

-- A price that is accepted, and the entry of the pinned account that it is read from.
pub record IsAccepted (c : ScopeOracleConfig) (prices mappings : Account) (unix_timestamp : ℤ)
    (p : OraclePrice) : Type 0 where
  pub pinned : prices.key ≡ c.prices_account
  pub owners : (prices.owner ≡ scope_program_id) × (mappings.owner ≡ scope_program_id)
  pub declared : slice? prices.bytes oracle_prices_mappings_offset 32 ≡ some mappings.key
  pub committed : IsCommitted c mappings.bytes
  pub entry : DatedPrice
  pub parsed : parse_dated_price prices.bytes c.price_index ≡ some entry
  pub fresh : IsFresh c entry unix_timestamp
  pub value : (p.value ≡ entry.value) × (0 < p.value)
  pub decimals : (p.decimals ≡ entry.exp) × (p.decimals < u8)

try_to_u64_inv : (a : ℤ) {n : ℕ} → try_to_u64 a ≡ some n → a ≡ pos n
unfolding try_to_u64
try_to_u64_inv (pos m) h = ap pos (some_inj m _ h)
try_to_u64_inv (negsuc m) h = absurd (cc)

verify_freshness-IsFresh :
    (c : ScopeOracleConfig) (entry : DatedPrice) (unix_timestamp : ℤ) {u : Unit {0}}
    → verify_freshness c entry unix_timestamp ≡ ok u
    → IsFresh c entry unix_timestamp
unfolding verify_freshness IsFresh
verify_freshness-IsFresh c entry unix_timestamp h =
    let (now, read, h) = >>=-eq-ok (ok_or (try_to_u64 unix_timestamp) invalid_account_data) _ h in
    let (_, past, young) =
      >>=-eq-ok (fail_if (ltb now entry.unix_timestamp) invalid_account_data) _ h in
    let past = fail_if_inv _ _ past in
    let young = fail_if_inv _ _ young in
    (
      now,
      try_to_u64_inv unix_timestamp (ok_or_inv _ _ read),
      ground (arith, past),
      ground (arith, past, young),
    )

price_from_entry_inv :
    (entry : DatedPrice) {p : OraclePrice}
    → price_from_entry entry ≡ some p
    → ((p.value ≡ entry.value) × (0 < p.value)) × ((p.decimals ≡ entry.exp) × (p.decimals < u8))
unfolding price_from_entry
price_from_entry_inv entry {p} h = ground (arith, h)

-- What the reader accepts is a price of the pinned account, in the entry at the configured index:
-- positive, fresh, and of the source that the configuration commits to.
pub read_verified_price-IsAccepted :
    (c : ScopeOracleConfig) (prices mappings : Account) (now : ℤ) {p : OraclePrice}
    → read_verified_price c prices mappings now ≡ ok p
    → IsAccepted c prices mappings now p
unfolding read_verified_price
read_verified_price-IsAccepted c prices mappings now {p} h =
    let (_, key, h) =
      >>=-eq-ok (fail_if (not (bytes_eq prices.key c.prices_account)) invalid_account_data) _ h in
    let (_, owners, h) =
      >>=-eq-ok
        (fail_if
          (not (bytes_eq prices.owner scope_program_id)
            || not (bytes_eq mappings.owner scope_program_id))
          illegal_owner)
        _ h in
    let (_, _, h) =
      >>=-eq-ok
        (fail_if (not (well_formed prices.bytes oracle_prices_len oracle_prices_discriminator))
          invalid_account_data)
        _ h in
    let (declared, cut, h) =
      >>=-eq-ok (ok_or (slice? prices.bytes oracle_prices_mappings_offset 32) invalid_account_data)
        _ h in
    let (_, same, h) =
      >>=-eq-ok (fail_if (not (bytes_eq declared mappings.key)) invalid_account_data) _ h in
    let (_, committed, h) = >>=-eq-ok (verify_mapping_entry c mappings.bytes) _ h in
    let (entry, parsed, h) =
      >>=-eq-ok (ok_or (parse_dated_price prices.bytes c.price_index) invalid_account_data) _ h in
    let (_, fresh, priced) = >>=-eq-ok (verify_freshness c entry now) _ h in
    let (prices_owner, mappings_owner) = or_false _ _ (fail_if_inv _ _ owners) in
    let (value, decimals) =
      price_from_entry_inv entry (ok_or_inv (price_from_entry entry) _ priced) in
    let is_declared = bytes_eq→eq declared mappings.key (not-false _ (fail_if_inv _ _ same)) in
    record {
      pinned = bytes_eq→eq prices.key c.prices_account (not-false _ (fail_if_inv _ _ key));
      owners = (
        bytes_eq→eq prices.owner scope_program_id (not-false _ prices_owner),
        bytes_eq→eq mappings.owner scope_program_id (not-false _ mappings_owner),
      );
      declared =
          ok_or_inv (slice? prices.bytes oracle_prices_mappings_offset 32) _ cut
          ∙ ap some is_declared;
      committed = verify_mapping_entry-IsCommitted c mappings.bytes committed;
      entry = entry;
      parsed = ok_or_inv (parse_dated_price prices.bytes c.price_index) _ parsed;
      fresh = verify_freshness-IsFresh c entry now fresh;
      value = value;
      decimals = decimals;
    }
