-- ===== src/Feeds/Scope.antt =====
-- crates/roshi/src/oracle/scope.rs: the reading of a Kamino Scope price, its account layout written
-- out. Offsets into account data fit a `usize`.
pub mod Accepted
use roshi.Common.{
  ℕ, ◌+◌, ◌-◌, ◌*◌, ◌/◌, ◌%◌, Bool, not, ◌&&◌, ◌||◌, [], ◌∷◌, Option, none, some, ltb, leb, ◌==◌,
  if◌then◌else◌,
}
use roshi.Common.Result.{ok, err, ◌>>=◌, ◌>>◌, fail_if, ok_or}
use roshi.Common.Error.{invalid_account_data, illegal_owner}
use roshi.Common.Int.{ℤ, pos, negsuc}
use roshi.Common.Bytes.{Bytes, Key, bytes_eq, length, replicate, slice?, get_elem?, from_le_bytes}
use roshi.Math.{OraclePrice}
use roshi.Oracle.{ScopeOracleMapping, ScopeOracleConfig, max_entries}
use roshi.Vault.{ProgramResult}
use roshi.Token.{Account}
use roshi.Feeds.Parse.{
  DatedPrice, well_formed, mapping_array_entry, parse_dated_price, price_from_entry,
  dated_prices_offset, dated_price_size,
}

abbrev pub oracle_prices_discriminator : Bytes
oracle_prices_discriminator = 89 ∷ 128 ∷ 118 ∷ 221 ∷ 6 ∷ 72 ∷ 180 ∷ 146 ∷ []

abbrev pub oracle_prices_mappings_offset : ℕ
oracle_prices_mappings_offset = 8

abbrev pub oracle_prices_len : ℕ
oracle_prices_len = dated_prices_offset + dated_price_size * max_entries

abbrev pub oracle_mappings_discriminator : Bytes
oracle_mappings_discriminator = 40 ∷ 244 ∷ 110 ∷ 80 ∷ 255 ∷ 214 ∷ 243 ∷ 188 ∷ []

abbrev pub price_info_accounts_offset : ℕ
price_info_accounts_offset = 8

abbrev pub price_types_offset : ℕ
price_types_offset = price_info_accounts_offset + 32 * max_entries

abbrev pub twap_source_or_ref_price_tolerance_bps_offset : ℕ
twap_source_or_ref_price_tolerance_bps_offset = price_types_offset + max_entries

abbrev pub twap_enabled_bitmask_offset : ℕ
twap_enabled_bitmask_offset = twap_source_or_ref_price_tolerance_bps_offset + 2 * max_entries

abbrev pub ref_price_offset : ℕ
ref_price_offset = twap_enabled_bitmask_offset + max_entries

abbrev pub generic_offset : ℕ
generic_offset = ref_price_offset + 2 * max_entries

abbrev pub oracle_mappings_len : ℕ
oracle_mappings_len = generic_offset + 20 * max_entries

-- HFn8GnPADiny6XqUoWE8uRPPxb29ikn4yTuPa9MF2fWJ
abbrev pub scope_program_id : Key
scope_program_id =
    241 ∷ 132 ∷ 37 ∷ 68 ∷ 185 ∷ 143 ∷ 22 ∷ 221 ∷ 129 ∷ 231 ∷ 167 ∷ 12 ∷ 131 ∷ 77 ∷ 133 ∷ 134 ∷ 12
    ∷ 88 ∷ 187 ∷ 200 ∷ 219 ∷ 82 ∷ 194 ∷ 31 ∷ 226 ∷ 188 ∷ 76 ∷ 223 ∷ 202 ∷ 47 ∷ 94 ∷ 3 ∷ []

-- Bit 7 of a price type is the frozen flag: `& FROZEN_FLAG` and `& !FROZEN_FLAG` on a byte.
unfoldable pub is_frozen : ℕ → Bool
is_frozen price_type = (price_type / 128) % 2 == 1

unfoldable pub without_flag : ℕ → ℕ
without_flag price_type = price_type % 128

-- `==` on mappings, field by field.
unfoldable pub mapping_eq : ScopeOracleMapping → ScopeOracleMapping → Bool
mapping_eq m n =
    bytes_eq m.price_info_account n.price_info_account
    && ((m.twap_source_or_ref_price_tolerance_bps == n.twap_source_or_ref_price_tolerance_bps)
        && ((m.ref_price == n.ref_price)
            && (bytes_eq m.generic n.generic
                && ((m.price_type == n.price_type)
                    && ((m.twap_enabled_bitmask == n.twap_enabled_bitmask)
                        && bytes_eq m.padding n.padding)))))

abbrev or_invalid : {A : Type 0} → Option A → ProgramResult A
or_invalid o = ok_or o invalid_account_data

-- `ScopeOracleMapping::new` of the elements at an index; the order of the checked reads is the source's.
unfoldable pub mapping_at : Bytes → ℕ → ℕ → ProgramResult ScopeOracleMapping
mapping_at bytes index price_type = do
  price_info_account ← or_invalid (mapping_array_entry 32 bytes price_info_accounts_offset index)
  tolerance ←
      or_invalid (mapping_array_entry 2 bytes twap_source_or_ref_price_tolerance_bps_offset index)
  bitmask ← or_invalid (mapping_array_entry 1 bytes twap_enabled_bitmask_offset index)
  ref_price ← or_invalid (mapping_array_entry 2 bytes ref_price_offset index)
  generic ← or_invalid (mapping_array_entry 20 bytes generic_offset index)
  ok (record {
    price_info_account = price_info_account;
    twap_source_or_ref_price_tolerance_bps = from_le_bytes tolerance;
    ref_price = from_le_bytes ref_price;
    generic = generic;
    price_type = without_flag price_type;
    twap_enabled_bitmask = from_le_bytes bitmask;
    padding = replicate 6 0;
  })

unfoldable pub verify_mapping_entry : ScopeOracleConfig → Bytes → ProgramResult (Unit {0})
verify_mapping_entry c bytes = do
  fail_if (not (well_formed bytes oracle_mappings_len oracle_mappings_discriminator))
      invalid_account_data
  fail_if (leb max_entries c.price_index) invalid_account_data
  price_type ← or_invalid (get_elem? bytes (price_types_offset + c.price_index))
  fail_if (is_frozen price_type) invalid_account_data
  mapping ← mapping_at bytes c.price_index price_type
  fail_if (not (mapping_eq mapping c.mapping)) invalid_account_data

-- `u64::try_from` on an `i64`.
unfoldable pub try_to_u64 : ℤ → Option ℕ
try_to_u64 (pos n) = some n
try_to_u64 (negsuc n) = none

unfoldable pub verify_freshness : ScopeOracleConfig → DatedPrice → ℤ → ProgramResult (Unit {0})
verify_freshness c entry unix_timestamp = do
  now ← or_invalid (try_to_u64 unix_timestamp)
  fail_if (ltb now entry.unix_timestamp) invalid_account_data
  fail_if (ltb c.max_age_seconds (now - entry.unix_timestamp)) invalid_account_data

unfoldable pub read_verified_price :
    ScopeOracleConfig → Account → Account → ℤ → ProgramResult OraclePrice
read_verified_price c prices mappings unix_timestamp = do
  fail_if (not (bytes_eq prices.key c.prices_account)) invalid_account_data
  fail_if
      (not (bytes_eq prices.owner scope_program_id)
        || not (bytes_eq mappings.owner scope_program_id))
      illegal_owner
  fail_if (not (well_formed prices.bytes oracle_prices_len oracle_prices_discriminator))
      invalid_account_data
  declared_mappings ← or_invalid (slice? prices.bytes oracle_prices_mappings_offset 32)
  fail_if (not (bytes_eq declared_mappings mappings.key)) invalid_account_data
  verify_mapping_entry c mappings.bytes
  entry ← or_invalid (parse_dated_price prices.bytes c.price_index)
  verify_freshness c entry unix_timestamp
  or_invalid (price_from_entry entry)
