-- ===== src/Feeds/Parse.antt =====
-- oracle/pyth.rs and oracle/scope.rs: the parsers of the providers' accounts, and the conversion of
-- what they hold to a price. An offset into account data and its sums fit a `usize`.
use roshi.Common.{
  ℕ, ◌+◌, ◌-◌, ◌*◌, ◌/◌, ◌^◌, Bool, true, false, not, ◌&&◌, ◌||◌, [], ◌∷◌, Option, none, some, ltb,
  leb, ◌==◌, if◌then◌else◌,
}
use roshi.Common.Maybe.{◌>>=◌}
use roshi.Common.Int.{ℤ, pos, negsuc, try_to_u128}
use roshi.Common.Word.{u8, u128, try_into, checked_mul}
use roshi.Common.Bytes.{Bytes, Key, bytes_eq, length, take, slice?, from_le_bytes}
use roshi.Math.{OraclePrice, bps_denominator}
use roshi.Oracle.{PythOracleConfig}

-- [0x22, 0xf1, 0x23, 0x63, 0x9d, 0x7e, 0xf4, 0xcd]
abbrev pub price_update_v2_discriminator : Bytes
price_update_v2_discriminator = 34 ∷ 241 ∷ 35 ∷ 99 ∷ 157 ∷ 126 ∷ 244 ∷ 205 ∷ []

-- `i32::from_le_bytes` and `i64::from_le_bytes`, of a number of bits.
abbrev pub to_signed : ℕ → ℕ → ℤ
to_signed bits n = if ltb n (2 ^ (bits - 1)) then pos n else negsuc (2 ^ bits - 1 - n)

pub data VerificationLevel : Type 0 where
  partial : (num_signatures : ℕ) → VerificationLevel
  full : VerificationLevel

pub record Price : Type 0 where
  pub feed_id : Key
  pub price : ℤ
  pub conf : ℕ
  pub exponent : ℤ
  pub publish_time : ℤ

pub record PriceUpdate : Type 0 where
  pub verification_level : VerificationLevel
  pub price : Price
  pub posted_slot : ℕ

-- A reader takes the offset and gives the next one with what it has read.
unfoldable pub read_bytes : Bytes → ℕ → ℕ → Option (Bytes × ℕ)
read_bytes bytes offset len = do slice ← slice? bytes offset len; some (slice, offset + len)

unfoldable pub read_number : ℕ → Bytes → ℕ → Option (ℕ × ℕ)
read_number len bytes offset = do
  (slice, offset) ← read_bytes bytes offset len
  some (from_le_bytes slice, offset)

abbrev pub read_u8 : Bytes → ℕ → Option (ℕ × ℕ)
read_u8 = read_number 1

abbrev pub read_u64 : Bytes → ℕ → Option (ℕ × ℕ)
read_u64 = read_number 8

unfoldable pub read_i32 : Bytes → ℕ → Option (ℤ × ℕ)
read_i32 bytes offset = do (n, offset) ← read_number 4 bytes offset; some (to_signed 32 n, offset)

unfoldable pub read_i64 : Bytes → ℕ → Option (ℤ × ℕ)
read_i64 bytes offset = do (n, offset) ← read_number 8 bytes offset; some (to_signed 64 n, offset)

unfoldable pub parse_level : Bytes → ℕ → Option (VerificationLevel × ℕ)
parse_level bytes offset = do
  (tag, offset) ← read_u8 bytes offset
  if tag == 0
      then (do
        (num_signatures, offset) ← read_u8 bytes offset
        some (partial num_signatures, offset))
      else if tag == 1
      then some (full, offset)
      else none

unfoldable pub parse_price : Bytes → ℕ → Option (Price × ℕ)
parse_price bytes offset = do
  (feed_id, offset) ← read_bytes bytes offset 32
  (price, offset) ← read_i64 bytes offset
  (conf, offset) ← read_u64 bytes offset
  (exponent, offset) ← read_i32 bytes offset
  (publish_time, offset) ← read_i64 bytes offset
  (prev_publish_time, offset) ← read_i64 bytes offset
  (ema_price, offset) ← read_i64 bytes offset
  (ema_conf, offset) ← read_u64 bytes offset
  some (
    record {
      feed_id = feed_id;
      price = price;
      conf = conf;
      exponent = exponent;
      publish_time = publish_time;
    },
    offset,
  )

unfoldable pub parse_update : Bytes → Option PriceUpdate
parse_update bytes =
    let update : Option PriceUpdate = (do
      (write_authority, offset) ← read_bytes bytes 8 32
      (level, offset) ← parse_level bytes offset
      (price, offset) ← parse_price bytes offset
      (posted_slot, offset) ← read_u64 bytes offset
      some (record { verification_level = level; price = price; posted_slot = posted_slot })) in
    if ltb (length bytes) 8 || not (bytes_eq (take 8 bytes) price_update_v2_discriminator)
    then none
    else update

unfoldable pub confidence_within_bounds : ℕ → ℕ → ℕ → Bool
confidence_within_bounds price confidence max_confidence_bps =
    let bounded : Option Bool = (do
      confidence_bps ← checked_mul u128 confidence bps_denominator
      max_confidence ← checked_mul u128 price max_confidence_bps
      some (leb confidence_bps max_confidence)) in
    if max_confidence_bps == 0 then true else elim bounded [ none ↦ false | some inside ↦ inside ]

-- `i32::from(decimals).checked_add(exponent)`, a sum of a byte and an integer of 32 bits; it can
-- only pass the upper bound.
unfoldable pub price_scale : ℤ → ℕ → Option ℤ
price_scale (pos n) decimals =
    if ltb (decimals + n) (2 ^ 31) then some (pos (decimals + n)) else none
price_scale (negsuc n) decimals =
    some (if ltb n decimals then pos (decimals - n - 1) else negsuc (n - decimals))

-- `checked_pow` of ten, and then the multiplication or division. `checked_abs` fails for the lowest
-- integer alone.
unfoldable pub scale_price : ℕ → ℤ → ℕ → Option ℕ
scale_price price exponent decimals = do
  scale ← price_scale exponent decimals
  elim scale [
    | pos n ↦ try_into u128 (10 ^ n) >>= λ factor. checked_mul u128 price factor
    | negsuc n ↦ (if n == 2 ^ 31 - 1 then none else try_into u128 (10 ^ (n + 1))) >>= λ divisor.
        some (price / divisor)
  ]

-- The end of `price_from_pyth`.
unfoldable pub scaled_price : PythOracleConfig → Price → ℕ → Option OraclePrice
scaled_price c p magnitude = do
  value ← scale_price magnitude p.exponent c.price_decimals
  if value == 0 then none else some (record { value = value; decimals = c.price_decimals })

unfoldable pub price_from_pyth : PythOracleConfig → Price → Option OraclePrice
price_from_pyth c p = do
  magnitude ← try_to_u128 p.price
  if magnitude == 0 || not (confidence_within_bounds magnitude p.conf c.max_confidence_bps)
      then none
      else scaled_price c p magnitude

unfoldable pub parse_unverified_price : PythOracleConfig → Bytes → Option OraclePrice
parse_unverified_price c bytes = do
  update ← parse_update bytes
  if not (bytes_eq update.price.feed_id c.feed_id) then none else price_from_pyth c update.price

abbrev pub dated_prices_offset : ℕ
dated_prices_offset = 40

abbrev pub dated_price_size : ℕ
dated_price_size = 56

unfoldable pub well_formed : Bytes → ℕ → Bytes → Bool
well_formed bytes len discriminator =
    (length bytes == len)
    && elim (slice? bytes 0 8) [ none ↦ false | some found ↦ bytes_eq found discriminator ]

-- One element, of a width, of an array in the account.
unfoldable pub mapping_array_entry : ℕ → Bytes → ℕ → ℕ → Option Bytes
mapping_array_entry width bytes offset index = slice? bytes (offset + width * index) width

pub record DatedPrice : Type 0 where
  pub value : ℕ
  pub exp : ℕ
  pub unix_timestamp : ℕ

-- The closure `field`.
unfoldable pub dated_field : Bytes → ℕ → ℕ → Option ℕ
dated_field bytes base offset = do
  field ← slice? bytes (base + offset) 8
  some (from_le_bytes field)

unfoldable pub parse_dated_price : Bytes → ℕ → Option DatedPrice
parse_dated_price bytes price_index = do
  let base = dated_prices_offset + dated_price_size * price_index
  value ← dated_field bytes base 0
  exp ← dated_field bytes base 8
  unix_timestamp ← dated_field bytes base 24
  some (record { value = value; exp = exp; unix_timestamp = unix_timestamp })

unfoldable pub price_from_entry : DatedPrice → Option OraclePrice
price_from_entry entry =
    let priced : Option OraclePrice = (do
      decimals ← try_into u8 entry.exp
      some (record { value = entry.value; decimals = decimals })) in
    if entry.value == 0 then none else priced
