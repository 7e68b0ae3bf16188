-- ===== src/Feeds/Pyth/Accepted.antt =====
-- oracle/pyth.rs: what a price that the reader accepts comes from.
use roshi.Common.{
  not-false, or_false, ℕ, ◌+◌, ◌-◌, ◌*◌, ◌/◌, ◌^◌, ◌≤◌, ◌<◌, ◌≡◌, refl, sym, ap, ◌∙◌, subst, arith,
  Bool-cases, inl, inr, ◌⊎◌, true, false, not, ◌||◌, none, some, ltb, ltb→lt, ◌==◌, ==→ne, ==→eq,
  if◌then◌else◌,
}
use roshi.Common.Maybe.{◌>>=◌, >>=-eq-some, some_inj}
use roshi.Common.Result.{ok, >>=-eq-ok, ok_or_inv, fail_if_inv, fail_if, ok_or}
use roshi.Common.Error.{invalid_account_data, illegal_owner}
use roshi.Common.Int.{ℤ, pos, negsuc, ◌+ℤ◌, ◌≤ℤ◌, try_to_u128, i64_max, ltb_ℤ}
use roshi.Common.Word.{u128, try_into, checked_mul}
use roshi.Common.Bytes.{bytes_eq, bytes_eq→eq}
use roshi.Math.{OraclePrice, bps_denominator}
use roshi.Oracle.{PythOracleConfig, pinned_price_update_account}
use roshi.Token.{Account}
use roshi.Feeds.Parse.{
  VerificationLevel, partial, full, Price, PriceUpdate, parse_update, price_from_pyth, scaled_price,
  scale_price, confidence_within_bounds, price_scale, parse_unverified_price,
}
use roshi.Feeds.Pyth.{
  solana_receiver_program_id, is_full, saturating_add_i64, read_verified_update, verify_pin,
  read_verified_price,
}
use roshi.Common.Nonlinear.{IsFloor, div-IsFloor, IsFloor-scale}
use roshi.Math.Pow.{ten_pow-add, ten_pow_pos}

-- `price` units of `10 ^ exponent` as `value` units of `10 ^ -decimals`, rounded down.
pub IsScaled : ℕ → ℤ → ℕ → ℕ → Type 0
IsScaled price (pos n) decimals value = value ≡ price * 10 ^ (decimals + n)
IsScaled price (negsuc n) decimals value = IsFloor (price * 10 ^ decimals) (10 ^ (n + 1)) value

raise :
    (price scale : ℕ) {value : ℕ}
    → (try_into u128 (10 ^ scale) >>= λ factor. checked_mul u128 price factor) ≡ some value
    → value ≡ price * 10 ^ scale
raise price scale {value} h = elim (Bool-cases (ltb (10 ^ scale) u128)) [
  | inl fits ↦ let h = rw fits at h in ground (arith, h)
  | inr big ↦ let h = rw big at h in absurd (cc)
]

lower :
    (price n : ℕ) {value : ℕ}
    → ((if n == 2 ^ 31 - 1 then none else try_into u128 (10 ^ (n + 1))) >>= λ divisor.
        some (price / divisor))
      ≡ some value
    → IsFloor price (10 ^ (n + 1)) value
lower price n {value} h =
    let (divisor, made, rest) =
      >>=-eq-some (if n == 2 ^ 31 - 1 then none else try_into u128 (10 ^ (n + 1))) _ h in
    let is : divisor ≡ 10 ^ (n + 1) = ground (arith, made) in
    let value_is : price / (10 ^ (n + 1)) ≡ value =
      ap (λ d. price / d) (sym is) ∙ some_inj _ value rest in
    subst (IsFloor price (10 ^ (n + 1))) value_is
      (div-IsFloor price (10 ^ (n + 1)) (ten_pow_pos (n + 1)))

-- A scaled price is the price at the configured decimals, exact where it is raised and rounded down
-- where it is cut.
pub scale_price-IsScaled :
    (price : ℕ) (exponent : ℤ) (decimals : ℕ) {value : ℕ}
    → scale_price price exponent decimals ≡ some value
    → IsScaled price exponent decimals value
unfolding scale_price price_scale IsScaled
scale_price-IsScaled price (pos n) decimals {value} h =
    elim (Bool-cases (ltb (decimals + n) (2 ^ 31))) [
      | inl fits ↦ let h = rw fits at h in raise price (decimals + n) h
      | inr big ↦ let h = rw big at h in absurd (cc)
    ]
scale_price-IsScaled price (negsuc n) decimals {value} h = elim (Bool-cases (ltb n decimals)) [
  | inl up ↦
      let h = rw up at h in
      let exact : value ≡ price * 10 ^ (decimals - n - 1) = raise price (decimals - n - 1) h in
      let order : n < decimals = ltb→lt _ _ up in
      let split : 10 ^ decimals ≡ 10 ^ (decimals - n - 1) * 10 ^ (n + 1) =
        ap (λ k. 10 ^ k) (omega (arith, order)) ∙ ten_pow-add (decimals - n - 1) (n + 1) in
      let positive = ten_pow_pos (n + 1) in
      rw (exact, split) (record { below = omega arith; above = omega (arith, positive) })
  | inr down ↦
      let h = rw down at h in
      let cut : IsFloor price (10 ^ (n - decimals + 1)) value = lower price (n - decimals) h in
      let order : decimals ≤ n = ground (arith, down) in
      let split : 10 ^ (n + 1) ≡ 10 ^ (n - decimals + 1) * 10 ^ decimals =
        ap (λ k. 10 ^ k) (omega (arith, order)) ∙ ten_pow-add (n - decimals + 1) decimals in
      rw split (IsFloor-scale (10 ^ decimals) (ten_pow_pos decimals) cut)
]

-- What stands behind a price: an update that enough guardians have signed, of the configured feed,
-- no older than the configuration allows, with a positive value inside the configured confidence.
pub record IsBacked (c : PythOracleConfig) (u : PriceUpdate) (now : ℤ) (p : OraclePrice)
    : Type 0 where
  pub verified : u.verification_level ≡ full
  pub feed : u.price.feed_id ≡ c.feed_id
  pub fresh : now ≤ℤ (u.price.publish_time +ℤ pos c.max_age_seconds)
  pub magnitude : ℕ
  pub value : u.price.price ≡ pos magnitude
  pub nonzero : 0 < magnitude
  pub confident :
      (c.max_confidence_bps ≡ 0)
      ⊎ (u.price.conf * bps_denominator ≤ magnitude * c.max_confidence_bps)
  pub scaled : IsScaled magnitude u.price.exponent c.price_decimals p.value
  pub positive : 0 < p.value
  pub decimals : p.decimals ≡ c.price_decimals

confidence_inv :
    (price confidence bound : ℕ)
    → confidence_within_bounds price confidence bound ≡ true
    → (bound ≡ 0) ⊎ (confidence * bps_denominator ≤ price * bound)
unfolding confidence_within_bounds
confidence_inv price confidence bound h = elim (Bool-cases (bound == 0)) [
  | inl unset ↦ inl (==→eq _ _ unset)
  | inr set ↦ let h = rw set at h in inr (ground (arith, h))
]

scaled_price_inv :
    (c : PythOracleConfig) (p : Price) (magnitude : ℕ) {o : OraclePrice}
    → scaled_price c p magnitude ≡ some o
    → IsScaled magnitude p.exponent c.price_decimals o.value
      × (0 < o.value)
      × (o.decimals ≡ c.price_decimals)
unfolding scaled_price
scaled_price_inv c p magnitude {o} h =
    let (value, made, h) = >>=-eq-some (scale_price magnitude p.exponent c.price_decimals) _ h in
    let scaled = scale_price-IsScaled magnitude p.exponent c.price_decimals made in
    elim (Bool-cases (value == 0)) [
      | inl zero_price ↦ let h = rw zero_price at h in absurd (cc)
      | inr nonzero ↦
          let h = rw nonzero at h in
          let same : record { value = value; decimals = c.price_decimals } ≡ o = some_inj _ o h in
          let some_value = ==→ne value 0 nonzero in
          let positive : 0 < value = omega (arith, some_value) in
          subst
            (λ (y : OraclePrice).
              IsScaled magnitude p.exponent c.price_decimals y.value
              × (0 < y.value)
              × (y.decimals ≡ c.price_decimals))
            same (scaled, positive, refl)
    ]

try_to_u128_inv : (a : ℤ) {n : ℕ} → try_to_u128 a ≡ some n → a ≡ pos n
try_to_u128_inv (pos m) h = ap pos (some_inj m _ h)
try_to_u128_inv (negsuc m) h = absurd (cc)

full_inv : (l : VerificationLevel) → is_full l ≡ true → l ≡ full
unfolding is_full
full_inv full h = refl
full_inv (partial n) h = absurd (cc)

fresh_inv :
    (published : ℤ) (age : ℕ) (now : ℤ)
    → ltb_ℤ (saturating_add_i64 published age) now ≡ false
    → now ≤ℤ i64_max
    → now ≤ℤ (published +ℤ pos age)
unfolding saturating_add_i64
fresh_inv published age now h top = ground (arith, h, top)

-- Every update that the reader accepts stands behind its price, whatever the account held. The clock's time is in the
-- range of an `i64`.
pub read_verified_update-IsBacked :
    (c : PythOracleConfig) (u : PriceUpdate) (now : ℤ) {p : OraclePrice}
    → now ≤ℤ i64_max
    → read_verified_update c u now ≡ ok p
    → IsBacked c u now p
unfolding read_verified_update price_from_pyth
read_verified_update-IsBacked c u now {p} top h =
    let (_, _, h) =
      >>=-eq-ok (fail_if (ltb (2 ^ 63 - 1) c.max_age_seconds) invalid_account_data) _ h in
    let (_, checked, h) =
      >>=-eq-ok
        (fail_if
          (not (is_full u.verification_level)
            || not (bytes_eq u.price.feed_id c.feed_id)
            || ltb_ℤ (saturating_add_i64 u.price.publish_time c.max_age_seconds) now)
          invalid_account_data)
        _ h in
    let (rest, fresh) = or_false _ _ (fail_if_inv _ _ checked) in
    let (level, feed) = or_false _ _ rest in
    let priced = ok_or_inv (price_from_pyth c u.price) invalid_account_data h in
    let (m, number, priced) = >>=-eq-some (try_to_u128 u.price.price) _ priced in
    elim (Bool-cases
      (m == 0 || not (confidence_within_bounds m u.price.conf c.max_confidence_bps))) [
        | inl refused ↦ let priced = rw refused at priced in absurd (cc)
        | inr accepted ↦
            let (some_price, confident) = or_false _ _ accepted in
            let (scaled, positive, decimals) =
              scaled_price_inv c u.price m (rw accepted at priced) in
            let nonzero = ==→ne m 0 some_price in
            record {
              verified = full_inv u.verification_level (not-false _ level);
              feed = bytes_eq→eq u.price.feed_id c.feed_id (not-false _ feed);
              fresh = fresh_inv u.price.publish_time c.max_age_seconds now fresh top;
              magnitude = m;
              value = try_to_u128_inv u.price.price number;
              nonzero = omega (arith, nonzero);
              confident =
                  confidence_inv m u.price.conf c.max_confidence_bps (not-false _ confident);
              scaled = scaled;
              positive = positive;
              decimals = decimals;
            }
      ]

-- A verified read of an account is a read of it without verification, of an account of the Pyth
-- receiver: the checks refuse prices and change none.
pub read_verified_price-parse_unverified_price :
    (c : PythOracleConfig) (a : Account) (now : ℤ) {p : OraclePrice}
    → read_verified_price c a now ≡ ok p
    → (parse_unverified_price c a.bytes ≡ some p) × (a.owner ≡ solana_receiver_program_id)
unfolding read_verified_price read_verified_update parse_unverified_price
read_verified_price-parse_unverified_price c a now {p} h =
    let (_, _, h) = >>=-eq-ok (verify_pin (pinned_price_update_account c) a.key) _ h in
    let (_, owned, h) =
      >>=-eq-ok (fail_if (not (bytes_eq a.owner solana_receiver_program_id)) illegal_owner) _ h in
    let (u, parsed, h) = >>=-eq-ok (ok_or (parse_update a.bytes) invalid_account_data) _ h in
    let (_, _, h) =
      >>=-eq-ok (fail_if (ltb (2 ^ 63 - 1) c.max_age_seconds) invalid_account_data) _ h in
    let (_, checked, h) =
      >>=-eq-ok
        (fail_if
          (not (is_full u.verification_level)
            || not (bytes_eq u.price.feed_id c.feed_id)
            || ltb_ℤ (saturating_add_i64 u.price.publish_time c.max_age_seconds) now)
          invalid_account_data)
        _ h in
    let feed = (or_false _ _ (or_false _ _ (fail_if_inv _ _ checked)).0).1 in
    let priced = ok_or_inv (price_from_pyth c u.price) invalid_account_data h in
    let same : bytes_eq u.price.feed_id c.feed_id ≡ true = not-false _ feed in
    (
      rw (ok_or_inv (parse_update a.bytes) invalid_account_data parsed, same) priced,
      bytes_eq→eq a.owner solana_receiver_program_id (not-false _ (fail_if_inv _ _ owned)),
    )
