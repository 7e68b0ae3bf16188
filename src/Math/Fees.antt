-- ===== src/Math/Fees.antt =====
-- math.rs, `share_price_from_assets` and `performance_fee_for_nav`: the fee is taken only out of the
-- profit over the high watermark, and is not charged twice.
pub mod Outcomes
use roshi.Common.{
  ℕ, ◌+◌, ◌-◌, ◌*◌, ◌/◌, ◌^◌, ◌≤◌, ◌<◌, ◌≡◌, ◌≢◌, refl, subst, ◌⊎◌, inl, inr, arith, true, false,
  Bool-cases, leb, ◌==◌, ==→eq, ==→ne, ltb, ◌||◌,
}
use roshi.Common.Result.{ok, fail_if, >>=-eq-ok}
use roshi.Common.Error.{invalid_vault_state, invalid_bps}
use roshi.Common.Word.{u64, u128, max}
use roshi.Common.Nonlinear.{IsFloor-mono, IsCeil-le, mul_cancel_lt, div-IsFloor, mul_mono}
use roshi.Math.{
  share_price_from_assets, charged_fee, priced_fee, performance_fee_for_nav,
  validate_percentage_bps, pow10, share_decimals, bps_denominator, mul_div_floor,
}
use roshi.Math.Rounding.{
  mul_div_floor-eq, mul_div_floor_inv, checked_u64-eq, checked_u64_inv, mul-lt-u128, bps_floor-eq,
  mul_div_ceil-eq, ceil_div, ceil_div-IsCeil,
}

abbrev pub share_scale : ℕ
share_scale = 10 ^ 9

pow10-share_scale : pow10 share_decimals ≡ ok share_scale
unfolding pow10
pow10-share_scale = refl

-- The price of a nonempty supply is computed exactly when it fits 64 bits.
pub share_price-eq :
    (a s : ℕ)
    → a < u64
    → 0 < s
    → a * share_scale / s < u64
    → share_price_from_assets a s ≡ ok (a * share_scale / s)
unfolding share_price_from_assets
share_price-eq a s ha pos fits =
    let guard : (s == 0) ≡ false = ground (arith, pos) in
    let product : a * share_scale < u128 = omega arith in
    rw (guard, pow10-share_scale, mul_div_floor-eq a share_scale s pos product)
      (checked_u64-eq _ fits)

pub share_price_inv :
    (a s : ℕ) {p : ℕ}
    → share_price_from_assets a s ≡ ok p
    → (0 < s) × (p ≡ a * share_scale / s) × (p < u64)
unfolding share_price_from_assets
share_price_inv a s {p} h =
    let (_, guard, rest) = >>=-eq-ok (fail_if (s == 0) invalid_vault_state) _ h in
    let priced = rw pow10-share_scale at rest in
    let (q, floored, kept) = >>=-eq-ok (mul_div_floor a share_scale s) _ priced in
    let (same, fits) = checked_u64_inv q kept in
    let (pos, _, exact) = mul_div_floor_inv a share_scale s floored in (pos, cc (same, exact), fits)

-- What a fee `fee` on `gross` assets has established, with `net` assets and the watermark `mark'`
-- after it: nothing is lost, the watermark only rises and covers the price after the fee, and a fee
-- is at most its share of the profit over the old watermark, which the net assets still reach.
pub record IsFee (gross s mark bps fee net mark' : ℕ) : Type 0 where
  pub conserved : fee + net ≡ gross
  pub rises : mark ≤ mark'
  pub covers : (s ≡ 0) ⊎ (net * share_scale < (mark' + 1) * s)
  pub profit :
      (fee ≡ 0)
      ⊎ ((mark * s ≤ net * share_scale)
          × (fee * (bps_denominator * share_scale) + bps * (mark * s)
              ≤ bps * (gross * share_scale)))

abbrev pub IsFeeTriple : ℕ → ℕ → ℕ → ℕ → ℕ × ℕ × ℕ → Type 0
IsFeeTriple gross s mark bps (fee, net, mark') = IsFee gross s mark bps fee net mark'

max_bounds : (a b : ℕ) → (a ≤ max a b) × (b ≤ max a b)
max_bounds a b = ground arith

-- The arithmetic of a fee `fee` on a profit `x` over `assets`, the watermark's worth.
fee_profit :
    (x assets fee bps m : ℕ)
    → m ≤ assets * share_scale
    → fee * bps_denominator ≤ x * bps
    → fee * (bps_denominator * share_scale) + bps * m ≤ bps * ((x + assets) * share_scale)
fee_profit x assets fee bps m low part =
    omega (arith, mul_mono bps bps m (assets * share_scale) (omega arith) low, part)

module _ (gross s mark bps : ℕ) (hg : gross < u64) (hm : mark < u64) (hs : s < u64) (pos : 0 < s)
    (part : bps ≤ bps_denominator) where
  -- The price before the fee is above the watermark.
  charged_fee-IsFee :
      gross * share_scale / s < u64
      → mark < gross * share_scale / s
      → (r : ℕ × ℕ × ℕ) × (charged_fee gross s mark bps ≡ ok r) × IsFeeTriple gross s mark bps r
  unfolding charged_fee
  charged_fee-IsFee fits above =
      let price = div-IsFloor (gross * share_scale) s pos in
      let assets = ceil_div (mark * s) share_scale in
      let ceil = ceil_div-IsCeil (mark * s) share_scale (omega arith) in
      let lower : mark * s ≤ gross * share_scale = omega (
        arith,
        price.below,
        mul_mono mark (gross * share_scale / s) s s (omega arith) (omega arith),
      ) in
      let covered : assets ≤ gross = IsCeil-le gross ceil lower in
      let fee = bps_floor-eq (gross - assets) bps (omega arith) part in
      let net = gross - (gross - assets) * bps / bps_denominator in
      let net_price = div-IsFloor (net * share_scale) s pos in
      let cheaper : net * share_scale / s ≤ gross * share_scale / s =
        IsFloor-mono net_price price (omega arith) in
      let owed : net * share_scale / s < u64 = omega (arith, cheaper, fits) in
      let top = max_bounds mark (net * share_scale / s) in
      let worth : mark * s ≤ assets * share_scale = ceil.above in
      let guard : leb assets gross ≡ true = ground (arith, covered) in
      let guard' : leb ((gross - assets) * bps / bps_denominator) gross ≡ true =
        ground (arith, fee.1) in
      let share = div-IsFloor ((gross - assets) * bps) bps_denominator (omega arith) in
      let split : (gross - assets) + assets ≡ gross = omega (arith, covered) in
      let bound : (gross - assets) * bps / bps_denominator * (bps_denominator * share_scale)
            + bps * (mark * s)
          ≤ bps * ((gross - assets + assets) * share_scale) =
        fee_profit (gross - assets) assets _ bps (mark * s) worth share.below in
      (
        ((gross - assets) * bps / bps_denominator, net, max mark (net * share_scale / s)),
        rw (
          pow10-share_scale,
          mul_div_ceil-eq mark s share_scale (omega arith) (mul-lt-u128 mark s hm hs),
          checked_u64-eq assets (omega arith),
          guard,
          fee.0,
          guard',
          share_price-eq net s (omega arith) pos owed,
        ),
        record {
          conserved = omega (arith, fee.1);
          rises = top.0;
          covers = inr (
              omega (
                arith,
                net_price.above,
                mul_mono (net * share_scale / s) _ s s top.1 (omega arith),
              ));
          profit = inr (omega (arith, worth, fee.1, covered), rw split at bound);
        },
      )

  priced_fee-IsFee :
      gross * share_scale / s < u64
      → (r : ℕ × ℕ × ℕ) × (priced_fee gross s mark bps ≡ ok r) × IsFeeTriple gross s mark bps r
  unfolding priced_fee
  priced_fee-IsFee fits =
      let price = gross * share_scale / s in
      let floor = div-IsFloor (gross * share_scale) s pos in
      let top = max_bounds mark price in
      let free : IsFee gross s mark bps 0 gross (max mark price) = record {
        conserved = omega arith;
        rises = top.0;
        covers = inr (omega (arith, floor.above, mul_mono price _ s s top.1 (omega arith)));
        profit = inl refl;
      } in
      rw (share_price-eq gross s hg pos fits)
        (elim (Bool-cases (mark == 0 || leb price mark || bps == 0)) [
          | inl nothing_due ↦ ((0, gross, max mark price), rw nothing_due, free)
          | inr due ↦ rw due (charged_fee-IsFee fits (ground (arith, due)))
        ])

-- With assets, shares and a watermark within 64 bits, at a percentage of at most 10,000, a gross
-- price that fits 64 bits or no shares at all, the fee is computed, and it is as `IsFee` says.
pub performance_fee-eq :
    (gross s mark bps : ℕ)
    → gross < u64
    → s < u64
    → mark < u64
    → bps ≤ bps_denominator
    → (s ≡ 0) ⊎ (gross * share_scale / s < u64)
    → (r : ℕ × ℕ × ℕ) × (performance_fee_for_nav gross s mark bps ≡ ok r)
      × IsFeeTriple gross s mark bps r
unfolding performance_fee_for_nav validate_percentage_bps
performance_fee-eq gross s mark bps hg hs hm part fits =
    let valid : ltb bps_denominator bps ≡ false = ground (arith, part) in
    elim (Bool-cases (s == 0)) [
      | inl empty ↦
          let none_held : s ≡ 0 = ==→eq s 0 empty in
          (
            (0, gross, mark),
            rw (valid, empty),
            record {
              conserved = omega arith;
              rises = omega arith;
              covers = inl none_held;
              profit = inl refl;
            },
          )
      | inr held ↦
          let some_held : s ≢ 0 = ==→ne s 0 held in
          rw (valid, held)
            (priced_fee-IsFee gross s mark bps hg hm hs (omega arith) part (omega (arith, fits)))
    ]

priced_fee_price :
    (gross s mark bps : ℕ) {r : ℕ × ℕ × ℕ}
    → priced_fee gross s mark bps ≡ ok r
    → gross * share_scale / s < u64
unfolding priced_fee
priced_fee_price gross s mark bps h =
    let (p, price, _) = >>=-eq-ok (share_price_from_assets gross s) _ h in
    let (pos, same, fits) = share_price_inv gross s price in omega (arith, same, fits)

pub performance_fee_guards :
    (gross s mark bps : ℕ) {r : ℕ × ℕ × ℕ}
    → performance_fee_for_nav gross s mark bps ≡ ok r
    → (bps ≤ bps_denominator) × ((s ≡ 0) ⊎ (gross * share_scale / s < u64))
unfolding performance_fee_for_nav validate_percentage_bps
performance_fee_guards gross s mark bps {r} h =
    let (_, valid, rest) = >>=-eq-ok (fail_if (ltb bps_denominator bps) invalid_bps) _ h in
    (
      ground (arith, valid),
      elim (Bool-cases (s == 0)) [
        | inl empty ↦ inl (==→eq s 0 empty)
        | inr held ↦ inr (priced_fee_price gross s mark bps (rw held at rest))
      ],
    )

-- Whatever fee is computed is a fee as `IsFee` says.
pub performance_fee-IsFee :
    (gross s mark bps : ℕ) {r : ℕ × ℕ × ℕ}
    → gross < u64
    → s < u64
    → mark < u64
    → performance_fee_for_nav gross s mark bps ≡ ok r
    → IsFeeTriple gross s mark bps r
performance_fee-IsFee gross s mark bps {r} hg hs hm h =
    let (part, fits) = performance_fee_guards gross s mark bps h in
    let (r', same, fee) = performance_fee-eq gross s mark bps hg hs hm part fits in
    let equal : r' ≡ r = cc in subst (λ x. IsFeeTriple gross s mark bps x) equal fee

-- A priced supply at or below its watermark owes nothing.
priced_fee_covered :
    (a s mark bps p : ℕ)
    → share_price_from_assets a s ≡ ok p
    → p ≤ mark
    → priced_fee a s mark bps ≡ ok (0, a, mark)
unfolding priced_fee
priced_fee_covered a s mark bps p price covered =
    let low : leb p mark ≡ true = ground (arith, covered) in
    let keep : max mark p ≡ mark = ground (arith, covered) in
    rw price (elim (Bool-cases (mark == 0)) [
      | inl first ↦ rw (first, keep)
      | inr later ↦ rw (later, low, keep)
    ])

-- No profit is charged twice: after a fee that is computed, with assets, shares and a watermark
-- within 64 bits, a second report of the net assets, at the new watermark and the same
-- supply, owes no fee and moves nothing.
pub no_double_charge :
    (gross s mark bps fee net mark' : ℕ)
    → gross < u64
    → s < u64
    → mark < u64
    → performance_fee_for_nav gross s mark bps ≡ ok (fee, net, mark')
    → performance_fee_for_nav net s mark' bps ≡ ok (0, net, mark')
unfolding performance_fee_for_nav validate_percentage_bps
no_double_charge gross s mark bps fee net mark' hg hs hm h =
    let (part, fits) = performance_fee_guards gross s mark bps h in
    let spec = performance_fee-IsFee gross s mark bps hg hs hm h in
    let valid : ltb bps_denominator bps ≡ false = ground (arith, part) in
    elim (Bool-cases (s == 0)) [
      | inl empty ↦ rw (valid, empty)
      | inr held ↦
          let some_held : s ≢ 0 = ==→ne s 0 held in
          let pos : 0 < s = omega arith in
          let floor = div-IsFloor (net * share_scale) s pos in
          let gross_floor = div-IsFloor (gross * share_scale) s pos in
          let smaller : net * share_scale / s ≤ gross * share_scale / s =
            IsFloor-mono floor gross_floor (omega (arith, spec.conserved)) in
          let fits' : net * share_scale / s < u64 = omega (arith, fits, smaller) in
          let above : net * share_scale < (mark' + 1) * s = omega (arith, spec.covers) in
          let bound : (net * share_scale / s) * s < (mark' + 1) * s =
            omega (arith, floor.below, above) in
          let covered : net * share_scale / s ≤ mark' =
            omega (arith, mul_cancel_lt (net * share_scale / s) (mark' + 1) s bound) in
          rw (valid, held)
            (priced_fee_covered net s mark' bps _
              (share_price-eq net s (omega (arith, spec.conserved)) pos fits') covered)
    ]
