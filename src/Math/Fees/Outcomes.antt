-- ===== src/Math/Fees/Outcomes.antt =====
-- math.rs, `performance_fee_for_nav`: what becomes of a report, its errors included.
use roshi.Common.{
  ℕ, ◌*◌, ◌/◌, ◌≤◌, ◌<◌, ◌≡◌, ◌⊎◌, inl, inr, arith, true, false, Bool-cases, ltb, ◌==◌, ==→eq,
  ==→ne, ◌||◌, refl, ◌≢◌, ltb→lt, or_false,
}
use roshi.Common.Result.{ok, err}
use roshi.Common.Error.{invalid_bps, result_does_not_fit}
use roshi.Common.Word.{u64, u128}
use roshi.Math.{
  share_price_from_assets, priced_fee, performance_fee_for_nav, validate_percentage_bps,
  bps_denominator, checked_u64,
}
use roshi.Math.Rounding.{mul_div_floor-eq}
use roshi.Math.Fees.{share_scale, pow10-share_scale, IsFeeTriple, performance_fee-eq}

checked_u64-err : (x : ℕ) → u64 ≤ x → checked_u64 x ≡ err result_does_not_fit
unfolding checked_u64
checked_u64-err x h = ground (arith, h)

-- A gross price that does not fit 64 bits is refused.
performance_fee-err :
    (gross s mark bps : ℕ)
    → gross < u64
    → 0 < s
    → bps ≤ bps_denominator
    → u64 ≤ gross * share_scale / s
    → performance_fee_for_nav gross s mark bps ≡ err result_does_not_fit
unfolding performance_fee_for_nav validate_percentage_bps priced_fee share_price_from_assets
performance_fee-err gross s mark bps hg pos part wide =
    let valid : ltb bps_denominator bps ≡ false = ground (arith, part) in
    let some_held : (s == 0) ≡ false = ground (arith, pos) in
    let product : gross * share_scale < u128 = omega arith in
    rw
      (
        valid,
        some_held,
        pow10-share_scale,
        mul_div_floor-eq gross share_scale s pos product,
        checked_u64-err (gross * share_scale / s) wide,
      )
      refl

invalid_percentage :
    (gross s mark bps : ℕ)
    → bps_denominator < bps
    → performance_fee_for_nav gross s mark bps ≡ err invalid_bps
unfolding performance_fee_for_nav validate_percentage_bps
invalid_percentage gross s mark bps wide =
    let refused : ltb bps_denominator bps ≡ true = ground (arith, wide) in rw refused refl

-- With assets, shares and a watermark within 64 bits, a report has one of three outcomes: a fee as
-- `IsFee` says, where the percentage is at most 10,000 and there are no shares or the gross price
-- fits 64 bits; the error of a percentage above 10,000; or, at a percentage of at most 10,000, the
-- error of a gross price of some shares that does not fit.
pub performance_fee_total :
    (gross s mark bps : ℕ)
    → gross < u64
    → s < u64
    → mark < u64
    → ((r : ℕ × ℕ × ℕ) × (performance_fee_for_nav gross s mark bps ≡ ok r)
        × IsFeeTriple gross s mark bps r
        × (bps ≤ bps_denominator)
        × ((s ≡ 0) ⊎ (gross * share_scale / s < u64)))
      ⊎ (((bps_denominator < bps) × (performance_fee_for_nav gross s mark bps ≡ err invalid_bps))
          ⊎ ((bps ≤ bps_denominator)
              × (0 < s)
              × (u64 ≤ gross * share_scale / s)
              × (performance_fee_for_nav gross s mark bps ≡ err result_does_not_fit)))
performance_fee_total gross s mark bps hg hs hm = elim (Bool-cases (ltb bps_denominator bps)) [
  | inl over ↦
      let wide : bps_denominator < bps = ground (arith, over) in
      inr (inl (wide, invalid_percentage gross s mark bps wide))
  | inr within ↦
      let part : bps ≤ bps_denominator = ground (arith, within) in
      elim (Bool-cases (s == 0 || ltb (gross * share_scale / s) u64)) [
        | inl priced ↦
            let fits : (s ≡ 0) ⊎ (gross * share_scale / s < u64) = priceable priced in
            let (r, done, fee) = performance_fee-eq gross s mark bps hg hs hm part fits in
            inl (r, done, fee, part, fits)
        | inr wide ↦
            let (some_held, no_fit) = or_false (s == 0) _ wide in
            let held : s ≢ 0 = ==→ne s 0 some_held in
            let pos : 0 < s = omega (arith, held) in
            let large : u64 ≤ gross * share_scale / s = ground (arith, no_fit) in
            inr (inr (part, pos, large, performance_fee-err gross s mark bps hg pos part large))
      ]
]
  where
    priceable :
        (s == 0 || ltb (gross * share_scale / s) u64) ≡ true
        → (s ≡ 0) ⊎ (gross * share_scale / s < u64)
    priceable h = elim (Bool-cases (s == 0)) [
      | inl empty ↦ inl (==→eq s 0 empty)
      | inr held ↦ let h = rw held at h in inr (ltb→lt _ _ h)
    ]
