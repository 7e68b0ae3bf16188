-- ===== src/Math/Pricing.antt =====
-- math.rs, `base_atoms_from_asset_atoms`: both branches of the net exponent compute one rational.
use roshi.Common.{
  ℕ, ◌+◌, ◌-◌, ◌*◌, ◌/◌, ◌^◌, ◌<◌, ◌≡◌, ap, ◌∙◌, Bool-cases, inl, inr, arith, leb, leb→le, ◌==◌,
  if◌then◌else◌,
}
use roshi.Common.Result.{ok, fail_if, ok_or, >>=-eq-ok}
use roshi.Common.Error.{division_by_zero, overflow}
use roshi.Common.Word.{u64, u128, checked_mul}
use roshi.Common.Nonlinear.{IsFloor, IsFloor-scale, div-IsFloor, mul_mono}
use roshi.Math.{
  MathResult, OraclePrice, base_atoms_from_asset_atoms, scale_numerator, scale_denominator,
  net_decimals, pow10,
}
use roshi.Math.Pow.{ten_pow-add, ten_pow_pos, pow10_inv}
use roshi.Math.Rounding.{mul_div_floor_sound, checked_u64_inv}

net_decimals_inv : (e : ℕ) {k : ℕ} → net_decimals e ≡ ok k → k ≡ e
unfolding net_decimals
net_decimals_inv e h = ground arith

checked_mul_inv : (a b : ℕ) {p : ℕ} → ok_or (checked_mul u128 a b) overflow ≡ ok p → p ≡ a * b
checked_mul_inv a b h = ground arith

scale_numerator_sound :
    (n base e : ℕ) {v : ℕ} → scale_numerator n base e ≡ ok v → IsFloor (n * 10 ^ e) base v
unfolding scale_numerator
scale_numerator_sound n base e {v} h =
    let (k, net, scaled) = >>=-eq-ok (net_decimals e) _ h in
    let (s, power, divided) = >>=-eq-ok (pow10 k) _ scaled in
    let same : s ≡ 10 ^ e = cc ((pow10_inv k power).0, net_decimals_inv e net) in
    rw (← same) (mul_div_floor_sound n s base divided)

scale_denominator_sound :
    (n base e : ℕ) {v : ℕ}
    → 0 < base
    → scale_denominator n base e ≡ ok v
    → IsFloor n (base * 10 ^ e) v
unfolding scale_denominator
scale_denominator_sound n base e {v} pos h =
    let (k, net, scaled) = >>=-eq-ok (net_decimals e) _ h in
    let (s, power, divided) = >>=-eq-ok (pow10 k) _ scaled in
    let (d, product, quotient) = >>=-eq-ok (ok_or (checked_mul u128 base s) overflow) _ divided in
    let same : s ≡ 10 ^ e = cc ((pow10_inv k power).0, net_decimals_inv e net) in
    let divisor : d ≡ base * 10 ^ e = rw (← same) (checked_mul_inv base s product) in
    let result : v ≡ n / d = cc (quotient) in
    rw (result, divisor)
      (div-IsFloor n (base * 10 ^ e)
        (omega (arith, mul_mono 1 base 1 (10 ^ e) pos (ten_pow_pos e))))

-- The choice between the two.
abbrev scale_by : ℕ → ℕ → ℕ → ℕ → MathResult ℕ
scale_by n base up down =
    if leb down up then scale_numerator n base (up - down) else scale_denominator n base (down - up)

scale_by-IsFloor :
    (n base up down : ℕ) {v : ℕ}
    → 0 < base
    → scale_by n base up down ≡ ok v
    → IsFloor (n * 10 ^ up) (base * 10 ^ down) v
scale_by-IsFloor n base up down {v} pos h = elim (Bool-cases (leb down up)) [
  | inl more ↦
      let split : up ≡ (up - down) + down = omega (arith, leb→le down up more) in
      let floor = scale_numerator_sound n base (up - down) (rw more at h) in
      let whole = IsFloor-scale (10 ^ down) (ten_pow_pos down) floor in
      rw (ap (λ (t : ℕ). 10 ^ t) split ∙ ten_pow-add (up - down) down)
        (record { below = omega (arith, whole.below); above = omega (arith, whole.above) })
  | inr less ↦
      let split : down ≡ (down - up) + up = ground (arith, less) in
      let floor = scale_denominator_sound n base (down - up) pos (rw less at h) in
      let whole = IsFloor-scale (10 ^ up) (ten_pow_pos up) floor in
      rw (ap (λ (t : ℕ). 10 ^ t) split ∙ ten_pow-add (down - up) up)
        (record { below = omega (arith, whole.below); above = omega (arith, whole.above) })
]

-- A successful conversion is the rational
--   atoms * asset_value * 10^(base_decimals + base_price_decimals)
--   / (base_value * 10^(asset_decimals + asset_price_decimals))
-- rounded down once, whichever of the two exponents is the larger, and it fits 64 bits.
pub base_atoms-IsFloor :
    (atoms : ℕ) (asset base : OraclePrice) (asset_decimals base_decimals : ℕ) {v : ℕ}
    → base_atoms_from_asset_atoms atoms asset base asset_decimals base_decimals ≡ ok v
    → IsFloor
        (atoms * asset.value * 10 ^ (base_decimals + base.decimals))
        (base.value * 10 ^ (asset_decimals + asset.decimals))
        v
      × (v < u64)
unfolding base_atoms_from_asset_atoms
base_atoms-IsFloor atoms asset base ad bd {v} h =
    let (_, nonzero, rest) = >>=-eq-ok (fail_if (base.value == 0) division_by_zero) _ h in
    let (n, product, rest) =
      >>=-eq-ok (ok_or (checked_mul u128 atoms asset.value) overflow) _ rest in
    let (q, scaled, kept) =
      >>=-eq-ok (scale_by n base.value (bd + base.decimals) (ad + asset.decimals)) _ rest in
    let (same, fits) = checked_u64_inv q kept in
    let pos : 0 < base.value = ground (arith, nonzero) in
    (
      rw (← checked_mul_inv atoms asset.value product, ← same)
          (scale_by-IsFloor n base.value (bd + base.decimals) (ad + asset.decimals) pos scaled),
      fits,
    )
