-- ===== src/Math/Rounding.antt =====
-- math.rs, the rounded products: what each returns, told without division, and when it fails.
use roshi.Common.{
  ℕ, ◌+◌, ◌*◌, ◌/◌, ◌%◌, ◌≤◌, ◌<◌, ◌≡◌, ◌↔◌, ◌⊎◌, inl, inr, arith, Bool-cases, leb, leb→le, refl,
  ap, ◌-◌, ◌==◌, ◌≢◌, ==→eq, ==→ne, if◌then◌else◌,
}
use roshi.Common.Result.{ok}
use roshi.Common.Word.{u64, u128, max, wrapping_add}
use roshi.Common.Nonlinear.{
  IsFloor, IsCeil, div-IsFloor, IsFloor-unique, IsCeil-unique, mul_mono, IsCeil-le,
}
use roshi.Math.{
  mul_div_floor, mul_div_ceil, mul_div_floor_u64, mul_div_ceil_u64, bps_floor, bps_ceil,
  bps_denominator, round_with_min1, nearest_min1, checked_u64,
}

pub mul_div_floor-eq :
    (lhs rhs d : ℕ) → 0 < d → lhs * rhs < u128 → mul_div_floor lhs rhs d ≡ ok (lhs * rhs / d)
unfolding mul_div_floor
mul_div_floor-eq lhs rhs d p h = ground arith

pub mul_div_floor_inv :
    (lhs rhs d : ℕ) {q : ℕ}
    → mul_div_floor lhs rhs d ≡ ok q
    → (0 < d) × (lhs * rhs < u128) × (q ≡ lhs * rhs / d)
unfolding mul_div_floor
mul_div_floor_inv lhs rhs d h = ground arith

pub mul_div_floor_sound :
    (lhs rhs d : ℕ) {q : ℕ} → mul_div_floor lhs rhs d ≡ ok q → IsFloor (lhs * rhs) d q
mul_div_floor_sound lhs rhs d {q} h =
    let facts = mul_div_floor_inv lhs rhs d h in rw facts.2 (div-IsFloor (lhs * rhs) d facts.0)

-- `mul_div_floor` returns `q` exactly when the divisor is not 0, the product fits 128 bits, and `q`
-- is the exact quotient rounded down.
pub mul_div_floor_iff :
    (lhs rhs d q : ℕ)
    → (mul_div_floor lhs rhs d ≡ ok q) ↔ ((0 < d) × (lhs * rhs < u128) × IsFloor (lhs * rhs) d q)
mul_div_floor_iff lhs rhs d q = (to, from)
  where
    to : mul_div_floor lhs rhs d ≡ ok q → (0 < d) × (lhs * rhs < u128) × IsFloor (lhs * rhs) d q
    to h =
        let facts = mul_div_floor_inv lhs rhs d h in
        (facts.0, facts.1, mul_div_floor_sound lhs rhs d h)

    from : (0 < d) × (lhs * rhs < u128) × IsFloor (lhs * rhs) d q → mul_div_floor lhs rhs d ≡ ok q
    from (p, fits, floor) =
        rw (IsFloor-unique floor (div-IsFloor (lhs * rhs) d p)) (mul_div_floor-eq lhs rhs d p fits)

-- The quotient that `mul_div_ceil` settles on.
pub ceil_div : ℕ → ℕ → ℕ
ceil_div n d = if n % d == 0 then n / d else n / d + 1

pub ceil_div-IsCeil : (n d : ℕ) → 0 < d → IsCeil n d (ceil_div n d)
unfolding ceil_div
ceil_div-IsCeil n d p = elim (Bool-cases (n % d == 0)) [
  | inl exact ↦ let r : n % d ≡ 0 = ==→eq (n % d) 0 exact in rw exact (omega arith)
  | inr inexact ↦ let r : n % d ≢ 0 = ==→ne (n % d) 0 inexact in rw inexact (omega arith)
]

ceil_div-le : (n d : ℕ) → 0 < d → ceil_div n d ≤ n
ceil_div-le n d p =
    IsCeil-le n (ceil_div-IsCeil n d p) (omega (arith, mul_mono n n 1 d (omega arith) p))

-- Rounding up never overflows: where a remainder is left the divisor is at least 2.
pub mul_div_ceil-eq :
    (lhs rhs d : ℕ)
    → 0 < d
    → lhs * rhs < u128
    → mul_div_ceil lhs rhs d ≡ ok (ceil_div (lhs * rhs) d)
unfolding mul_div_ceil ceil_div
mul_div_ceil-eq lhs rhs d p h = ground (arith, ceil_div-le (lhs * rhs) d p)

mul_div_ceil_guards :
    (lhs rhs d : ℕ) {q : ℕ} → mul_div_ceil lhs rhs d ≡ ok q → (0 < d) × (lhs * rhs < u128)
unfolding mul_div_ceil
mul_div_ceil_guards lhs rhs d h = ground arith

pub mul_div_ceil_sound :
    (lhs rhs d : ℕ) {q : ℕ}
    → mul_div_ceil lhs rhs d ≡ ok q
    → (0 < d) × (lhs * rhs < u128) × IsCeil (lhs * rhs) d q
mul_div_ceil_sound lhs rhs d {q} h =
    let (p, fits) = mul_div_ceil_guards lhs rhs d h in
    let same : q ≡ ceil_div (lhs * rhs) d = cc (mul_div_ceil-eq lhs rhs d p fits) in
    (p, fits, rw same (ceil_div-IsCeil (lhs * rhs) d p))

-- `mul_div_ceil` returns `q` exactly when the divisor is not 0, the product fits 128 bits, and `q`
-- is the exact quotient rounded up; so its last addition never overflows.
pub mul_div_ceil_iff :
    (lhs rhs d q : ℕ)
    → (mul_div_ceil lhs rhs d ≡ ok q) ↔ ((0 < d) × (lhs * rhs < u128) × IsCeil (lhs * rhs) d q)
mul_div_ceil_iff lhs rhs d q = (mul_div_ceil_sound lhs rhs d, from)
  where
    from : (0 < d) × (lhs * rhs < u128) × IsCeil (lhs * rhs) d q → mul_div_ceil lhs rhs d ≡ ok q
    from (p, fits, ceil) =
        rw (IsCeil-unique ceil (ceil_div-IsCeil (lhs * rhs) d p)) (mul_div_ceil-eq lhs rhs d p fits)

pub mul-lt-u128 : (a b : ℕ) → a < u64 → b < u64 → a * b < u128
mul-lt-u128 a b h k = omega (arith, mul_mono a (u64 - 1) b (u64 - 1) (omega arith) (omega arith))

pub checked_u64_inv : (x : ℕ) {y : ℕ} → checked_u64 x ≡ ok y → (x ≡ y) × (y < u64)
unfolding checked_u64
checked_u64_inv x h = ground arith

pub checked_u64-eq : (x : ℕ) → x < u64 → checked_u64 x ≡ ok x
unfolding checked_u64
checked_u64-eq x h = ground arith

pub bps_floor-eq :
    (amount bps : ℕ)
    → amount < u64
    → bps ≤ bps_denominator
    → (bps_floor amount bps ≡ ok (amount * bps / bps_denominator))
      × (amount * bps / bps_denominator ≤ amount)
unfolding bps_floor mul_div_floor_u64
bps_floor-eq amount bps small part =
    let fits : amount * bps < u128 = mul-lt-u128 amount bps small (omega arith) in
    let low : amount * bps / bps_denominator ≤ amount =
      omega (arith, mul_mono amount amount bps bps_denominator (omega arith) part) in
    (
      rw (mul_div_floor-eq amount bps bps_denominator (omega arith) fits)
          (checked_u64-eq _ (omega arith)),
      low,
    )

-- A share of `bps` out of 10,000, at most all of it, of an amount within 64 bits never fails and never exceeds the amount, also
-- where it is rounded up; the two roundings enclose the exact value.
pub bps_bounds :
    (amount bps : ℕ)
    → amount < u64
    → bps ≤ bps_denominator
    → (f c : ℕ) × (bps_floor amount bps ≡ ok f)
      × (bps_ceil amount bps ≡ ok c)
      × IsFloor (amount * bps) bps_denominator f
      × IsCeil (amount * bps) bps_denominator c
      × (c ≤ amount)
unfolding bps_ceil mul_div_ceil_u64
bps_bounds amount bps small part =
    let fits : amount * bps < u128 = mul-lt-u128 amount bps small (omega arith) in
    let n = amount * bps in
    let ceil = ceil_div-IsCeil n bps_denominator (omega arith) in
    let within : ceil_div n bps_denominator ≤ amount =
      IsCeil-le amount ceil (mul_mono amount amount bps bps_denominator (omega arith) part) in
    (
      n / bps_denominator,
      ceil_div n bps_denominator,
      (bps_floor-eq amount bps small part).0,
      rw (mul_div_ceil-eq amount bps bps_denominator (omega arith) fits)
          (checked_u64-eq (ceil_div n bps_denominator) (omega arith)),
      div-IsFloor n bps_denominator (omega arith),
      ceil,
      within,
    )

-- The nearest quotient, halves up, but at least 1, told without division.
pub record IsNearest (n d f : ℕ) : Type 0 where
  pub positive : 1 ≤ f
  pub below : 2 * n < 2 * (f * d) + d
  pub above : (f ≡ 1) ⊎ (2 * (f * d) ≤ 2 * n + d)

abbrev nearest : ℕ → ℕ → ℕ
nearest n den =
    max (if leb den (2 * (n % den) % u128) then wrapping_add u128 (n / den) 1 else n / den) 1

nearest_min1_inv :
    (value num den : ℕ) {f : ℕ}
    → nearest_min1 value num den ≡ ok f
    → (0 < den) × (f ≡ nearest (value * num) den)
unfolding nearest_min1 checked_u64
nearest_min1_inv value num den h = ground arith

max_one : (q : ℕ) → (max q 1 ≡ q) × (1 ≤ q) ⊎ ((max q 1 ≡ 1) × (q ≡ 0))
max_one q = ground arith

nearest-IsNearest :
    (n den : ℕ) → 0 < den → den < u64 → n + 1 < u128 → IsNearest n den (nearest n den)
nearest-IsNearest n den p small fits = elim (Bool-cases (leb den (2 * (n % den) % u128))) [
  | inl up ↦
      let half : den ≤ 2 * (n % den) = omega (arith, leb→le den (2 * (n % den) % u128) up) in
      let whole : wrapping_add u128 (n / den) 1 ≡ n / den + 1 =
        omega (arith, mul_mono (n / den) (n / den) 1 den (omega arith) p) in
      rw (up, whole)
        (elim (max_one (n / den + 1)) [
          | inl (same, big) ↦ rw same (omega arith)
          | inr (one, none_left) ↦ absurd (omega arith)
        ])
  | inr down ↦
      let half : 2 * (n % den) < den = ground (arith, down) in
      rw down (elim (max_one (n / den)) [
        | inl (same, big) ↦
            rw same
              (record { positive = omega arith; below = omega arith; above = inr (omega arith) })
        | inr (one, none_left) ↦
            let gone : den * (n / den) ≡ 0 = omega (arith, ap (λ (t : ℕ). den * t) none_left) in
            rw one (record { positive = omega arith; below = omega arith; above = inl refl })
      ])
]

-- The flash fee that is computed on a positive borrow at a positive rate, its numbers within 64
-- bits, has a positive denominator and is the exact product rounded to the nearest atom,
-- halves up, but at least 1.
pub round_with_min1-IsNearest :
    (value num den : ℕ) {f : ℕ}
    → value < u64
    → num < u64
    → den < u64
    → 0 < value
    → 0 < num
    → round_with_min1 value num den ≡ ok f
    → (0 < den) × IsNearest (value * num) den f
round_with_min1-IsNearest value num den {f} v n d pv pn h =
    let charged : nearest_min1 value num den ≡ ok f = unfold round_with_min1 in ground (arith, h) in
    let (p, same) = nearest_min1_inv value num den charged in
    let fits : value * num + 1 < u128 =
      omega (arith, mul_mono value (u64 - 1) num (u64 - 1) (omega arith) (omega arith)) in
    (p, rw same (nearest-IsNearest (value * num) den p d fits))
