-- ===== src/Vault/Unlock.antt =====
-- vault.rs, the drip of locked profit: `remaining_locked_profit` and `effective_total_assets`.
use mathlib.Core.Option
use roshi.Common.{
  ℕ, ◌-◌, ◌*◌, ◌/◌, ◌≤◌, ◌<◌, ◌≡◌, ◌⊎◌, inl, inr, arith, Bool-cases, leb, leb→le, leb→gt, ◌∙◌, true,
  false, if◌then◌else◌,
}
use roshi.Common.Result.{ok}
use roshi.Common.Word.{u32, u64, u128}
use roshi.Common.Int.{ℤ, ◌≤ℤ◌, leb_ℤ, gap, checked_sub_i64-gap}
use roshi.Common.Nonlinear.{IsFloor, IsFloor-mono, div-IsFloor, mul_mono, mul_cancel_le}
use roshi.Math.Rounding.{mul_div_floor-eq, checked_u64-eq}
use roshi.Vault.{Vault, span_u128, dripping_profit, remaining_locked_profit, effective_total_assets}

-- What every vault that the program stores satisfies of its unlock window: the locked profit is
-- part of the assets, and the window is ordered and shorter than 2^32 seconds.
pub record IsSound (v : Vault) : Type 0 where
  pub locked : v.locked_profit ≤ v.total_assets
  pub total : v.total_assets < u64
  pub ordered : v.profit_unlock_start_ts ≤ℤ v.profit_unlock_end_ts
  pub short : gap v.profit_unlock_end_ts v.profit_unlock_start_ts < u32

span_u128-eq : (a b : ℤ) → b ≤ℤ a → gap a b < u32 → span_u128 a b ≡ ok (gap a b)
unfolding span_u128 Option.bind
span_u128-eq a b h k = rw (checked_sub_i64-gap a b h (omega arith))

-- The profit still locked at `now`, as a number: all of it up to the start of the window, none from
-- its end, and between them the part of the window that is left, rounded down.
unfoldable pub locked_at : Vault → ℤ → ℕ
locked_at v now =
    if leb_ℤ v.profit_unlock_end_ts now
    then 0
    else if leb_ℤ now v.profit_unlock_start_ts
    then v.locked_profit
    else v.locked_profit
      * gap v.profit_unlock_end_ts now
      / gap v.profit_unlock_end_ts v.profit_unlock_start_ts

-- The three ranges of the clock.
data Phase (v : Vault) (now : ℤ) : Type 0 where
  after : v.profit_unlock_end_ts ≤ℤ now → locked_at v now ≡ 0 → Phase v now
  before :
      ¬ (v.profit_unlock_end_ts ≤ℤ now)
      → now ≤ℤ v.profit_unlock_start_ts
      → locked_at v now ≡ v.locked_profit
      → Phase v now
  within :
      ¬ (v.profit_unlock_end_ts ≤ℤ now)
      → ¬ (now ≤ℤ v.profit_unlock_start_ts)
      → IsFloor
          (v.locked_profit * gap v.profit_unlock_end_ts now)
          (gap v.profit_unlock_end_ts v.profit_unlock_start_ts)
          (locked_at v now)
      → Phase v now

phase : (v : Vault) (now : ℤ) → Phase v now
unfolding locked_at
phase v now = elim (Bool-cases (leb_ℤ v.profit_unlock_end_ts now)) [
  | inl over ↦ after (leb→le _ _ over) (rw over)
  | inr open_end ↦
      let e = leb→gt _ _ open_end in
      elim (Bool-cases (leb_ℤ now v.profit_unlock_start_ts)) [
        | inl early ↦ before (omega arith) (leb→le _ _ early) (rw (open_end, early))
        | inr late ↦
            let l = leb→gt _ _ late in
            within (omega arith) (omega arith) (rw (open_end, late) (div-IsFloor _ _ (omega arith)))
      ]
]

pub locked_at_after : (v : Vault) (now : ℤ) → v.profit_unlock_end_ts ≤ℤ now → locked_at v now ≡ 0
locked_at_after v now h = elim (phase v now) [
  | after _ same ↦ same
  | before e _ _ ↦ absurd (e h)
  | within e _ _ ↦ absurd (e h)
]

pub locked_at_start :
    (v : Vault) (now : ℤ)
    → now ≤ℤ v.profit_unlock_start_ts
    → ¬ (v.profit_unlock_end_ts ≤ℤ now)
    → locked_at v now ≡ v.locked_profit
locked_at_start v now s e = elim (phase v now) [
  | after e' _ ↦ absurd (e e')
  | before _ _ same ↦ same
  | within _ s' _ ↦ absurd (s' s)
]

module _ (v : Vault) (sound : IsSound v) where
  dripping-eq :
      (now : ℤ)
      → leb_ℤ v.profit_unlock_end_ts now ≡ false
      → leb_ℤ now v.profit_unlock_start_ts ≡ false
      → dripping_profit v now ≡ ok (locked_at v now)
  unfolding dripping_profit locked_at
  dripping-eq now h k =
      let end = v.profit_unlock_end_ts in
      let start = v.profit_unlock_start_ts in
      let e = leb→gt _ _ h in
      let s = leb→gt _ _ k in
      let inside : gap end now ≤ gap end start = omega (arith, sound.ordered) in
      let left : gap end now < u32 = omega (arith, sound.short) in
      let part : v.locked_profit * gap end now ≤ v.locked_profit * gap end start =
        mul_mono v.locked_profit v.locked_profit (gap end now) (gap end start) (omega arith)
          inside in
      let floor = div-IsFloor (v.locked_profit * gap end now) (gap end start) (omega arith) in
      let small : v.locked_profit * gap end now / gap end start ≤ v.locked_profit =
        mul_cancel_le _ v.locked_profit (gap end start) (omega arith)
          (omega (arith, floor.below, part)) in
      let fits : v.locked_profit * gap end now < u128 = omega (
        arith,
        mul_mono v.locked_profit u64 (gap end now) u32 (omega (arith, sound.locked, sound.total))
            (omega arith),
      ) in
      rw (
        h,
        k,
        span_u128-eq end start sound.ordered sound.short,
        span_u128-eq end now (omega arith) left,
        mul_div_floor-eq v.locked_profit (gap end now) (gap end start) (omega arith) fits,
        checked_u64-eq (v.locked_profit * gap end now / gap end start)
            (omega (arith, sound.locked, sound.total)),
      )

  -- On a sound vault the locked profit is always computed, with no overflow, and is the linear drip.
  pub remaining_locked_profit-eq : (now : ℤ) → remaining_locked_profit v now ≡ ok (locked_at v now)
  unfolding remaining_locked_profit locked_at
  remaining_locked_profit-eq now = elim (Bool-cases (leb_ℤ v.profit_unlock_end_ts now)) [
    | inl over ↦ rw over
    | inr open_end ↦ elim (Bool-cases (leb_ℤ now v.profit_unlock_start_ts)) [
      | inl early ↦ rw (open_end, early)
      | inr late ↦
          rw (open_end, late) (dripping-eq now open_end late ∙ rw (open_end, late, locked_at))
    ]
  ]

  pub locked_at-le : (now : ℤ) → locked_at v now ≤ v.locked_profit
  locked_at-le now = elim (phase v now) [
    | after _ same ↦ omega (arith, same)
    | before _ _ same ↦ omega (arith, same)
    | within e s floor ↦
        mul_cancel_le _ v.locked_profit (gap v.profit_unlock_end_ts v.profit_unlock_start_ts)
          (omega (arith, e, s))
          (omega (
            arith,
            floor.below,
            mul_mono v.locked_profit v.locked_profit (gap v.profit_unlock_end_ts now)
                (gap v.profit_unlock_end_ts v.profit_unlock_start_ts) (omega arith)
                (omega (arith, e, s)),
          ))
  ]

  pub locked_at_antitone : (now later : ℤ) → now ≤ℤ later → locked_at v later ≤ locked_at v now
  locked_at_antitone now later h = elim (phase v later) [
    | after _ none_left ↦ omega (arith, none_left)
    | before e s _ ↦ elim (phase v now) [
      | after e' _ ↦ absurd (omega (arith, e, e'))
      | before _ _ all ↦ omega (arith, all, locked_at-le later)
      | within _ s' _ ↦ absurd (omega (arith, s, s'))
    ]
    | within e s floor ↦ elim (phase v now) [
      | after e' _ ↦ absurd (omega (arith, e, e'))
      | before _ _ all ↦ omega (arith, all, locked_at-le later)
      | within e' s' floor' ↦ IsFloor-mono floor floor' (
          mul_mono v.locked_profit v.locked_profit (gap v.profit_unlock_end_ts later)
            (gap v.profit_unlock_end_ts now) (omega arith) (omega arith))
    ]
  ]

  -- On a sound vault the effective assets are always computed: all assets but the locked profit.
  pub effective_total_assets-eq :
      (now : ℤ) → effective_total_assets v now ≡ ok (v.total_assets - locked_at v now)
  unfolding effective_total_assets
  effective_total_assets-eq now =
      let part = locked_at-le now in
      let enough : leb (locked_at v now) v.total_assets ≡ true =
        ground (arith, part, sound.locked) in
      rw (remaining_locked_profit-eq now, enough)

  -- Inside the window, its start included, the locked profit is the part that is left, rounded down.
  pub locked_at-IsFloor :
      (now : ℤ)
      → v.profit_unlock_start_ts ≤ℤ now
      → ¬ (v.profit_unlock_end_ts ≤ℤ now)
      → IsFloor
          (v.locked_profit * gap v.profit_unlock_end_ts now)
          (gap v.profit_unlock_end_ts v.profit_unlock_start_ts)
          (locked_at v now)
  locked_at-IsFloor now s e = elim (phase v now) [
    | after e' _ ↦ absurd (e e')
    | before _ s' all ↦
        let same : gap v.profit_unlock_end_ts now
            ≡ gap v.profit_unlock_end_ts v.profit_unlock_start_ts =
          omega (arith, s, s') in
        rw (all, same) (record { below = omega arith; above = omega (arith, e) })
    | within _ _ floor ↦ floor
  ]

-- As time passes a sound vault's effective assets only grow, and from the end of the window on they
-- are all of its assets.
pub effective_total_assets_grow :
    (v : Vault) (now later : ℤ)
    → IsSound v
    → now ≤ℤ later
    → (a b : ℕ) × (effective_total_assets v now ≡ ok a)
      × (effective_total_assets v later ≡ ok b)
      × (a ≤ b)
      × (b ≤ v.total_assets)
      × (¬ (v.profit_unlock_end_ts ≤ℤ later) ⊎ (b ≡ v.total_assets))
effective_total_assets_grow v now later sound h = (
  v.total_assets - locked_at v now,
  v.total_assets - locked_at v later,
  effective_total_assets-eq v sound now,
  effective_total_assets-eq v sound later,
  omega (arith, locked_at_antitone v sound now later h),
  omega arith,
  all_at_end,
)
  where
    all_at_end :
        ¬ (v.profit_unlock_end_ts ≤ℤ later) ⊎ (v.total_assets - locked_at v later ≡ v.total_assets)
    all_at_end = elim (phase v later) [
      | after _ none_left ↦ inr (omega (arith, none_left))
      | before e _ _ ↦ inl e
      | within e _ _ ↦ inl e
    ]
