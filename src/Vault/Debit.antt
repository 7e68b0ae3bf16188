-- ===== src/Vault/Debit.antt =====
-- vault.rs, `debit_assets_at_effective`.
use roshi.Common.{
  ℕ, ◌+◌, ◌-◌, ◌*◌, ◌≤◌, ◌<◌, ◌≡◌, ◌⊎◌, inl, inr, arith, Bool-cases, ltb, leb, leb→gt, leb→le, true,
  if◌then◌else◌,
}
use roshi.Common.Result.{ok, err}
use roshi.Common.Error.{program_error, invalid_vault_state}
use roshi.Common.Int.{ℤ, ◌≤ℤ◌, gap}
use roshi.Common.Nonlinear.{IsFloor, IsFloor-le}
use roshi.Vault.{Vault, debit_assets_at_effective, effective_total_assets}
use roshi.Vault.Unlock.{
  IsSound, locked_at, locked_at-le, locked_at-IsFloor, locked_at_after, remaining_locked_profit-eq,
  effective_total_assets-eq,
}

-- The vault after a debit.
unfoldable pub debited : Vault → ℕ → ℤ → Vault
debited v amount now =
    let base = record v {
      total_assets = v.total_assets - amount;
      locked_profit = locked_at v now;
    } in
    if ltb 0 (locked_at v now) then record base { profit_unlock_start_ts = now } else base

-- The drip of a window, with its ends and its profit renamed.
pub window-IsFloor :
    {p q : ℕ} {end end' start start' : ℤ} (x : ℕ) (now : ℤ)
    → q ≡ p
    → end' ≡ end
    → start' ≡ start
    → IsFloor (q * gap end' now) (gap end' start') x
    → IsFloor (p * gap end now) (gap end start) x
window-IsFloor x now a b c h = rw (a, b, c) at h

module _ (v : Vault) (sound : IsSound v) (amount : ℕ) (now : ℤ) where
  -- A debit succeeds exactly up to the effective assets.
  pub debit-eq : debit_assets_at_effective v amount now ≡ (
      if leb amount (v.total_assets - locked_at v now)
      then ok (debited v amount now)
      else err (program_error invalid_vault_state))
  unfolding debit_assets_at_effective debited
  debit-eq =
      let part = locked_at-le v sound now in
      let enough : leb (locked_at v now) v.total_assets ≡ true =
        ground (arith, part, sound.locked) in
      rw (remaining_locked_profit-eq v sound now, enough) (ground arith)

  pub debit_inv :
      {v' : Vault}
      → debit_assets_at_effective v amount now ≡ ok v'
      → (amount ≤ v.total_assets - locked_at v now) × (v' ≡ debited v amount now)
  debit_inv {v'} h = elim (Bool-cases (leb amount (v.total_assets - locked_at v now))) [
    | inl covered ↦
        let known : debit_assets_at_effective v amount now ≡ ok (debited v amount now) =
          rw (debit-eq, covered) in
        (leb→le _ _ covered, cc)
    | inr short ↦
        let known : debit_assets_at_effective v amount now
            ≡ err (program_error invalid_vault_state) =
          rw (debit-eq, short) in
        absurd (cc)
  ]

  pub debited_fields :
      ((debited v amount now).total_assets ≡ v.total_assets - amount)
      × ((debited v amount now).locked_profit ≡ locked_at v now)
      × ((debited v amount now).profit_unlock_end_ts ≡ v.profit_unlock_end_ts)
  unfolding debited
  debited_fields = ground arith

  -- Where profit is still locked the window starts anew at `now`; otherwise it is left alone.
  pub debited_start :
      ((0 < locked_at v now) × ((debited v amount now).profit_unlock_start_ts ≡ now))
      ⊎ ((locked_at v now ≡ 0)
          × ((debited v amount now).profit_unlock_start_ts ≡ v.profit_unlock_start_ts))
  unfolding debited
  debited_start = ground arith

  pub still_open : 0 < locked_at v now → ¬ (v.profit_unlock_end_ts ≤ℤ now)
  still_open some_left over = omega (arith, locked_at_after v now over)

  pub debited-IsSound :
      v.profit_unlock_start_ts ≤ℤ now
      → amount ≤ v.total_assets - locked_at v now
      → IsSound (debited v amount now)
  debited-IsSound started covered =
      let (total, locked, end) = debited_fields in
      let part = locked_at-le v sound now in
      elim debited_start [
        | inl (some_left, start) ↦
            let e = still_open some_left in
            record {
              locked = rw (total, locked) (omega (arith, sound.locked));
              total = rw total (omega (arith, sound.total));
              ordered = rw (end, start) (omega arith);
              short = rw (end, start) (omega (arith, sound.short));
            }
        | inr (none_left, start) ↦ record {
          locked = rw (total, locked) (omega arith);
          total = rw total (omega (arith, sound.total));
          ordered = rw (end, start) sound.ordered;
          short = rw (end, start) sound.short;
        }
      ]

  -- The locked profit does not move at the moment of the debit.
  locked_at-debited :
      v.profit_unlock_start_ts ≤ℤ now
      → amount ≤ v.total_assets - locked_at v now
      → locked_at (debited v amount now) now ≡ locked_at v now
  locked_at-debited started covered =
      let sound' = debited-IsSound started covered in
      let (total, locked, end) = debited_fields in
      let cap = locked_at-le (debited v amount now) sound' now in
      elim debited_start [
        | inl (some_left, start) ↦
            let floor =
              locked_at-IsFloor (debited v amount now) sound' now (rw start (omega arith))
                (rw end (still_open some_left)) in
            let e = still_open some_left in
            let whole : IsFloor (locked_at v now * gap v.profit_unlock_end_ts now)
                (gap v.profit_unlock_end_ts now) (locked_at (debited v amount now) now) =
              window-IsFloor _ now locked end start floor in
            let up : locked_at v now ≤ locked_at (debited v amount now) now =
              IsFloor-le (locked_at v now) whole (omega arith) in
            omega (arith, up, cap, locked)
        | inr (none_left, start) ↦ omega (arith, cap, locked, none_left)
      ]

  -- A debit of `amount` at `now` on a sound vault, the clock not being before the start of the
  -- window: it is refused exactly
  -- where `amount` is above the effective assets `e`, and otherwise leaves a sound vault with `amount`
  -- less in total and effective assets, and the same locked profit.
  pub debit_assets_at_effective_lem :
      v.profit_unlock_start_ts ≤ℤ now
      → (e : ℕ) × (effective_total_assets v now ≡ ok e)
        × (((e < amount)
              × (debit_assets_at_effective v amount now ≡ err (program_error invalid_vault_state)))
            ⊎ ((v' : Vault) × (debit_assets_at_effective v amount now ≡ ok v')
                × IsSound v'
                × (v'.total_assets + amount ≡ v.total_assets)
                × (effective_total_assets v' now ≡ ok (e - amount))
                × (amount ≤ e)))
  debit_assets_at_effective_lem started =
      let e = v.total_assets - locked_at v now in
      (
        e,
        effective_total_assets-eq v sound now,
        elim (Bool-cases (leb amount e)) [
          | inl covered ↦
              let within : amount ≤ e = leb→le _ _ covered in
              let sound' = debited-IsSound started within in
              let (total, locked, _) = debited_fields in
              let left : (debited v amount now).total_assets - locked_at (debited v amount now) now
                  ≡ e - amount =
                omega (arith, total, locked_at-debited started within) in
              inr (
                debited v amount now,
                rw (debit-eq, covered),
                sound',
                omega (arith, total),
                rw (effective_total_assets-eq (debited v amount now) sound' now, left),
                within,
              )
          | inr short ↦ inl (leb→gt _ _ short, rw (debit-eq, short))
        ],
      )
