-- ===== src/Vault/Drip.antt =====
-- vault.rs, `debit_assets_at_effective`: the unlock line after a debit.
use roshi.Common.{ℕ, ◌+◌, ◌-◌, ◌*◌, ◌≤◌, ◌<◌, ◌≡◌, inl, inr, arith, Bool-cases, leb→le, leb→gt}
use roshi.Common.Result.{ok}
use roshi.Common.Int.{ℤ, ◌≤ℤ◌, leb_ℤ, gap}
use roshi.Common.Nonlinear.{IsFloor, IsFloor-le, mul_mono, mul_cancel_le, mul_cancel_lt}
use roshi.Vault.{Vault, debit_assets_at_effective}
use roshi.Vault.Unlock.{
  IsSound, locked_at, locked_at-le, locked_at-IsFloor, locked_at_after, locked_at_antitone,
}
use roshi.Vault.Debit.{
  debited, debited-IsSound, debited_fields, debited_start, window-IsFloor, debit_inv,
}

-- Two floors in a row lose at most one to one floor over the whole way.
refloor :
    (p l l' w r r' x : ℕ)
    → 0 < l'
    → l' ≤ l
    → 0 < w
    → IsFloor (p * l) w r
    → IsFloor (r * l') l r'
    → IsFloor (p * l') w x
    → (r' ≤ x) × (x ≤ r' + 1)
refloor p l l' w r r' x pos short width first second whole = (low, high)
  where
    low : r' ≤ x
    low =
        let a : r' * l * w ≤ r * l' * w =
          mul_mono (r' * l) (r * l') w w second.below (omega arith) in
        let b : r * w * l' ≤ p * l * l' =
          mul_mono (r * w) (p * l) l' l' first.below (omega arith) in
        IsFloor-le r' whole (mul_cancel_le (r' * w) (p * l') l (omega arith) (omega (arith, a, b)))

    high : x ≤ r' + 1
    high =
        let a : x * w * l ≤ p * l' * l = mul_mono (x * w) (p * l') l l whole.below (omega arith) in
        let b : (p * l + 1) * l' ≤ (r * w + w) * l' =
          mul_mono (p * l + 1) (r * w + w) l' l' (omega (arith, first.above)) (omega arith) in
        let c : r * l' * w ≤ (r' * l + l) * w =
          mul_mono (r * l') (r' * l + l) w w (omega (arith, second.above)) (omega arith) in
        let d : w * l' ≤ w * l = mul_mono w w l' l (omega arith) short in
        let e : x * (w * l) < (r' + 2) * (w * l) = omega (arith, a, b, c, d) in
        omega (arith, mul_cancel_lt x (r' + 2) (w * l) e)

module _ (v : Vault) (sound : IsSound v) (amount : ℕ) (now later : ℤ)
    (started : v.profit_unlock_start_ts ≤ℤ now)
    (covered : amount ≤ v.total_assets - locked_at v now) (h : now ≤ℤ later) where
  -- Once nothing is locked, nothing is locked again.
  drip_closed :
      v.profit_unlock_end_ts ≤ℤ later
      → (locked_at (debited v amount now) later ≡ 0) × (locked_at v later ≡ 0)
  drip_closed over =
      let (_, _, end) = debited_fields v sound amount now in
      let sound' = debited-IsSound v sound amount now started covered in
      (locked_at_after (debited v amount now) later (rw end over), locked_at_after v later over)

  drip_open :
      ¬ (v.profit_unlock_end_ts ≤ℤ later)
      → (locked_at (debited v amount now) later ≤ locked_at v later)
        × (locked_at v later ≤ locked_at (debited v amount now) later + 1)
  drip_open e =
      let (_, locked, end) = debited_fields v sound amount now in
      let sound' = debited-IsSound v sound amount now started covered in
      let first = locked_at-IsFloor v sound now started (omega arith) in
      let whole = locked_at-IsFloor v sound later (omega arith) e in
      elim (debited_start v sound amount now) [
        | inl (some_left, start) ↦
            let second =
              window-IsFloor _ later locked end start
                (locked_at-IsFloor (debited v amount now) sound' later (rw start h) (rw end e)) in
            refloor v.locked_profit (gap v.profit_unlock_end_ts now)
              (gap v.profit_unlock_end_ts later)
              (gap v.profit_unlock_end_ts v.profit_unlock_start_ts) (locked_at v now) _ _
              (omega (arith, e)) (omega (arith, h)) (omega (arith, e, h, started)) first second
              whole
        | inr (none_left, start) ↦
            let cap = locked_at-le (debited v amount now) sound' later in
            let fall = locked_at_antitone v sound now later h in
            (omega (arith, cap, locked, none_left), omega (arith, fall, none_left))
      ]

-- A debit on a sound vault, not before the start of the window, keeps the unlock line: at any time from the debit on, the profit still locked is what it
-- would have been without the debit, or one atom less.
pub debit_keeps_drip :
    (v : Vault) (amount : ℕ) (now later : ℤ) {v' : Vault}
    → IsSound v
    → v.profit_unlock_start_ts ≤ℤ now
    → now ≤ℤ later
    → debit_assets_at_effective v amount now ≡ ok v'
    → (locked_at v' later ≤ locked_at v later) × (locked_at v later ≤ locked_at v' later + 1)
debit_keeps_drip v amount now later {v'} sound started h debit =
    let (covered, same) = debit_inv v sound amount now debit in
    rw same (elim (Bool-cases (leb_ℤ v.profit_unlock_end_ts later)) [
      | inl over ↦
          let (a, b) = drip_closed v sound amount now later started covered h (leb→le _ _ over) in
          omega (arith, a, b)
      | inr open_end ↦
          let e = leb→gt _ _ open_end in
          drip_open v sound amount now later started covered h (omega arith)
    ])
