-- ===== src/Vault/Report.antt =====
-- vault.rs, `apply_reported_nav` and the gates on a report.
use roshi.Common.{ℕ, ◌+◌, ◌*◌, ◌≤◌, ◌<◌, ◌≡◌, ◌⊎◌, ◌≢◌, ◌-◌, arith, leb, if◌then◌else◌}
use roshi.Common.Result.{ok, err}
use roshi.Common.Error.{program_error, nav_gain_exceeds_bound}
use roshi.Common.Word.{u16, u32, u64, u128, wrapping_add}
use roshi.Common.Int.{
  ℤ, pos, negsuc, ◌≤ℤ◌, ◌+ℤ◌, max_ℤ, min_ℤ, i64_min, i64_max, saturating_sub_i64,
}
use roshi.Common.Nonlinear.{mul_mono}
use roshi.Math.{bps_denominator}
use roshi.Vault.{
  Vault, unlock_window, effective_total_assets, verify_nav_gain_bound, nav_gain_check,
}
use roshi.Vault.Unlock.{IsSound, locked_at}

clamp_window : (z : ℤ) (m : ℕ) → (n : ℕ) × (min_ℤ (max_ℤ z (pos 0)) (pos m) ≡ pos n) × (n ≤ m)
clamp_window (pos k) m = (if leb k m then k else m, ground arith, ground arith)
clamp_window (negsuc k) m = (0, ground arith, omega arith)

-- The window is a number of seconds, at most the configured bound.
pub unlock_window_lem :
    (v : Vault) (now : ℤ)
    → (n : ℕ) × (unlock_window v now ≡ pos n) × (n ≤ v.controls.max_unlock_duration_secs)
unfolding unlock_window
unlock_window_lem v now =
    clamp_window (saturating_sub_i64 now v.last_update_ts) v.controls.max_unlock_duration_secs

-- The vault after a report with the window `n`.
abbrev reported : Vault → ℕ → ℕ → ℤ → ℕ → Vault
reported v net locked now n = record v {
  locked_profit = locked;
  profit_unlock_start_ts = now;
  profit_unlock_end_ts = now +ℤ pos n;
  total_assets = net;
}

module _ (v : Vault) (net : ℕ) (now : ℤ) (sound : IsSound v) (fits : net < u64)
    (bound : v.controls.max_unlock_duration_secs < u32) (low : i64_min ≤ℤ now)
    (high : now +ℤ pos u32 ≤ℤ i64_max) where
  -- The effective assets just before the report.
  abbrev prior : ℕ
  prior = v.total_assets - locked_at v now

  -- What a report makes of the vault: a sound one with the net assets as its total, worth what it
  -- was where a gain is locked, and its net assets otherwise.
  abbrev Recognized : Vault → Type 0
  Recognized v' =
      IsSound v'
      × (v'.total_assets ≡ net)
      × (((prior < net)
            × (unlock_window v now ≢ pos 0)
            × (effective_total_assets v' now ≡ ok prior))
          ⊎ (((net ≤ prior) ⊎ (unlock_window v now ≡ pos 0))
              × (effective_total_assets v' now ≡ ok net)))

-- With net assets, stored assets and a bound within their words, a report that passes the gain bound
-- raises the net assets by at most the configured share of the
-- stored ones, and one that does not is refused; the bound is off at 0 and on an empty supply, and
-- its products never overflow.
pub verify_nav_gain_bound_lem :
    (v : Vault) (net supply : ℕ)
    → net < u64
    → v.total_assets < u64
    → v.controls.max_nav_gain_bps < u16
    → let allowed = v.total_assets * (bps_denominator + v.controls.max_nav_gain_bps) in
      (((v.controls.max_nav_gain_bps ≡ 0) ⊎ (supply ≡ 0) ⊎ (net * bps_denominator ≤ allowed))
        × (verify_nav_gain_bound v net supply ≡ ok tt))
      ⊎ ((0 < v.controls.max_nav_gain_bps)
          × (0 < supply)
          × (allowed < net * bps_denominator)
          × (verify_nav_gain_bound v net supply ≡ err (program_error nav_gain_exceeds_bound)))
unfolding verify_nav_gain_bound nav_gain_check
verify_nav_gain_bound_lem v net supply a b c =
    let gain = v.controls.max_nav_gain_bps in
    let allowed = v.total_assets * (bps_denominator + gain) in
    let scaled_fits : net * bps_denominator < u128 = omega arith in
    let allowed_fits : allowed < u128 = omega (
      arith,
      mul_mono v.total_assets u64 (bps_denominator + gain) 100000 (omega arith) (omega arith),
    ) in
    let plain : wrapping_add u128 bps_denominator gain ≡ bps_denominator + gain = omega arith in
    rw plain (ground (arith, scaled_fits, allowed_fits))
