-- ===== src/NavReport/Books.antt =====
-- report_nav.rs: the books after a report.
use roshi.Common.{ℕ, ◌+◌, ◌<◌, ◌≡◌, inl, inr, subst, refl, arith, Bool-cases, not, none, ltb, ◌∙◌}
use roshi.Common.Result.{ok, ok_inj, >>=-eq-ok, fail_if, ok_or}
use roshi.Common.Error.{
  program_error, lift, lift_ok, overflow, invalid_vault_state, invalid_account_data,
}
use roshi.Common.Int.{ℤ, checked_add_i64}
use roshi.Common.Word.{u64, checked_add, checked_sub, ok_or-checked_add, ok_or-checked_sub}
use roshi.Common.Bytes.{Key, bytes_eq, replicate}
use roshi.Math.{performance_fee_for_nav}
use roshi.Math.Fees.{IsFee, performance_fee-IsFee}
use roshi.Vault.{
  Vault, Role, economic_share_supply, effective_total_assets, apply_reported_nav, lock_gain,
  unlock_window, verify_report_interval,
}
use roshi.Vault.Config.{validate_state}
use roshi.Token.{mint_supply, verify_mint}
use roshi.NavReport.{
  NavReport, ReportKind, ReportAccounts, verify_role, verify_admin, verify_share_mint,
  verify_recovery, verify_gain, accept_report, account_report, idle_assets, apply_nav_report,
}

-- The fields that the recognition of a NAV leaves alone, and the total that it sets.
record Recognizes (v v' : Vault) (net : ℕ) : Type 0 where
  total : v'.total_assets ≡ net
  pending : v'.pending_withdrawal_assets ≡ v.pending_withdrawal_assets
  fees : v'.fees_payable ≡ v.fees_payable
  mark : v'.high_watermark ≡ v.high_watermark
  epoch : v'.report_epoch ≡ v.report_epoch
  requested : v'.requested_withdrawal_shares ≡ v.requested_withdrawal_shares

lock_gain_fields :
    (v : Vault) (net prior : ℕ) (now : ℤ) {v' : Vault}
    → lock_gain v net prior now ≡ ok v'
    → Recognizes v v' net
unfolding lock_gain
lock_gain_fields v net prior now {v'} h =
    let (gain, _, h) = >>=-eq-ok (ok_or (checked_sub net prior) (program_error overflow)) _ h in
    let (end, _, made) =
      >>=-eq-ok (ok_or (checked_add_i64 now (unlock_window v now)) (program_error overflow)) _ h in
    subst (λ x. Recognizes v x net) (ok_inj _ v' made)
      (record {
        total = refl;
        pending = refl;
        fees = refl;
        mark = refl;
        epoch = refl;
        requested = refl;
      })

recognize_fields :
    (v : Vault) (net : ℕ) (now : ℤ) {v' : Vault}
    → apply_reported_nav v net now ≡ ok v'
    → Recognizes v v' net
unfolding apply_reported_nav
recognize_fields v net now {v'} h =
    let (prior, _, h) = >>=-eq-ok (effective_total_assets v now) _ h in
    elim (Bool-cases (ltb prior net)) [
      | inl gain ↦ lock_gain_fields v net prior now (rw gain at h)
      | inr loss ↦
          let made = rw loss at h in
          subst (λ x. Recognizes v x net) (ok_inj _ v' made)
            (record {
              total = refl;
              pending = refl;
              fees = refl;
              mark = refl;
              epoch = refl;
              requested = refl;
            })
    ]

-- What a report of `gross` assets in all leaves in the books: they are the net assets, the fees
-- payable and the pending withdrawals, to the atom; the fee is one as `IsFee` says; and the epoch is
-- one higher.
pub record Reported (v v' : Vault) (gross supply : ℕ) : Type 0 where
  pub fee : ℕ
  pub split : v'.total_assets + v'.fees_payable + v'.pending_withdrawal_assets ≡ gross
  pub fees : v'.fees_payable ≡ v.fees_payable + fee
  pub charged :
      IsFee
        (fee + v'.total_assets)
        supply
        v.high_watermark
        v.performance_fee_bps
        fee
        v'.total_assets
        v'.high_watermark
  pub pending : v'.pending_withdrawal_assets ≡ v.pending_withdrawal_assets
  pub epoch : v'.report_epoch ≡ v.report_epoch + 1
  pub requested : v'.requested_withdrawal_shares ≡ v.requested_withdrawal_shares
  pub valid : validate_state v' ≡ ok tt

record Accepts (v v' : Vault) (fee net mark' : ℕ) : Type 0 where
  total : v'.total_assets ≡ net
  fees : v'.fees_payable ≡ v.fees_payable + fee
  mark : v'.high_watermark ≡ mark'
  pending : v'.pending_withdrawal_assets ≡ v.pending_withdrawal_assets
  epoch : v'.report_epoch ≡ v.report_epoch + 1
  requested : v'.requested_withdrawal_shares ≡ v.requested_withdrawal_shares
  valid : validate_state v' ≡ ok tt

accept_fields :
    (v : Vault) (hash : Key) (fee net mark : ℕ) (now : ℤ) {v' : Vault}
    → accept_report v hash fee net mark now ≡ ok v'
    → Accepts v v' fee net mark
unfolding accept_report
accept_fields v hash fee net mark now {v'} h =
    let (fees, sum, h) =
      >>=-eq-ok (ok_or (checked_add u64 v.fees_payable fee) (program_error overflow)) _ h in
    let (epoch, next, h) =
      >>=-eq-ok (ok_or (checked_add u64 v.report_epoch 1) (program_error overflow)) _ h in
    let u : Vault = record v {
      fees_payable = fees;
      high_watermark = mark;
      report_epoch = epoch;
      last_report_hash = hash;
    } in
    let (x, recognized, h) = >>=-eq-ok (apply_reported_nav u net now) _ h in
    let (_, valid, made) = >>=-eq-ok (validate_state (record x { last_update_ts = now })) _ h in
    let f = recognize_fields u net now recognized in
    let (grown, _) = ok_or-checked_add u64 v.fees_payable fee _ sum in
    let (later, _) = ok_or-checked_add u64 v.report_epoch 1 _ next in
    subst (λ y. Accepts v y fee net mark) (ok_inj (record x { last_update_ts = now }) v' made)
      (record {
        total = f.total;
        fees = f.fees ∙ grown;
        mark = f.mark;
        pending = f.pending;
        epoch = f.epoch ∙ later;
        requested = f.requested;
        valid = valid;
      })

-- A fee, with its numbers renamed.
IsFee-rename :
    {g g' s k b fee n n' m m' : ℕ}
    → g ≡ g'
    → n ≡ n'
    → m ≡ m'
    → IsFee g s k b fee n m
    → IsFee g' s k b fee n' m'
IsFee-rename x y z h = rw (x, y, z) at h

-- The accounting of a report that is accepted, with shares and a watermark below 64 bits.
account_report_lem :
    (v : Vault) (kind : ReportKind) (report : NavReport) (supply idle : ℕ) (now : ℤ) {v' : Vault}
    → supply < u64
    → v.high_watermark < u64
    → account_report v kind report supply idle now ≡ ok v'
    → Reported v v' (idle + report.external_value) supply
unfolding account_report
account_report_lem v kind report supply idle now {v'} hs hm h =
    let (gross, sum, h) =
      >>=-eq-ok (ok_or (checked_add u64 idle report.external_value) (program_error overflow)) _ h in
    let (exact, fits) = ok_or-checked_add u64 idle report.external_value _ sum in
    let (after, fees, h) =
      >>=-eq-ok (ok_or (checked_sub gross v.fees_payable) (program_error invalid_vault_state)) _
        h in
    let fees' = ok_or-checked_sub u64 gross v.fees_payable _ fees in
    let (base, pending, h) =
      >>=-eq-ok
        (ok_or (checked_sub after v.pending_withdrawal_assets) (program_error invalid_vault_state))
        _ h in
    let pending' = ok_or-checked_sub u64 after v.pending_withdrawal_assets _ pending in
    let charge = performance_fee_for_nav base supply v.high_watermark v.performance_fee_bps in
    let ((fee, net, mark), charged, h) = >>=-eq-ok (lift charge) _ h in
    let (_, _, accepted) = >>=-eq-ok (verify_gain v kind net supply) _ h in
    let f = accept_fields v report.report_hash fee net mark now accepted in
    let spec =
      performance_fee-IsFee base supply v.high_watermark v.performance_fee_bps (omega arith) hs hm
        (lift_ok charge charged) in
    record {
      fee = fee;
      split = omega (arith, f.total, f.fees, f.pending, spec.conserved, exact, fees', pending');
      fees = f.fees;
      charged =
          IsFee-rename (omega (arith, spec.conserved, f.total)) (omega (arith, f.total))
            (omega (arith, f.mark)) spec;
      pending = f.pending;
      epoch = f.epoch;
      requested = f.requested;
      valid = f.valid;
    }

-- What a report that is accepted has checked: the signatures that it needs, the minimal interval, and
-- the readings of the share supply and of the idle assets.
pub record Accepted (sub_account_address : Key → ℕ → Key)
    (associated_token_address : Key → Key → Key → Key) (v v' : Vault) (a : ReportAccounts)
    (report : NavReport) (kind : ReportKind) (now : ℤ) : Type 0 where
  pub share_supply : ℕ
  pub supply : ℕ
  pub idle : ℕ
  pub authority : verify_role v Role.nav_authority a.nav_authority ≡ ok tt
  pub admin : verify_admin v kind a.admin ≡ ok tt
  pub interval : verify_report_interval v now ≡ ok tt
  pub read : mint_supply a.share_mint ≡ ok share_supply
  pub counted : economic_share_supply v share_supply ≡ ok supply
  pub idle_read : idle_assets sub_account_address associated_token_address v a ≡ ok idle
  pub books : Reported v v' (idle + report.external_value) supply

economic_share_supply-lt : (v : Vault) (n : ℕ) {s : ℕ} → economic_share_supply v n ≡ ok s → s < u64
unfolding economic_share_supply
economic_share_supply-lt v n {s} h =
    let (same, fits) = ok_or-checked_add u64 n v.requested_withdrawal_shares _ h in
    omega (arith, same, fits)

-- A report that is accepted, on a vault whose watermark fits 64 bits, is signed by the NAV authority,
-- and by the admin where it is a recovery; with the idle assets that it reads, it splits the gross
-- assets into net assets, fees and pending withdrawals as `Reported` says, and leaves a vault that
-- can be loaded again.
pub apply_nav_report_lem :
    (sub_account_address : Key → ℕ → Key) (associated_token_address : Key → Key → Key → Key)
    (v : Vault) (a : ReportAccounts) (report : NavReport) (kind : ReportKind) (now : ℤ) {v' : Vault}
    → v.high_watermark < u64
    → apply_nav_report sub_account_address associated_token_address v a report kind now ≡ ok v'
    → Accepted sub_account_address associated_token_address v v' a report kind now
unfolding apply_nav_report
apply_nav_report_lem sub ata v a report kind now {v'} hm h =
    let (_, _, h) = >>=-eq-ok (fail_if (not a.vault_is_writable) invalid_account_data) _ h in
    let (_, authority, h) = >>=-eq-ok (verify_role v Role.nav_authority a.nav_authority) _ h in
    let (_, admin, h) = >>=-eq-ok (verify_admin v kind a.admin) _ h in
    let (_, interval, h) = >>=-eq-ok (verify_report_interval v now) _ h in
    let (_, _, h) = >>=-eq-ok (verify_share_mint v a.share_mint) _ h in
    let (n, read, h) = >>=-eq-ok (mint_supply a.share_mint) _ h in
    let (supply, counted, h) = >>=-eq-ok (economic_share_supply v n) _ h in
    let (_, _, h) = >>=-eq-ok (verify_recovery v kind supply) _ h in
    let (_, _, h) =
      >>=-eq-ok
        (fail_if (bytes_eq report.report_hash (replicate 32 0)) (program_error invalid_vault_state))
        _ h in
    let (_, _, h) = >>=-eq-ok (verify_mint a.base_mint v.base_mint v.base_decimals none) _ h in
    let (idle, found, h) = >>=-eq-ok (idle_assets sub ata v a) _ h in
    record {
      share_supply = n;
      supply = supply;
      idle = idle;
      authority = authority;
      admin = admin;
      interval = interval;
      read = read;
      counted = counted;
      idle_read = found;
      books =
          account_report_lem v kind report supply idle now (economic_share_supply-lt v n counted) hm
            h;
    }
