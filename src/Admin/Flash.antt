-- ===== src/Admin/Flash.antt =====
-- admin/flash_fee_rate.rs: the flash-fee rate of an action, a fraction that the admin sets and the
-- strategist may only lower.
use roshi.Common.{
  ◌⊎◌, refl, zero, suc, ℕ, ◌+◌, ◌*◌, ◌≤◌, ◌<◌, ◌≡◌, subst, arith, Bool, Bool-cases, inl, inr, true,
  false, not, ltb, ltb→lt, lt→ltb, ne→==, ◌==◌, ==→eq, ==→ne, if◌then◌else◌, not-false,
}
use roshi.Common.Result.{ok, ◌>>=◌, ◌>>◌, >>=-eq-ok, ok_inj, fail_if_inv, fail_if}
use roshi.Common.Error.{program_error, flash_fee_rate_not_lower}
use roshi.Common.Nonlinear.{mul_mono, mul_cancel_lt}
use roshi.Vault.{Vault, Role, authority_for_role, ProgramResult}
use roshi.NavReport.{verify_role}
use roshi.Token.{Account}
use roshi.Records.{Action}
use roshi.Accounts.{
  Platform, require_writable, signer_of, load_checked, load_vault_with_role, load_as_action,
  verify_for_vault, find_action_address,
}
use roshi.Accounts.Checks.{verify_role_inv, verify_for_vault_inv}

-- The products of two `u64` fit a `u128`.
unfoldable pub rate_strictly_lower : ℕ → ℕ → ℕ → ℕ → Bool
rate_strictly_lower new_num new_den cur_num cur_den =
    if new_num == 0
    then not (cur_num == 0)
    else if cur_num == 0
    then false
    else ltb (new_num * cur_den) (cur_num * new_den)

module _ (p : Platform) where
  -- The new state of the action's account.
  unfoldable pub update_action_flash_fee :
      Account → Account → Account → Role → (Action → ProgramResult (ℕ × ℕ)) → ProgramResult Action
  update_action_flash_fee authority vault_account action_account role update = do
    require_writable action_account
    load_vault_with_role p authority vault_account role
    action ← load_as_action p action_account
    verify_for_vault p action vault_account.key action_account.key
    (fee_num, fee_den) ← update action
    ok (record action { fee_num = fee_num; fee_den = fee_den })

  unfoldable pub try_admin_set_flash_fee_rate :
      Account → Account → Account → ℕ → ℕ → ProgramResult Action
  try_admin_set_flash_fee_rate authority vault_account action_account fee_num fee_den =
      update_action_flash_fee authority vault_account action_account Role.admin
        λ action. ok (fee_num, fee_den)

  unfoldable pub try_strategist_lower_flash_fee_rate :
      Account → Account → Account → ℕ → ℕ → ProgramResult Action
  try_strategist_lower_flash_fee_rate authority vault_account action_account fee_num fee_den =
      update_action_flash_fee authority vault_account action_account Role.strategist λ action. do
        fail_if (not (rate_strictly_lower fee_num fee_den action.fee_num action.fee_den))
            (program_error flash_fee_rate_not_lower)
        ok (fee_num, fee_den)

-- Both fractions of a chain, crossed.
cross : (n d m e k f : ℕ) → n * e < m * d → m * f < k * e → n * f < k * d
cross n d m e k f h g =
    let some_d : 0 < d = positive m d (n * e) h in
    let low : n * e * f ≤ m * d * f =
      mul_mono (n * e) (m * d) f f (omega (arith, h)) (omega arith) in
    let high : (m * f + 1) * d ≤ k * e * d =
      mul_mono (m * f + 1) (k * e) d d (omega (arith, g)) (omega arith) in
    mul_cancel_lt (n * f) (k * d) e (omega (arith, low, high, some_d))
  where
    positive : (a b x : ℕ) → x < a * b → 0 < b
    positive a zero x h = absurd (omega (arith, h))
    positive a (suc b) x h = omega arith

lower_inv :
    (n d m e : ℕ) → rate_strictly_lower n d m e ≡ true → (0 < m) × ((n ≡ 0) ⊎ (n * e < m * d))
unfolding rate_strictly_lower
lower_inv n d m e h = elim (Bool-cases (n == 0)) [
  | inl nothing ↦ let h = rw nothing at h in (ground (arith, h), inl (==→eq _ _ nothing))
  | inr paid ↦
      let h = rw paid at h in
      elim (Bool-cases (m == 0)) [
        | inl none_below ↦ let h = rw none_below at h in absurd (cc)
        | inr some_below ↦
            let h = rw some_below at h in
            let some_rate = ==→ne m 0 some_below in (omega (arith, some_rate), inr (ltb→lt _ _ h))
      ]
]

lower_intro :
    (n d m e : ℕ)
    → 0 < m
    → (n ≡ 0) ⊎ ((0 < n) × (n * e < m * d))
    → rate_strictly_lower n d m e ≡ true
unfolding rate_strictly_lower
lower_intro n d m e h (inl nothing) = ground (arith, h, nothing)
lower_intro n d m e h (inr (paid, below)) =
    rw
      (
        ne→== n 0 (λ x. absurd (omega (arith, x, paid))),
        ne→== m 0 (λ x. absurd (omega (arith, x, h))),
      )
      (lt→ltb _ _ below)

-- The strategist's test is a strict order on rates: what is below a rate that is below a third is
-- below the third, so that lowering again and again never leads back up.
pub rate_strictly_lower_trans :
    (n d m e k f : ℕ)
    → rate_strictly_lower n d m e ≡ true
    → rate_strictly_lower m e k f ≡ true
    → rate_strictly_lower n d k f ≡ true
rate_strictly_lower_trans n d m e k f h g =
    let (some_m, first) = lower_inv n d m e h in
    let (some_k, second) = lower_inv m e k f g in
    lower_intro n d k f some_k (step first second some_m)
  where
    positive : (n : ℕ) → n * f < k * d → (n ≡ 0) ⊎ ((0 < n) × (n * f < k * d))
    positive zero less = inl refl
    positive (suc n) less = inr (omega arith, less)

    step :
        (n ≡ 0) ⊎ (n * e < m * d)
        → (m ≡ 0) ⊎ (m * f < k * e)
        → 0 < m
        → (n ≡ 0) ⊎ ((0 < n) × (n * f < k * d))
    step (inl nothing) second some_m = inl nothing
    step (inr below) (inl nothing) some_m = absurd (omega (arith, nothing, some_m))
    step (inr below) (inr beneath) some_m = positive n (cross n d m e k f below beneath)

-- An action with a lowered rate, and the accounts behind it.
pub record IsLowered (p : Platform) (authority vault_account action_account : Account)
    (updated : Action) : Type 0 where
  pub vault : Vault
  pub loaded : load_checked p vault_account ≡ ok vault
  pub signed : authority.is_signer ≡ true
  pub by_strategist : authority.key ≡ vault.strategist
  pub action : Action
  pub read : load_as_action p action_account ≡ ok action
  pub of_vault : action.vault ≡ vault_account.key
  pub at_address :
      action_account.key ≡ (find_action_address p vault_account.key action.action_hash).0
  pub rest : updated ≡ record action { fee_num = updated.fee_num; fee_den = updated.fee_den }
  pub had_fee : 0 < action.fee_num
  pub lower :
      (updated.fee_num ≡ 0) ⊎ (updated.fee_num * action.fee_den < action.fee_num * updated.fee_den)

-- Every instruction of the strategist that goes through was signed by the strategist of the vault at
-- the given account, and updates an action of that vault, at its own address, that had a fee: the new
-- rate is zero or, as a fraction, strictly below the old one, and nothing else of the action changes.
pub try_strategist_lower_flash_fee_rate-IsLowered :
    (p : Platform) (authority vault_account action_account : Account) (fee_num fee_den : ℕ)
    {updated : Action}
    → try_strategist_lower_flash_fee_rate p authority vault_account action_account fee_num fee_den
      ≡ ok updated
    → IsLowered p authority vault_account action_account updated
unfolding try_strategist_lower_flash_fee_rate update_action_flash_fee load_vault_with_role
    authority_for_role
try_strategist_lower_flash_fee_rate-IsLowered p authority vault_account action_account fee_num
      fee_den {updated} h =
    let (_, _, h) = >>=-eq-ok (require_writable action_account) _ h in
    let (_, held, h) =
      >>=-eq-ok (load_vault_with_role p authority vault_account Role.strategist) _ h in
    let (action, read, h) = >>=-eq-ok (load_as_action p action_account) _ h in
    let (_, bound, h) =
      >>=-eq-ok (verify_for_vault p action vault_account.key action_account.key) _ h in
    let ((n, d), test, made) =
      >>=-eq-ok
        (fail_if (not (rate_strictly_lower fee_num fee_den action.fee_num action.fee_den))
            (program_error flash_fee_rate_not_lower)
          >>= λ _. ok (fee_num, fee_den))
        _ h in
    let (_, lower, pair) =
      >>=-eq-ok
        (fail_if (not (rate_strictly_lower fee_num fee_den action.fee_num action.fee_den))
          (program_error flash_fee_rate_not_lower))
        _ test in
    let same = ok_inj (fee_num, fee_den) (n, d) pair in
    let (vault, loaded, held) = >>=-eq-ok (load_checked p vault_account) _ held in
    let (_, signed, _) =
      >>=-eq-ok (verify_role vault Role.strategist (signer_of authority)) _ held in
    let lowered : rate_strictly_lower n d action.fee_num action.fee_den ≡ true =
      subst (λ (y : ℕ × ℕ). rate_strictly_lower y.0 y.1 action.fee_num action.fee_den ≡ true) same
        (not-false _ (fail_if_inv _ _ lower)) in
    let by = verify_role_inv vault Role.strategist (signer_of authority) signed in
    let at = verify_for_vault_inv p action vault_account.key action_account.key bound in
    let below = lower_inv n d action.fee_num action.fee_den lowered in
    let result : Action = record action { fee_num = n; fee_den = d } in
    subst (IsLowered p authority vault_account action_account) (ok_inj result updated made)
      (record {
        vault = vault;
        loaded = loaded;
        signed = by.0;
        by_strategist = by.1;
        action = action;
        read = read;
        of_vault = at.0;
        at_address = at.1;
        rest = refl;
        had_fee = below.0;
        lower = below.1;
      })
