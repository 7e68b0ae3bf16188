-- ===== src/Runtime/Balances.antt =====
-- What one transfer does to the balance of any one account.
use roshi.Common.{
  ℕ, ◌+◌, ◌-◌, ◌≡◌, ◌≢◌, refl, sym, subst, arith, Bool-cases, inl, inr, List, if◌then◌else◌,
}
use roshi.Common.Result.{ok}
use roshi.Common.Bytes.{Bytes, Key, bytes_eq, bytes_eq-ne, bytes_eq→eq}
use roshi.Token.{token_amount}
use roshi.Runtime.{Runtime, BalanceLaws}

-- The amount, where the account is the one that is meant.
unfoldable pub at_account : Key → Key → ℕ → ℕ
at_account k meant amount = if bytes_eq k meant then amount else 0

pub at_account_add :
    (k meant : Key) (a b : ℕ)
    → at_account k meant (a + b) ≡ at_account k meant a + at_account k meant b
unfolding at_account
at_account_add k meant a b = elim (Bool-cases (bytes_eq k meant)) [
  | inl same ↦ rw same refl
  | inr other ↦ rw other refl
]

-- The balance that is left, and what it tells of the one before.
abbrev pub Balanced : {W : Type 0} (r : Runtime W) (w : W) (k : Key) (n out into : ℕ) → Type 0
Balanced r w k n out into = (m : ℕ) × (token_amount (r.account w k) ≡ ok m) × (m + out ≡ n + into)

module _ {W : Type 0} (r : Runtime W) (laws : BalanceLaws r) where
  from_source :
      (w : W) (k dest authority : Key) (amount n : ℕ) (seeds : List Bytes) {w' : W}
      → token_amount (r.account w k) ≡ ok n
      → r.transfer w k dest authority amount seeds ≡ ok w'
      → Balanced r w' k n amount (at_account k dest amount)
  unfolding at_account
  from_source w k dest authority amount n seeds {w'} held done =
      elim (Bool-cases (bytes_eq k dest)) [
        | inl itself ↦
            let same : k ≡ dest = bytes_eq→eq k dest itself in
            let done : r.transfer w k k authority amount seeds ≡ ok w' =
              subst (λ (d : Key). r.transfer w k d authority amount seeds ≡ ok w') (sym same)
                done in
            rw itself (n, laws.to_itself held done, refl)
        | inr away ↦
            let (enough, left) = laws.sent (bytes_eq-ne k dest away) held done in
            rw away (n - amount, left, omega (arith, enough))
      ]

  elsewhere :
      (w : W) (k source dest authority : Key) (amount n : ℕ) (seeds : List Bytes) {w' : W}
      → k ≢ source
      → token_amount (r.account w k) ≡ ok n
      → r.transfer w source dest authority amount seeds ≡ ok w'
      → Balanced r w' k n 0 (at_account k dest amount)
  unfolding at_account
  elsewhere w k source dest authority amount n seeds {w'} other held done =
      elim (Bool-cases (bytes_eq k dest)) [
        | inl arrives ↦
            let same : k ≡ dest = bytes_eq→eq k dest arrives in
            let done : r.transfer w source k authority amount seeds ≡ ok w' =
              subst (λ (d : Key). r.transfer w source d authority amount seeds ≡ ok w') (sym same)
                done in
            rw arrives (n + amount, laws.received (λ x. other (sym x)) held done, omega arith)
        | inr away ↦ rw away (n, laws.others other (bytes_eq-ne k dest away) held done, refl)
      ]

  -- A transfer takes the amount off its source and adds it to its destination, which may be one
  -- account, and leaves every other as it is.
  pub transfer-Balanced :
      (w : W) (k source dest authority : Key) (amount n : ℕ) (seeds : List Bytes) {w' : W}
      → token_amount (r.account w k) ≡ ok n
      → r.transfer w source dest authority amount seeds ≡ ok w'
      → Balanced r w' k n (at_account k source amount) (at_account k dest amount)
  unfolding at_account
  transfer-Balanced w k source dest authority amount n seeds {w'} held done =
      elim (Bool-cases (bytes_eq k source)) [
        | inl sends ↦
            let same : k ≡ source = bytes_eq→eq k source sends in
            let done : r.transfer w k dest authority amount seeds ≡ ok w' =
              subst (λ (x : Key). r.transfer w x dest authority amount seeds ≡ ok w') (sym same)
                done in
            rw sends (from_source w k dest authority amount n seeds held done)
        | inr other ↦ rw other (
            elsewhere w k source dest authority amount n seeds (bytes_eq-ne k source other) held
              done)
      ]
