-- ===== src/Examples/Ledger.antt =====
-- A token program that keeps the balance of every account, with its laws.
use roshi.Common.{
  ℕ, ◌+◌, ◌-◌, ◌^◌, ◌≤◌, ◌<◌, ◌≡◌, ◌≢◌, refl, sym, ap, ◌∙◌, subst, arith, Bool-cases, inl, inr,
  false, leb, ltb, ◌&&◌, if◌then◌else◌,
}
use roshi.Common.Result.{ok, err, ok_inj}
use roshi.Common.Error.{invalid_account_data}
use roshi.Common.Bytes.{
  Key, bytes_eq, bytes_eq_refl, bytes_eq→eq, to_le_bytes, from_le_bytes, length,
}
use roshi.Vault.{ProgramResult}
use roshi.Token.{Account, is_token_program, token_amount}
use roshi.Runtime.{Runtime, BalanceLaws}
use roshi.Examples.{key, mint_account, custody, supply_exact}

-- The account with the key 7 is the share mint; every other is a token account.
abbrev pub ledger_account : (Key → ℕ) → Key → Account
ledger_account w k = if bytes_eq k (key 7) then mint_account k 1000000000 9 else custody k (w k)

abbrev pub moved : (Key → ℕ) → Key → Key → ℕ → Key → ℕ
moved w source dest amount k =
    if bytes_eq k source
    then w source - amount
    else if bytes_eq k dest
    then w dest + amount
    else w k

-- Amounts are within 64 bits.
abbrev pub ledger_transfer : (Key → ℕ) → Key → Key → ℕ → ProgramResult (Key → ℕ)
ledger_transfer w source dest amount =
    if leb amount (w source) && (ltb (w source) (2 ^ 64) && ltb (w dest + amount) (2 ^ 64))
    then (if bytes_eq source dest then ok w else ok (moved w source dest amount))
    else err invalid_account_data

abbrev pub ledger : Runtime (Key → ℕ)
ledger = record {
  account = ledger_account;
  lamports = λ w k. 5;
  set_lamports = λ w k n. w;
  release = λ w k. ok w;
  create_account = λ w payer k space. ok w;
  transfer = λ w source dest authority amount seeds. ledger_transfer w source dest amount;
  mint_to = λ w mint dest authority amount seeds. err invalid_account_data;
  burn = λ w source mint authority amount. err invalid_account_data;
}

amount_read : (n : ℕ) (k : Key) → token_amount (custody k n) ≡ ok (from_le_bytes (to_le_bytes 8 n))
unfolding token_amount is_token_program bytes_eq to_le_bytes
amount_read n k = refl

amount_exact : (n : ℕ) (k : Key) → n < 2 ^ 64 → token_amount (custody k n) ≡ ok n
amount_exact n k h = amount_read n k ∙ ap ok (supply_exact n (omega (arith, h)))

-- A mint has no balance, so what has one is a token account.
no_balance : (k : Key) {n : ℕ} → token_amount (mint_account k 1000000000 9) ≢ ok n
unfolding token_amount is_token_program bytes_eq to_le_bytes length
no_balance k {n} h = absurd (cc)

balance_of :
    (w : Key → ℕ) (k : Key) {n : ℕ}
    → token_amount (ledger_account w k) ≡ ok n
    → (bytes_eq k (key 7) ≡ false) × (token_amount (custody k (w k)) ≡ ok n)
balance_of w k {n} h = elim (Bool-cases (bytes_eq k (key 7))) [
  | inl mint ↦ absurd (no_balance k (rw mint at h))
  | inr other ↦ (other, rw other at h)
]

-- What a transfer tells of the amounts, and what it leaves to a token account.
transfer_inv :
    (w : Key → ℕ) (source dest : Key) (amount : ℕ) {w' : Key → ℕ}
    → ledger_transfer w source dest amount ≡ ok w'
    → (amount ≤ w source)
      × (w source < 2 ^ 64)
      × (w dest + amount < 2 ^ 64)
      × ((if bytes_eq source dest then w else moved w source dest amount) ≡ w')
transfer_inv w source dest amount {w'} h =
    elim (Bool-cases
      (leb amount (w source) && (ltb (w source) (2 ^ 64) && ltb (w dest + amount) (2 ^ 64)))) [
        | inl fits ↦
            let h = rw fits at h in
            let (a, b, c) : (amount ≤ w source) × (w source < 2 ^ 64) × (w dest + amount < 2 ^ 64) =
              ground (arith, fits) in
            (
              a,
              b,
              c,
              elim (Bool-cases (bytes_eq source dest)) [
                | inl itself ↦ let h = rw itself at h in rw itself (ok_inj w w' h)
                | inr away ↦
                    let h = rw away at h in rw away (ok_inj (moved w source dest amount) w' h)
              ],
            )
        | inr full ↦ let h = rw full at h in absurd (cc)
      ]

different : (a b : Key) → a ≢ b → bytes_eq a b ≡ false
different a b distinct = elim (Bool-cases (bytes_eq a b)) [
  | inl same ↦ absurd (distinct (bytes_eq→eq a b same))
  | inr other ↦ other
]

amount_is :
    (w : Key → ℕ) (k : Key) {n : ℕ} → w k < 2 ^ 64 → token_amount (custody k (w k)) ≡ ok n → w k ≡ n
amount_is w k {n} small read = ok_inj (w k) n (sym (amount_exact (w k) k small) ∙ read)

read_back :
    (w : Key → ℕ) (k : Key) (m : ℕ)
    → bytes_eq k (key 7) ≡ false
    → w k ≡ m
    → m < 2 ^ 64
    → token_amount (ledger_account w k) ≡ ok m
read_back w k m other value small = rw (other, value) (amount_exact m k small)

module _ (w : Key → ℕ) (source dest : Key) (amount : ℕ) {w' : Key → ℕ}
    (done : ledger_transfer w source dest amount ≡ ok w') where
  -- The amounts after a transfer between two accounts.
  after : (k : Key) → source ≢ dest → moved w source dest amount k ≡ w' k
  after k distinct =
      let (_, _, _, made) = transfer_inv w source dest amount done in
      let made : moved w source dest amount ≡ w' = rw (different source dest distinct) at made in
      ap (λ (x : Key → ℕ). x k) made

  sent :
      {n : ℕ}
      → source ≢ dest
      → token_amount (ledger_account w source) ≡ ok n
      → (amount ≤ n) × (token_amount (ledger_account w' source) ≡ ok (n - amount))
  sent {n} distinct held =
      let (other, read) = balance_of w source held in
      let (enough, small, _, _) = transfer_inv w source dest amount done in
      let same : w source ≡ n = amount_is w source small read in
      let value : w' source ≡ w source - amount =
        sym (after source distinct) ∙ rw (bytes_eq_refl source) refl in
      (
        omega (arith, same, enough),
        read_back w' source (n - amount) other (omega (arith, value, same))
            (omega (arith, same, small)),
      )

  received :
      {n : ℕ}
      → source ≢ dest
      → token_amount (ledger_account w dest) ≡ ok n
      → token_amount (ledger_account w' dest) ≡ ok (n + amount)
  received {n} distinct held =
      let (other, read) = balance_of w dest held in
      let (_, _, fits, _) = transfer_inv w source dest amount done in
      let same : w dest ≡ n = amount_is w dest (omega (arith, fits)) read in
      let value : w' dest ≡ w dest + amount =
        sym (after dest distinct)
        ∙ rw (different dest source (λ x. distinct (sym x)), bytes_eq_refl dest) refl in
      read_back w' dest (n + amount) other (omega (arith, value, same)) (omega (arith, same, fits))

  others :
      (k : Key) {n : ℕ}
      → k ≢ source
      → k ≢ dest
      → token_amount (ledger_account w k) ≡ ok n
      → token_amount (ledger_account w' k) ≡ ok n
  others k {n} away aside held =
      let (other, read) = balance_of w k held in
      let value : w' k ≡ w k = elim (Bool-cases (bytes_eq source dest)) [
        | inl itself ↦
            let (_, _, _, made) = transfer_inv w source dest amount done in
            let made : w ≡ w' = rw itself at made in ap (λ (x : Key → ℕ). x k) (sym made)
        | inr apart ↦
            let (_, _, _, made) = transfer_inv w source dest amount done in
            let made : moved w source dest amount ≡ w' = rw apart at made in
            ap (λ (x : Key → ℕ). x k) (sym made)
            ∙ rw (different k source away, different k dest aside) refl
      ] in
      rw (other, value) read

unchanged :
    (w : Key → ℕ) (source : Key) (amount : ℕ) {w' : Key → ℕ}
    → ledger_transfer w source source amount ≡ ok w'
    → w ≡ w'
unchanged w source amount done =
    let (_, _, _, made) = transfer_inv w source source amount done in
    rw (bytes_eq_refl source) at made

pub ledger-BalanceLaws : BalanceLaws ledger
ledger-BalanceLaws = record {
  sent = λ {w} {w'} {source} {dest} {authority} {amount} {n} {seeds} distinct held done.
      sent w source dest amount done distinct held;
  received = λ {w} {w'} {source} {dest} {authority} {amount} {n} {seeds} distinct held done.
      received w source dest amount done distinct held;
  to_itself = λ {w} {w'} {source} {authority} {amount} {n} {seeds} held done.
      subst (λ (x : Key → ℕ). token_amount (ledger_account x source) ≡ ok n)
        (unchanged w source amount done) held;
  others = λ {w} {w'} {source} {dest} {authority} {other} {amount} {n} {seeds} away aside held done.
      others w source dest amount done other away aside held;
  released = λ {w} {w'} {key = gone} other {n} held done.
      subst (λ (x : Key → ℕ). token_amount (ledger_account x other) ≡ ok n) (ok_inj w w' done) held;
  moved = λ w k other n. refl;
}
