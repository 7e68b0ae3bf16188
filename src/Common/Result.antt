-- ===== src/Common/Result.antt =====
-- Rust's `Result<T, E>`, the `?` operator as bind, and `ok_or`.
use mathlib.Core.Path.{◌≡◌, refl}
use mathlib.Core.Logic.{◌⊎◌, inl, inr}
use mathlib.Core.Bool.{Bool, true, false}
use mathlib.Core.Option.{Option, none, some}

pub data Result {ℓ} (E : Type 0) (A : Type ℓ) : Type ℓ where
  ok : A → Result E A
  err : E → Result E A

infixl 5 ◌>>=◌ ◌>>◌
abbrev pub ◌>>=◌ {ℓ κ} :
    {E : Type 0} {A : Type ℓ} {B : Type κ} → Result E A → (A → Result E B) → Result E B
ok a >>= f = f a
err e >>= f = err e

abbrev pub ◌>>◌ {ℓ κ} :
    {E : Type 0} {A : Type ℓ} {B : Type κ} → Result E A → Result E B → Result E B
m >> k = m >>= λ _. k

-- `if c { return Err(e) }`
abbrev pub fail_if : {E : Type 0} → Bool → E → Result E (Unit {0})
fail_if true e = err e
fail_if false e = ok tt

abbrev pub ok_or {ℓ} : {E : Type 0} {A : Type ℓ} → Option A → E → Result E A
ok_or none e = err e
ok_or (some a) e = ok a

abbrev pub map_err {ℓ} : {E F : Type 0} {A : Type ℓ} → (E → F) → Result E A → Result F A
map_err f (ok a) = ok a
map_err f (err e) = err (f e)

abbrev pub map_ok {ℓ κ} : {E : Type 0} {A : Type ℓ} {B : Type κ} → (A → B) → Result E A → Result E B
map_ok f (ok a) = ok (f a)
map_ok f (err e) = err e

-- Whether a call has returned a value at all.
abbrev pub IsOk {ℓ} : {E : Type 0} {A : Type ℓ} → Result E A → Type ℓ
IsOk {E} {A} r = (a : A) × (r ≡ ok a)

-- A call with `?` that ends well: the value that the call returned, and what came of it.
pub >>=-eq-ok {ℓ κ} :
    {E : Type 0} {A : Type ℓ} {B : Type κ} (call : Result E A) (rest : A → Result E B) {end : B}
    → (call >>= rest) ≡ ok end
    → (value : A) × (call ≡ ok value) × (rest value ≡ ok end)
>>=-eq-ok (err failure) rest h = cc
>>=-eq-ok (ok value) rest h = (value, refl, h)

pub Result-cases {ℓ} :
    {E : Type 0} {A : Type ℓ} (r : Result E A) → ((a : A) × (r ≡ ok a)) ⊎ ((e : E) × (r ≡ err e))
Result-cases (ok a) = inl (a, refl)
Result-cases (err e) = inr (e, refl)

pub ok_inj {ℓ} : {E : Type 0} {A : Type ℓ} (a b : A) → let r : Result E A = ok a in r ≡ ok b → a ≡ b
ok_inj a b h = cc

pub ok_or_inv {ℓ} :
    {E : Type 0} {A : Type ℓ} (o : Option A) (e : E) {a : A} → ok_or o e ≡ ok a → o ≡ some a
ok_or_inv none e h = cc
ok_or_inv (some b) e h = cc

-- A check that passed: its condition does not hold.
pub fail_if_inv : {E : Type 0} (b : Bool) (e : E) {u : Unit {0}} → fail_if b e ≡ ok u → b ≡ false
fail_if_inv true e h = cc
fail_if_inv false e h = refl
