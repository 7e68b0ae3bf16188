-- ===== src/Common/Maybe.antt =====
-- The `?` operator in a function that returns `Option`.
use mathlib.Core.Path.{◌≡◌, refl}
use mathlib.Core.Option.{Option, none, some}

infixl 5 ◌>>=◌
abbrev pub ◌>>=◌ {ℓ κ} : {A : Type ℓ} {B : Type κ} → Option A → (A → Option B) → Option B
none >>= f = none
some a >>= f = f a

-- A call with `?` that returns a value: what the call gave, and what came of it.
pub >>=-eq-some {ℓ κ} :
    {A : Type ℓ} {B : Type κ} (call : Option A) (rest : A → Option B) {end : B}
    → (call >>= rest) ≡ some end
    → (value : A) × (call ≡ some value) × (rest value ≡ some end)
>>=-eq-some none rest h = cc
>>=-eq-some (some value) rest h = (value, refl, h)

pub some_inj {ℓ} : {A : Type ℓ} (a b : A) → let o : Option A = some a in o ≡ some b → a ≡ b
some_inj a b h = cc
