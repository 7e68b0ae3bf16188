-- ===== src/Common/Bytes.antt =====
-- Byte strings: lists of numbers below 256. Keys and hashes are byte strings of length 32.
use Prim.Native.Nat.{ℕ, zero, suc, ◌+◌, ◌-◌, ◌*◌, ◌/◌, ◌%◌, ◌≤◌}
use mathlib.Core.Path.{◌≡◌, refl, sym, ap, ap₂, ◌∙◌}
use mathlib.Core.Logic.{◌≢◌}
use mathlib.Core.Bool.{Bool, true, false, ◌&&◌}
use mathlib.Core.Option.{Option, none, some}
use mathlib.Core.List.{List, [], ◌∷◌, ◌++◌}
use native.Mathlib.Omega.{arith}
use roshi.Common.Tests.{◌==◌, leb, if◌then◌else◌}

abbrev pub Bytes : Type 0
Bytes = List ℕ

-- `[u8; 32]`, `Pubkey` and hashes.
abbrev pub Key : Type 0
Key = List ℕ

module _ {ℓ} {A : Type ℓ} where
  abbrev pub length : List A → ℕ
  length [] = 0
  length (x ∷ xs) = suc (length xs)

  abbrev pub take : ℕ → List A → List A
  take zero xs = []
  take (suc n) [] = []
  take (suc n) (x ∷ xs) = x ∷ take n xs

  abbrev pub drop : ℕ → List A → List A
  drop zero xs = xs
  drop (suc n) [] = []
  drop (suc n) (x ∷ xs) = drop n xs

  abbrev pub replicate : ℕ → A → List A
  replicate zero a = []
  replicate (suc n) a = a ∷ replicate n a

  abbrev pub get_elem? : List A → ℕ → Option A
  get_elem? [] i = none
  get_elem? (x ∷ xs) zero = some x
  get_elem? (x ∷ xs) (suc i) = get_elem? xs i

  pub length-append : (xs ys : List A) → length (xs ++ ys) ≡ length xs + length ys
  length-append [] ys = omega arith
  length-append (x ∷ xs) ys = omega (arith, length-append xs ys)

  pub length-replicate : (n : ℕ) (a : A) → length (replicate n a) ≡ n
  length-replicate zero a = refl
  length-replicate (suc n) a = ap suc (length-replicate n a)

  pub take-length-append : (xs ys : List A) → take (length xs) (xs ++ ys) ≡ xs
  take-length-append [] ys = refl
  take-length-append (x ∷ xs) ys = ap (◌∷◌ x) (take-length-append xs ys)

  pub drop-length-append : (xs ys : List A) → drop (length xs) (xs ++ ys) ≡ ys
  drop-length-append [] ys = refl
  drop-length-append (x ∷ xs) ys = drop-length-append xs ys

  pub take-drop-append : (n : ℕ) (xs : List A) → take n xs ++ drop n xs ≡ xs
  take-drop-append zero xs = refl
  take-drop-append (suc n) [] = refl
  take-drop-append (suc n) (x ∷ xs) = ap (◌∷◌ x) (take-drop-append n xs)

  pub length-take : (n : ℕ) (xs : List A) → n ≤ length xs → length (take n xs) ≡ n
  length-take zero xs h = refl
  length-take (suc n) [] h = absurd (omega arith)
  length-take (suc n) (x ∷ xs) h = ap suc (length-take n xs (omega arith))

  pub length-drop : (n : ℕ) (xs : List A) → length (drop n xs) ≡ length xs - n
  length-drop zero xs = omega arith
  length-drop (suc n) [] = omega arith
  length-drop (suc n) (x ∷ xs) = omega (arith, length-drop n xs)

-- `==` on byte arrays.
unfoldable pub bytes_eq : Bytes → Bytes → Bool
bytes_eq [] [] = true
bytes_eq (x ∷ xs) (y ∷ ys) = (x == y) && bytes_eq xs ys
bytes_eq _ _ = false

pub bytes_eq→eq : (xs ys : Bytes) → bytes_eq xs ys ≡ true → xs ≡ ys
unfolding bytes_eq
bytes_eq→eq [] [] h = refl
bytes_eq→eq [] (y ∷ ys) h = cc
bytes_eq→eq (x ∷ xs) [] h = cc
bytes_eq→eq (x ∷ xs) (y ∷ ys) h = ground (arith, bytes_eq→eq xs ys)

pub bytes_eq_refl : (xs : Bytes) → bytes_eq xs xs ≡ true
unfolding bytes_eq
bytes_eq_refl [] = refl
bytes_eq_refl (x ∷ xs) = ground (arith, bytes_eq_refl xs)

-- The slice `data[offset..offset + len]`, if it is in bounds.
abbrev pub slice? : Bytes → ℕ → ℕ → Option Bytes
slice? bytes offset len =
    if leb (offset + len) (length bytes) then some (take len (drop offset bytes)) else none

-- Little-endian numbers: `n.to_le_bytes()` of a width, and `from_le_bytes`.
unfoldable pub to_le_bytes : ℕ → ℕ → Bytes
to_le_bytes zero n = []
to_le_bytes (suc w) n = (n % 256) ∷ to_le_bytes w (n / 256)

unfoldable pub from_le_bytes : Bytes → ℕ
from_le_bytes [] = 0
from_le_bytes (b ∷ bs) = b + 256 * from_le_bytes bs

-- Two strings with heads of one length are equal only part by part.
pub append_inj :
    (xs ys us vs : Bytes) → length xs ≡ length ys → xs ++ us ≡ ys ++ vs → (xs ≡ ys) × (us ≡ vs)
append_inj [] [] us vs h e = (refl, e)
append_inj [] (y ∷ ys) us vs h e = absurd (omega (arith, h))
append_inj (x ∷ xs) [] us vs h e = absurd (omega (arith, h))
append_inj (x ∷ xs) (y ∷ ys) us vs h e =
    let (tail, rest) =
      append_inj xs ys us vs (omega (arith, h)) (∷_inj x y (xs ++ us) (ys ++ vs) e).1 in
    (ap₂ ◌∷◌ (∷_inj x y (xs ++ us) (ys ++ vs) e).0 tail, rest)
  where
    ∷_inj : (a b : ℕ) (u v : Bytes) → a ∷ u ≡ b ∷ v → (a ≡ b) × (u ≡ v)
    ∷_inj a b u v p = (cc, cc)

pub bytes_eq-ne : (a b : Key) → bytes_eq a b ≡ false → a ≢ b
bytes_eq-ne a b differ same =
    let equal : true ≡ false = sym (bytes_eq_refl a) ∙ ap (bytes_eq a) same ∙ differ in absurd (cc)
