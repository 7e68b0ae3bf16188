-- ===== src/Action/Hash/Stored.antt =====
-- action.rs, `Ops::new` and `Ops::iter`: the list that is stored is the list that is read.
use roshi.Common.{
  ℕ, ◌+◌, ◌≤◌, ◌<◌, ◌≡◌, refl, sym, ap, ◌∙◌, arith, Bool-cases, inl, inr, false, ltb, List, [], ◌∷◌,
  ◌++◌, leb, leb→gt, suc, map,
}
use mathlib.Core.Path.{ap₂}
use mathlib.Core.List.{append_assoc, append-nil}
use roshi.Common.Result.{ok, err}
use roshi.Common.Bytes.{length, take, length-append, take-length-append}
use roshi.Action.{Op, StoredOp, too_many_ops, try_to_op, from_op, max_action_ops}
use roshi.Action.RoundTrip.{IsOp, try_to_op-from_op}
use roshi.Action.Hash.{Ops, empty_ops, set_at, fill_ops, new_ops, ops_length, iter_ops}

set_at-append :
    (pre : List StoredOp) (x : StoredOp) (post : List StoredOp) (op : StoredOp)
    → set_at (pre ++ (x ∷ post)) (length pre) op ≡ pre ++ (op ∷ post)
unfolding set_at
set_at-append [] x post op = refl
set_at-append (p ∷ pre) x post op = ap (◌∷◌ p) (set_at-append pre x post op)

-- A list whose slots up to an index are filled.
abbrev filled : List StoredOp → List StoredOp → ℕ → Ops
filled pre post n = record { ops = pre ++ post; ops_len = n }

set_slot :
    (pre : List StoredOp) (x : StoredOp) (post : List StoredOp) (op : StoredOp)
    → set_at (pre ++ (x ∷ post)) (length pre) op ≡ (pre ++ (op ∷ [])) ++ post
set_slot pre x post op = set_at-append pre x post op ∙ sym (append_assoc pre (op ∷ []) post)

filled_eq :
    {pre pre' : List StoredOp} (slots : List StoredOp) {m n : ℕ}
    → pre ≡ pre'
    → m ≡ n
    → filled pre slots m ≡ filled pre' slots n
filled_eq {pre} {pre'} slots e h = λ i. filled (e i) slots (h i)

fill_ops-append :
    (pre post : List StoredOp) (ops : List Op) (n : ℕ)
    → n ≡ length pre
    → length ops ≤ length post
    → n + length ops ≤ 32
    → (slots : List StoredOp) × (fill_ops (filled pre post n) n ops
        ≡ ok (filled (pre ++ map from_op ops) slots (n + length ops)))
unfolding fill_ops
fill_ops-append pre post [] n at room short =
    (post, ap ok (filled_eq post (sym (append-nil pre)) (omega arith)))
fill_ops-append pre [] (op ∷ ops) n at room short = absurd (omega (arith, room))
fill_ops-append pre (x ∷ post) (op ∷ ops) n at room short =
    let more : List StoredOp = pre ++ (from_op op ∷ []) in
    let step : n + 1 ≡ length more = omega (arith, at, length-append pre (from_op op ∷ [])) in
    let (slots, rest) =
      fill_ops-append more post ops (n + 1) step (omega (arith, room)) (omega (arith, short)) in
    let slot : set_at (pre ++ (x ∷ post)) n (from_op op) ≡ more ++ post =
      ap (λ i. set_at (pre ++ (x ∷ post)) i (from_op op)) at ∙ set_slot pre x post (from_op op) in
    let whole : more ++ map from_op ops ≡ pre ++ map from_op (op ∷ ops) =
      append_assoc pre (from_op op ∷ []) (map from_op ops) in
    let inside : leb max_action_ops n ≡ false = ground (arith, short) in
    (slots, rw (inside, slot) (rest ∙ ap ok (filled_eq slots whole (omega arith))))

-- Operations whose fields are in the range of their types.
unfoldable pub AllOps : List Op → Type 0
AllOps [] = Unit {0}
AllOps (op ∷ ops) = IsOp op × AllOps ops

read_back : (ops : List Op) → AllOps ops → map try_to_op (map from_op ops) ≡ map ok ops
unfolding AllOps
read_back [] all = refl
read_back (op ∷ ops) all = ap₂ ◌∷◌ (try_to_op-from_op op all.0) (read_back ops all.1)

length-map : (ops : List Op) → length (map from_op ops) ≡ length ops
length-map [] = refl
length-map (op ∷ ops) = ap suc (length-map ops)

-- `Ops::new` stores a list of at most 32 operations, the fields in the range of their types, and
-- `iter` gives that list back, each operation read without error.
pub iter_ops-new_ops :
    (ops : List Op)
    → AllOps ops
    → length ops ≤ 32
    → (s : Ops) × (new_ops ops ≡ ok s) × (iter_ops s ≡ ok (map ok ops))
unfolding new_ops iter_ops ops_length
iter_ops-new_ops ops all short =
    let (slots, made) =
      fill_ops-append [] empty_ops.ops ops 0 refl (omega (arith, short)) (omega (arith, short)) in
    let inside : ltb max_action_ops (length ops) ≡ false = ground (arith, short) in
    let first : take (length ops) (map from_op ops ++ slots) ≡ map from_op ops =
      ap (λ n. take n (map from_op ops ++ slots)) (sym (length-map ops))
      ∙ take-length-append (map from_op ops) slots in
    (
      filled (map from_op ops) slots (length ops),
      made ∙ ap ok (filled_eq slots refl (omega arith)),
      rw (inside, first) (ap ok (read_back ops all)),
    )

full :
    (s : Ops) (index : ℕ) (ops : List Op)
    → index ≤ 32
    → 32 < index + length ops
    → fill_ops s index ops ≡ err too_many_ops
unfolding fill_ops
full s index [] low long = absurd (omega (arith, low, long))
full s index (op ∷ ops) low long = elim (Bool-cases (leb max_action_ops index)) [
  | inl out ↦ rw out
  | inr more ↦
      let room : index < 32 = leb→gt _ _ more in
      rw more (
        full (record { ops = set_at s.ops index (from_op op); ops_len = index + 1 }) (index + 1) ops
          (omega (arith, room)) (omega (arith, long)))
]

-- `Ops::new` refuses a list of more than 32 operations, whatever they are, with
-- `TooManyOps`.
pub new_ops-too_many : (ops : List Op) → 32 < length ops → new_ops ops ≡ err too_many_ops
unfolding new_ops
new_ops-too_many ops long = full empty_ops 0 ops (omega arith) (omega (arith, long))
