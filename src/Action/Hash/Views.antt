-- ===== src/Action/Hash/Views.antt =====
-- action.rs, `compute_action_hash_from_metas`: the preimage fixes all that the operations look at.
use roshi.Common.{
  ℕ, ◌<◌, ◌≡◌, refl, sym, ap, ◌∙◌, subst, arith, Bool, Bool-cases, inl, inr, true, false, List, [],
  ◌∷◌, some, leb, leb→gt,
}
use roshi.Common.Result.{ok, ok_inj, ok_or_inv, >>=-eq-ok, fail_if, ok_or}
use roshi.Common.Word.{u32}
use roshi.Common.Bytes.{Bytes, Key, length, drop, get_elem?, slice?, to_le_bytes, append_inj}
use roshi.Action.{
  Op, noop, ingest_instruction, ingest_account, ingest_instruction_data_size,
  ingest_sibling_instruction, ingest_sibling_account, ActionHashError, account_index_out_of_bounds,
  invalid_instruction_data,
}
use roshi.Action.Hash.{
  HashResult, Ops, AccountMeta, ResolvedSibling, Observed, instruction_slice, resolve_sibling,
  bool_byte, op_bytes, all_op_bytes, preimage_len, preimage, iter_ops,
}
use roshi.Action.Hash.Preimage.{IsSized, meta_at, sibling_at, length-op_bytes}

-- Whether two instructions look the same to an operation.
unfoldable pub SameView : Observed → Observed → Op → Type 0
SameView o o' noop = Unit {0}
SameView o o' (ingest_instruction offset len) =
    slice? o.ix_data offset len ≡ slice? o'.ix_data offset len
SameView o o' (ingest_account index) = get_elem? o.accounts index ≡ get_elem? o'.accounts index
SameView o o' ingest_instruction_data_size = length o.ix_data ≡ length o'.ix_data
SameView o o' (ingest_sibling_instruction i offset len) =
    (s s' : ResolvedSibling) × (resolve_sibling o.siblings i ≡ ok s)
    × (resolve_sibling o'.siblings i ≡ ok s')
    × (s.program_id ≡ s'.program_id)
    × (slice? s.bytes offset len ≡ slice? s'.bytes offset len)
SameView o o' (ingest_sibling_account i index) =
    (s s' : ResolvedSibling) × (resolve_sibling o.siblings i ≡ ok s)
    × (resolve_sibling o'.siblings i ≡ ok s')
    × (get_elem? s.accounts index ≡ get_elem? s'.accounts index)

slice_view :
    (bytes bytes' : Bytes) (offset len : ℕ) {a b : Bytes}
    → instruction_slice bytes offset len ≡ ok a
    → instruction_slice bytes' offset len ≡ ok b
    → a ≡ b
    → slice? bytes offset len ≡ slice? bytes' offset len
unfolding instruction_slice
slice_view bytes bytes' offset len {a} {b} h k e =
    ok_or_inv (slice? bytes offset len) _ h
    ∙ ap some e
    ∙ sym (ok_or_inv (slice? bytes' offset len) _ k)

bool_byte_inj : (a b : Bool) → bool_byte a ≡ bool_byte b → a ≡ b
bool_byte_inj true true h = refl
bool_byte_inj true false h = absurd (omega (arith, h))
bool_byte_inj false true h = absurd (omega (arith, h))
bool_byte_inj false false h = refl

meta_eq :
    (m n : AccountMeta)
    → m.pubkey ≡ n.pubkey
    → m.is_signer ≡ n.is_signer
    → m.is_writable ≡ n.is_writable
    → m ≡ n
meta_eq m n k s w = λ i. record { pubkey = k i; is_signer = s i; is_writable = w i }

abbrev head_or : ℕ → Bytes → ℕ
head_or a [] = a
head_or a (b ∷ bs) = b

fail_if-leb : {w n : ℕ} (e : ActionHashError) {u : Unit {0}} → fail_if (leb w n) e ≡ ok u → n < w
fail_if-leb {w} {n} e {u} h = elim (Bool-cases (leb w n)) [
  | inl big ↦ let failed = rw big at h in absurd (cc)
  | inr small ↦ leb→gt _ _ small
]

-- Four bytes fix a number of 32 bits.
le_4_inj : (m n : ℕ) → m < u32 → n < u32 → to_le_bytes 4 m ≡ to_le_bytes 4 n → m ≡ n
unfolding to_le_bytes
le_4_inj m n small small' h =
    let digit : ℕ → Bytes → ℕ = λ i bytes. head_or 0 (drop i bytes) in
    omega (arith, small, small', ap (digit 0) h, ap (digit 1) h, ap (digit 2) h, ap (digit 3) h)

-- Equal bytes of an operation show it the same things.
same_view :
    (o o' : Observed) (op : Op) {b b' : Bytes}
    → IsSized o
    → IsSized o'
    → op_bytes o op ≡ ok b
    → op_bytes o' op ≡ ok b'
    → b ≡ b'
    → SameView o o' op
unfolding op_bytes SameView to_le_bytes
same_view o o' noop sized sized' h k e = tt
same_view o o' (ingest_instruction offset len) sized sized' h k e =
    let (slice, cut, made) = >>=-eq-ok (instruction_slice o.ix_data offset len) _ h in
    let (slice', cut', made') = >>=-eq-ok (instruction_slice o'.ix_data offset len) _ k in
    let same : slice ≡ slice' = ap (drop 4) (ok_inj _ _ made ∙ e ∙ sym (ok_inj _ _ made')) in
    slice_view o.ix_data o'.ix_data offset len cut cut' same
same_view o o' (ingest_account index) sized sized' h k e =
    let (m, found, made) =
      >>=-eq-ok (ok_or (get_elem? o.accounts index) account_index_out_of_bounds) _ h in
    let (n, found', made') =
      >>=-eq-ok (ok_or (get_elem? o'.accounts index) account_index_out_of_bounds) _ k in
    let seen = ok_or_inv (get_elem? o.accounts index) _ found in
    let seen' = ok_or_inv (get_elem? o'.accounts index) _ found' in
    let size = meta_at o.accounts index sized.metas seen in
    let size' = meta_at o'.accounts index sized'.metas seen' in
    let same = ap (drop 2) (ok_inj _ _ made ∙ e ∙ sym (ok_inj _ _ made')) in
    let (keys, flags) = append_inj m.pubkey n.pubkey _ _ (size ∙ sym size') same in
    let signer = bool_byte_inj m.is_signer n.is_signer (ap (head_or 0) flags) in
    let writable =
      bool_byte_inj m.is_writable n.is_writable (ap (λ y. head_or 0 (drop 1 y)) flags) in
    seen ∙ ap some (meta_eq m n keys signer writable) ∙ sym seen'
same_view o o' ingest_instruction_data_size sized sized' h k e =
    let (_, small, made) =
      >>=-eq-ok (fail_if (leb u32 (length o.ix_data)) invalid_instruction_data) _ h in
    let (_, small', made') =
      >>=-eq-ok (fail_if (leb u32 (length o'.ix_data)) invalid_instruction_data) _ k in
    let same = ap (drop 1) (ok_inj _ _ made ∙ e ∙ sym (ok_inj _ _ made')) in
    let small : length o.ix_data < u32 = fail_if-leb _ small in
    let small' : length o'.ix_data < u32 = fail_if-leb _ small' in
    le_4_inj (length o.ix_data) (length o'.ix_data) small small' same
same_view o o' (ingest_sibling_instruction i offset len) sized sized' h k e =
    let (s, found, h) = >>=-eq-ok (resolve_sibling o.siblings i) _ h in
    let (slice, cut, made) = >>=-eq-ok (instruction_slice s.bytes offset len) _ h in
    let (s', found', k) = >>=-eq-ok (resolve_sibling o'.siblings i) _ k in
    let (slice', cut', made') = >>=-eq-ok (instruction_slice s'.bytes offset len) _ k in
    let size = (sibling_at o.siblings i sized.siblings found).0 in
    let size' = (sibling_at o'.siblings i sized'.siblings found').0 in
    let same = ap (drop 2) (ok_inj _ _ made ∙ e ∙ sym (ok_inj _ _ made')) in
    let (programs, rest) = append_inj s.program_id s'.program_id _ _ (size ∙ sym size') same in
    (
      s,
      s',
      found,
      found',
      programs,
      slice_view s.bytes s'.bytes offset len cut cut' (ap (drop 2) rest),
    )
same_view o o' (ingest_sibling_account i index) sized sized' h k e =
    let (s, found, h) = >>=-eq-ok (resolve_sibling o.siblings i) _ h in
    let (a, at, made) =
      >>=-eq-ok (ok_or (get_elem? s.accounts index) account_index_out_of_bounds) _ h in
    let (s', found', k) = >>=-eq-ok (resolve_sibling o'.siblings i) _ k in
    let (a', at', made') =
      >>=-eq-ok (ok_or (get_elem? s'.accounts index) account_index_out_of_bounds) _ k in
    let same : a ≡ a' = ap (drop 3) (ok_inj _ _ made ∙ e ∙ sym (ok_inj _ _ made')) in
    (
      s,
      s',
      found,
      found',
      ok_or_inv (get_elem? s.accounts index) _ at
          ∙ ap some same
          ∙ sym (ok_or_inv (get_elem? s'.accounts index) _ at'),
    )

-- The operations of the list, each of which shows the same.
unfoldable pub AllSame : Observed → Observed → List (HashResult Op) → Type 0
AllSame o o' [] = Unit {0}
AllSame o o' (next ∷ rest) = ((op : Op) × (next ≡ ok op) × SameView o o' op) × AllSame o o' rest

all_op_bytes-AllSame :
    (o o' : Observed) (ops : List (HashResult Op)) {b b' : Bytes}
    → IsSized o
    → IsSized o'
    → all_op_bytes o ops ≡ ok b
    → all_op_bytes o' ops ≡ ok b'
    → b ≡ b'
    → AllSame o o' ops
unfolding all_op_bytes AllSame
all_op_bytes-AllSame o o' [] sized sized' h k e = tt
all_op_bytes-AllSame o o' (next ∷ rest) sized sized' h k e =
    let (op, read, h) = >>=-eq-ok next _ h in
    let (bytes, made, h) = >>=-eq-ok (op_bytes o op) _ h in
    let (more, loop, whole) = >>=-eq-ok (all_op_bytes o rest) _ h in
    let (op', read', k) = >>=-eq-ok next _ k in
    let (bytes', made', k) = >>=-eq-ok (op_bytes o' op') _ k in
    let (more', loop', whole') = >>=-eq-ok (all_op_bytes o' rest) _ k in
    let made' = subst (λ y. op_bytes o' y ≡ ok bytes') (ok_inj op' op (sym read' ∙ read)) made' in
    let size = length-op_bytes o op sized made in
    let size' = length-op_bytes o' op sized' made' in
    let same = ok_inj _ _ whole ∙ e ∙ sym (ok_inj _ _ whole') in
    let (first, others) = append_inj bytes bytes' more more' (size ∙ sym size') same in
    (
      (op, read, same_view o o' op sized sized' made made' first),
      all_op_bytes-AllSame o o' rest sized sized' loop loop' others,
    )

-- The preimage of an action's operations authorizes no more than it has seen: two instructions with
-- one preimage have the same program, and every operation of the action shows the same of both: the
-- slice, the account with its flags, the size, the sibling's program and slice, the sibling's
-- account. The keys in both have 32 bytes.
pub preimage-AllSame :
    (program_id program_id' : Key) (s : Ops) (o o' : Observed) {b : Bytes}
    → length program_id ≡ 32
    → length program_id' ≡ 32
    → IsSized o
    → IsSized o'
    → preimage program_id s o ≡ ok b
    → preimage program_id' s o' ≡ ok b
    → (program_id ≡ program_id')
      × ((ops : List (HashResult Op)) × (iter_ops s ≡ ok ops) × AllSame o o' ops)
unfolding preimage
preimage-AllSame program_id program_id' s o o' {b} size size' sized sized' h k =
    let (_, _, h) = >>=-eq-ok (preimage_len s) _ h in
    let (ops, listed, h) = >>=-eq-ok (iter_ops s) _ h in
    let (more, loop, made) = >>=-eq-ok (all_op_bytes o ops) _ h in
    let (_, _, k) = >>=-eq-ok (preimage_len s) _ k in
    let (ops', listed', k) = >>=-eq-ok (iter_ops s) _ k in
    let (more', loop', made') = >>=-eq-ok (all_op_bytes o' ops') _ k in
    let same = ok_inj ops' ops (sym listed' ∙ listed) in
    let loop' = subst (λ y. all_op_bytes o' y ≡ ok more') same loop' in
    let bytes = ok_inj _ b made ∙ sym (ok_inj _ b made') in
    let (programs, others) =
      append_inj program_id program_id' more more' (size ∙ sym size') bytes in
    (programs, (ops, listed, all_op_bytes-AllSame o o' ops sized sized' loop loop' others))
