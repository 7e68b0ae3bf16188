-- ===== src/Action/Hash/Preimage.antt =====
-- action.rs, `compute_action_hash_from_metas`: the size of the preimage, and that it fixes all that
-- the operations look at.
use roshi.Common.{
  ℕ, ◌+◌, ◌≤◌, ◌≡◌, sym, ap, ◌∙◌, subst, arith, Bool-cases, inl, inr, List, [], ◌∷◌, some, leb,
  leb→le, zero, suc,
}
use roshi.Common.Result.{ok, ok_inj, ok_or_inv, >>=-eq-ok, fail_if, ok_or}
use roshi.Common.Int.{ℤ}
use roshi.Common.Word.{u32}
use roshi.Common.Bytes.{
  Bytes, Key, length, take, drop, get_elem?, to_le_bytes, length-append, length-take, length-drop,
}
use roshi.Action.{
  Op, noop, ingest_instruction, ingest_account, ingest_instruction_data_size,
  ingest_sibling_instruction, ingest_sibling_account, account_index_out_of_bounds,
  invalid_instruction_data,
}
use roshi.Action.Hash.{
  HashResult, Ops, AccountMeta, ResolvedSibling, Observed, instruction_slice, resolve_sibling,
  same_index, bool_byte, op_bytes, all_op_bytes, op_len, sum_op_len, preimage_len, preimage,
  iter_ops,
}

-- Keys have 32 bytes.
unfoldable pub AllKeys : List Key → Type 0
AllKeys [] = Unit {0}
AllKeys (k ∷ ks) = (length k ≡ 32) × AllKeys ks

unfoldable pub AllMetas : List AccountMeta → Type 0
AllMetas [] = Unit {0}
AllMetas (m ∷ ms) = (length m.pubkey ≡ 32) × AllMetas ms

unfoldable pub AllSiblings : List ResolvedSibling → Type 0
AllSiblings [] = Unit {0}
AllSiblings (s ∷ ss) = ((length s.program_id ≡ 32) × AllKeys s.accounts) × AllSiblings ss

pub record IsSized (o : Observed) : Type 0 where
  pub metas : AllMetas o.accounts
  pub siblings : AllSiblings o.siblings

pub key_at :
    (ks : List Key) (i : ℕ) {k : Key} → AllKeys ks → get_elem? ks i ≡ some k → length k ≡ 32
unfolding AllKeys
key_at [] i all h = cc
key_at (x ∷ xs) zero {k} all h = ground (arith, h)
key_at (x ∷ xs) (suc i) all h = key_at xs i all.1 h

pub meta_at :
    (ms : List AccountMeta) (i : ℕ) {m : AccountMeta}
    → AllMetas ms
    → get_elem? ms i ≡ some m
    → length m.pubkey ≡ 32
unfolding AllMetas
meta_at [] i all h = cc
meta_at (x ∷ xs) zero {m} all h = ground (arith, h)
meta_at (x ∷ xs) (suc i) all h = meta_at xs i all.1 h

pub sibling_at :
    (ss : List ResolvedSibling) (i : ℤ) {s : ResolvedSibling}
    → AllSiblings ss
    → resolve_sibling ss i ≡ ok s
    → (length s.program_id ≡ 32) × AllKeys s.accounts
unfolding AllSiblings resolve_sibling
sibling_at [] i all h = cc
sibling_at (x ∷ xs) i {s} all h = elim (Bool-cases (same_index x.relative_index i)) [
  | inl same ↦
      let found = rw same at h in
      subst (λ y. (length y.program_id ≡ 32) × AllKeys y.accounts) (ok_inj x s found) all.0
  | inr other ↦ sibling_at xs i all.1 (rw other at h)
]

pub length-slice :
    (bytes : Bytes) (offset len : ℕ) {b : Bytes}
    → instruction_slice bytes offset len ≡ ok b
    → length b ≡ len
unfolding instruction_slice
length-slice bytes offset len {b} h = elim (Bool-cases (leb (offset + len) (length bytes))) [
  | inl fits ↦
      let inside : offset + len ≤ length bytes = leb→le _ _ fits in
      let known = rw fits at h in
      let same : take len (drop offset bytes) ≡ b = ok_inj _ b known in
      rw (← same)
        (length-take len (drop offset bytes) (omega (arith, length-drop offset bytes, inside)))
  | inr out ↦ let failed = rw out at h in absurd (cc)
]

-- An operation adds as many bytes as `preimage_len` has counted for it.
pub length-op_bytes :
    (o : Observed) (op : Op) {b : Bytes} → IsSized o → op_bytes o op ≡ ok b → length b ≡ op_len op
unfolding op_bytes op_len to_le_bytes
length-op_bytes o noop {b} sized h = ap length (sym (ok_inj _ b h))
length-op_bytes o (ingest_instruction offset len) {b} sized h =
    let (slice, cut, made) = >>=-eq-ok (instruction_slice o.ix_data offset len) _ h in
    ap length (sym (ok_inj _ b made)) ∙ omega (arith, length-slice o.ix_data offset len cut)
length-op_bytes o (ingest_account index) {b} sized h =
    let (m, found, made) =
      >>=-eq-ok (ok_or (get_elem? o.accounts index) account_index_out_of_bounds) _ h in
    let size = meta_at o.accounts index sized.metas (ok_or_inv _ _ found) in
    let tail : Bytes = bool_byte m.is_signer ∷ bool_byte m.is_writable ∷ [] in
    ap length (sym (ok_inj _ b made)) ∙ omega (arith, length-append m.pubkey tail, size)
length-op_bytes o ingest_instruction_data_size {b} sized h =
    let (_, _, made) =
      >>=-eq-ok (fail_if (leb u32 (length o.ix_data)) invalid_instruction_data) _ h in
    ap length (sym (ok_inj _ b made))
length-op_bytes o (ingest_sibling_instruction i offset len) {b} sized h =
    let (s, found, h) = >>=-eq-ok (resolve_sibling o.siblings i) _ h in
    let (slice, cut, made) = >>=-eq-ok (instruction_slice s.bytes offset len) _ h in
    ap length (sym (ok_inj _ b made))
    ∙ omega (
      arith,
      length-append s.program_id (offset ∷ len ∷ slice),
      (sibling_at o.siblings i sized.siblings found).0,
      length-slice s.bytes offset len cut,
    )
length-op_bytes o (ingest_sibling_account i index) {b} sized h =
    let (s, found, h) = >>=-eq-ok (resolve_sibling o.siblings i) _ h in
    let (k, at, made) =
      >>=-eq-ok (ok_or (get_elem? s.accounts index) account_index_out_of_bounds) _ h in
    let size =
      key_at s.accounts index (sibling_at o.siblings i sized.siblings found).1 (ok_or_inv _ _ at) in
    ap length (sym (ok_inj _ b made)) ∙ omega (arith, size)

-- The loops: the bytes of the operations are as long as their counted sizes.
length-all_op_bytes :
    (o : Observed) (ops : List (HashResult Op)) {b : Bytes} {n : ℕ}
    → IsSized o
    → all_op_bytes o ops ≡ ok b
    → sum_op_len ops ≡ ok n
    → length b ≡ n
unfolding all_op_bytes sum_op_len
length-all_op_bytes o [] {b} {n} sized h k = ap length (sym (ok_inj _ b h)) ∙ ok_inj 0 n k
length-all_op_bytes o (next ∷ rest) {b} {n} sized h k =
    let (op, read, h) = >>=-eq-ok next _ h in
    let (bytes, made, h) = >>=-eq-ok (op_bytes o op) _ h in
    let (more, loop, whole) = >>=-eq-ok (all_op_bytes o rest) _ h in
    let (op', read', k) = >>=-eq-ok next _ k in
    let (count, counted, total) = >>=-eq-ok (sum_op_len rest) _ k in
    let same_op : op ≡ op' = ok_inj op op' (sym read ∙ read') in
    let tail : length more ≡ count = length-all_op_bytes o rest sized loop counted in
    let one : length bytes ≡ op_len op = length-op_bytes o op sized made in
    let len = ap op_len same_op in
    let sum : op_len op' + count ≡ n = ok_inj _ n total in
    ap length (sym (ok_inj _ b whole))
    ∙ omega (arith, length-append bytes more, tail, one, len, sum)

-- A preimage that is computed is exactly as long as `preimage_len`, the capacity that is allocated
-- for it, says. The keys that it holds have 32 bytes.
pub preimage-preimage_len :
    (program_id : Key) (s : Ops) (o : Observed) {b : Bytes}
    → length program_id ≡ 32
    → IsSized o
    → preimage program_id s o ≡ ok b
    → preimage_len s ≡ ok (length b)
unfolding preimage preimage_len
preimage-preimage_len program_id s o {b} size sized h =
    let (n, counted, h) = >>=-eq-ok (preimage_len s) _ h in
    let (ops, listed, h) = >>=-eq-ok (iter_ops s) _ h in
    let (more, loop, made) = >>=-eq-ok (all_op_bytes o ops) _ h in
    let (ops', listed', k) = >>=-eq-ok (iter_ops s) _ counted in
    let (count, summed, total) = >>=-eq-ok (sum_op_len ops') _ k in
    let same : ops' ≡ ops = ok_inj ops' ops (sym listed' ∙ listed) in
    let summed = subst (λ y. sum_op_len y ≡ ok count) same summed in
    let tail : length more ≡ count = length-all_op_bytes o ops sized loop summed in
    let sum : 32 + count ≡ n = ok_inj _ n total in
    let len : length b ≡ n =
      ap length (sym (ok_inj _ b made))
      ∙ omega (arith, length-append program_id more, size, tail, sum) in
    counted ∙ ap ok (sym len)
