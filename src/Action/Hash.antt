-- ===== src/Action/Hash.antt =====
-- action.rs: the bounded list of an action's operations, and the hash that authorizes an
-- instruction by them. `hash` is a parameter; `usize` additions on indices and lengths of a
-- transaction do not overflow.
pub mod Preimage
pub mod Views
pub mod Stored
use roshi.Common.{
  ℕ, ◌+◌, ◌-◌, ◌*◌, ◌/◌, ◌%◌, ◌<◌, Bool, true, false, ◌&&◌, List, [], ◌∷◌, ◌++◌, map, Option, none,
  some, leb, ltb, ◌==◌, if◌then◌else◌, zero, suc,
}
use roshi.Common.Result.{Result, ok, err, ◌>>=◌, ◌>>◌, fail_if, ok_or}
use roshi.Common.Int.{ℤ, pos, negsuc}
use roshi.Common.Word.{u32}
use roshi.Common.Bytes.{Bytes, Key, length, take, replicate, get_elem?, slice?, to_le_bytes}
use roshi.Action.{
  Op, noop, ingest_instruction, ingest_account, ingest_instruction_data_size,
  ingest_sibling_instruction, ingest_sibling_account, StoredOp, stored, ActionHashError,
  too_many_ops, instruction_slice_out_of_bounds, account_index_out_of_bounds,
  invalid_instruction_data, missing_sibling, try_to_op, from_op, i8_to_byte, max_action_ops,
}

abbrev pub HashResult : Type 0 → Type 0
HashResult A = Result ActionHashError A

pub record Ops : Type 0 where
  pub ops : List StoredOp
  pub ops_len : ℕ

abbrev pub empty_ops : Ops
empty_ops = record { ops = replicate max_action_ops (stored 0 0 0 0); ops_len = 0 }

-- `ops[index] = op`
unfoldable pub set_at : List StoredOp → ℕ → StoredOp → List StoredOp
set_at [] i op = []
set_at (x ∷ xs) zero op = op ∷ xs
set_at (x ∷ xs) (suc i) op = x ∷ set_at xs i op

-- The loop of `Ops::new`, from an index on. An index below 32 fits a byte after it is raised.
unfoldable pub fill_ops : Ops → ℕ → List Op → HashResult Ops
fill_ops s index [] = ok s
fill_ops s index (op ∷ rest) =
    let filled =
      fill_ops (record { ops = set_at s.ops index (from_op op); ops_len = index + 1 }) (index + 1)
        rest in
    if leb max_action_ops index then err too_many_ops else filled

unfoldable pub new_ops : List Op → HashResult Ops
new_ops ops = fill_ops empty_ops 0 ops

unfoldable pub ops_length : Ops → HashResult ℕ
ops_length s = do fail_if (ltb max_action_ops s.ops_len) too_many_ops; ok s.ops_len

unfoldable pub iter_ops : Ops → HashResult (List (HashResult Op))
iter_ops s = do len ← ops_length s; ok (map try_to_op (take len s.ops))

pub record AccountMeta : Type 0 where
  pub pubkey : Key
  pub is_signer : Bool
  pub is_writable : Bool

pub record ResolvedSibling : Type 0 where
  pub relative_index : ℤ
  pub program_id : Key
  pub bytes : Bytes
  pub accounts : List Key

-- What an instruction shows to the hash, apart from its program.
pub record Observed : Type 0 where
  pub accounts : List AccountMeta
  pub ix_data : Bytes
  pub siblings : List ResolvedSibling

unfoldable pub instruction_slice : Bytes → ℕ → ℕ → HashResult Bytes
instruction_slice bytes offset len = ok_or (slice? bytes offset len) instruction_slice_out_of_bounds

-- `==` on `i8`
abbrev pub same_index : ℤ → ℤ → Bool
same_index (pos m) (pos n) = m == n
same_index (negsuc m) (negsuc n) = m == n
same_index _ _ = false

unfoldable pub resolve_sibling : List ResolvedSibling → ℤ → HashResult ResolvedSibling
resolve_sibling [] relative_index = err missing_sibling
resolve_sibling (s ∷ rest) relative_index =
    if same_index s.relative_index relative_index then ok s else resolve_sibling rest relative_index

-- `u8::from`
abbrev pub bool_byte : Bool → ℕ
bool_byte true = 1
bool_byte false = 0

-- The bytes that one operation adds to the preimage.
unfoldable pub op_bytes : Observed → Op → HashResult Bytes
op_bytes o noop = ok (0 ∷ [])
op_bytes o (ingest_instruction offset len) = do
  slice ← instruction_slice o.ix_data offset len
  ok ((1 ∷ []) ++ (to_le_bytes 2 offset ++ ((len ∷ []) ++ slice)))
op_bytes o (ingest_account index) = do
  account ← ok_or (get_elem? o.accounts index) account_index_out_of_bounds
  ok (
      (2 ∷ index ∷ [])
      ++ (account.pubkey ++ (bool_byte account.is_signer ∷ bool_byte account.is_writable ∷ [])))
op_bytes o ingest_instruction_data_size = do
  fail_if (leb u32 (length o.ix_data)) invalid_instruction_data
  ok ((3 ∷ []) ++ to_le_bytes 4 (length o.ix_data))
op_bytes o (ingest_sibling_instruction relative_index offset len) = do
  sibling ← resolve_sibling o.siblings relative_index
  slice ← instruction_slice sibling.bytes offset len
  ok (
      (4 ∷ i8_to_byte relative_index ∷ [])
      ++ (sibling.program_id ++ ((offset ∷ len ∷ []) ++ slice)))
op_bytes o (ingest_sibling_account relative_index index) = do
  sibling ← resolve_sibling o.siblings relative_index
  account ← ok_or (get_elem? sibling.accounts index) account_index_out_of_bounds
  ok ((5 ∷ i8_to_byte relative_index ∷ index ∷ []) ++ account)

-- The loop over the operations.
unfoldable pub all_op_bytes : Observed → List (HashResult Op) → HashResult Bytes
all_op_bytes o [] = ok []
all_op_bytes o (next ∷ rest) = do
  op ← next
  bytes ← op_bytes o op
  more ← all_op_bytes o rest
  ok (bytes ++ more)

-- `preimage_len`: the sizes of the operations' bytes.
unfoldable pub op_len : Op → ℕ
op_len noop = 1
op_len (ingest_instruction offset len) = 4 + len
op_len (ingest_account index) = 36
op_len ingest_instruction_data_size = 5
op_len (ingest_sibling_instruction relative_index offset len) = 36 + len
op_len (ingest_sibling_account relative_index index) = 35

unfoldable pub sum_op_len : List (HashResult Op) → HashResult ℕ
sum_op_len [] = ok 0
sum_op_len (next ∷ rest) = do op ← next; more ← sum_op_len rest; ok (op_len op + more)

unfoldable pub preimage_len : Ops → HashResult ℕ
preimage_len s = do ops ← iter_ops s; more ← sum_op_len ops; ok (32 + more)

unfoldable pub preimage : Key → Ops → Observed → HashResult Bytes
preimage program_id s o = do
  preimage_len s
  ops ← iter_ops s
  more ← all_op_bytes o ops
  ok (program_id ++ more)

unfoldable pub compute_action_hash_from_metas :
    (Bytes → Key) → Key → Ops → Observed → HashResult Key
compute_action_hash_from_metas hash program_id s o = do
  bytes ← preimage program_id s o
  ok (hash bytes)
