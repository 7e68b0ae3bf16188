-- ===== src/Examples/Hashes.antt =====
-- The preimage of an action's hash and the stored list of its operations, at concrete instructions.
use roshi.Common.{ℕ, ◌≡◌, refl, arith, true, false, List, [], ◌∷◌, map}
use roshi.Common.Result.{ok, err}
use roshi.Common.Bytes.{Bytes, to_le_bytes}
use roshi.Action.{Op, noop, ingest_instruction, ingest_account, try_to_op, stored}
use roshi.Action.RoundTrip.{noop_ok, instruction_ok, account_ok}
use roshi.Action.Hash.{
  HashResult, Ops, Observed, new_ops, iter_ops, ops_length, preimage, preimage_len, sum_op_len,
  op_len, all_op_bytes, op_bytes, instruction_slice,
}
use roshi.Action.Hash.Preimage.{IsSized, AllMetas, AllSiblings}
use roshi.Action.Hash.Views.{AllSame, preimage-AllSame}
use roshi.Action.Hash.Stored.{AllOps, iter_ops-new_ops}
use roshi.Examples.{key}

abbrev operations : List Op
operations = noop ∷ ingest_instruction 1 2 ∷ ingest_account 0 ∷ []

operations-AllOps : AllOps operations
unfolding AllOps
operations-AllOps =
    (noop_ok, (instruction_ok 1 2 (omega arith) (omega arith), (account_ok 0 (omega arith), tt)))

iter_ops-new_ops_example :
    (s : Ops) × (new_ops operations ≡ ok s) × (iter_ops s ≡ ok (map ok operations))
iter_ops-new_ops_example = iter_ops-new_ops operations operations-AllOps (omega arith)

-- Two instructions that differ outside the slice that the action looks at.
abbrev seen : ℕ → Observed
seen b = record {
  accounts = record { pubkey = key 40; is_signer = true; is_writable = false } ∷ [];
  ix_data = b ∷ 5 ∷ 6 ∷ b ∷ [];
  siblings = [];
}

abbrev action_ops : Ops
action_ops = record { ops = stored 1 2 1 0 ∷ stored 2 0 0 0 ∷ []; ops_len = 2 }

abbrev result_or : HashResult Bytes → Bytes
result_or (ok bytes) = bytes
result_or (err e) = []

abbrev hashed : Bytes
hashed = result_or (preimage (key 41) action_ops (seen 1))

hashed_first : preimage (key 41) action_ops (seen 1) ≡ ok hashed
unfolding preimage preimage_len iter_ops ops_length try_to_op sum_op_len op_len all_op_bytes
    op_bytes instruction_slice to_le_bytes
hashed_first = refl

hashed_second : preimage (key 41) action_ops (seen 2) ≡ ok hashed
unfolding preimage preimage_len iter_ops ops_length try_to_op sum_op_len op_len all_op_bytes
    op_bytes instruction_slice to_le_bytes
hashed_second = refl

seen-IsSized : (b : ℕ) → IsSized (seen b)
unfolding AllMetas AllSiblings
seen-IsSized b = record { metas = (refl, tt); siblings = tt }

preimage-AllSame_example :
    (key 41 ≡ key 41)
    × ((ops : List (HashResult Op)) × (iter_ops action_ops ≡ ok ops)
        × AllSame (seen 1) (seen 2) ops)
preimage-AllSame_example =
    preimage-AllSame (key 41) (key 41) action_ops (seen 1) (seen 2) refl refl (seen-IsSized 1)
      (seen-IsSized 2) hashed_first hashed_second
