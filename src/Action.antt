-- ===== src/Action.antt =====
-- crates/interface/src/action.rs: the operations of an action, and their stored form of four bytes.
-- An `i8` is kept as the integer it stands for.
pub mod RoundTrip
pub mod Hash
use roshi.Common.{
  ℕ, ◌+◌, ◌-◌, ◌*◌, ◌/◌, ◌%◌, Bool, ◌&&◌, List, [], ◌∷◌, ltb, ◌==◌, if◌then◌else◌, zero, suc,
}
use roshi.Common.Result.{Result, ok, err, ◌>>=◌, fail_if}
use roshi.Common.Int.{ℤ, pos, negsuc}
use roshi.Common.Bytes.{length, take, replicate}

abbrev pub max_action_ops : ℕ
max_action_ops = 32

pub data Op : Type 0 where
  noop : Op
  ingest_instruction : (offset len : ℕ) → Op
  ingest_account : (index : ℕ) → Op
  ingest_instruction_data_size : Op
  ingest_sibling_instruction : (relative_index : ℤ) (offset len : ℕ) → Op
  ingest_sibling_account : (relative_index : ℤ) (index : ℕ) → Op

pub record StoredOp : Type 0 where
  pub kind : ℕ
  pub arg0 : ℕ
  pub arg1 : ℕ
  pub arg2 : ℕ

pub data ActionHashError : Type 0 where
  invalid_op : ActionHashError
  too_many_ops : ActionHashError
  instruction_slice_out_of_bounds : ActionHashError
  account_index_out_of_bounds : ActionHashError
  invalid_instruction_data : ActionHashError
  missing_sibling : ActionHashError

-- `as i8` and `as u8`, on a byte and on an integer of 8 bits.
abbrev pub byte_to_i8 : ℕ → ℤ
byte_to_i8 b = if ltb b 128 then pos b else negsuc (255 - b)

abbrev pub i8_to_byte : ℤ → ℕ
i8_to_byte (pos n) = n % 256
i8_to_byte (negsuc n) = 255 - n % 256

abbrev pub stored : ℕ → ℕ → ℕ → ℕ → StoredOp
stored kind arg0 arg1 arg2 = record { kind = kind; arg0 = arg0; arg1 = arg1; arg2 = arg2 }

unfoldable pub try_to_op : StoredOp → Result ActionHashError Op
try_to_op s =
    if s.kind == 0 && (s.arg0 == 0 && (s.arg1 == 0 && s.arg2 == 0))
    then ok noop
    else if s.kind == 1
    then ok (ingest_instruction (s.arg1 + 256 * s.arg2) s.arg0)
    else if s.kind == 2 && (s.arg1 == 0 && s.arg2 == 0)
    then ok (ingest_account s.arg0)
    else if s.kind == 3 && (s.arg0 == 0 && (s.arg1 == 0 && s.arg2 == 0))
    then ok ingest_instruction_data_size
    else if s.kind == 4
    then ok (ingest_sibling_instruction (byte_to_i8 s.arg0) s.arg1 s.arg2)
    else if s.kind == 5 && s.arg2 == 0
    then ok (ingest_sibling_account (byte_to_i8 s.arg0) s.arg1)
    else err invalid_op

-- `impl From<Op> for StoredOp`
unfoldable pub from_op : Op → StoredOp
from_op noop = stored 0 0 0 0
from_op (ingest_instruction offset len) = stored 1 len (offset % 256) (offset / 256)
from_op (ingest_account index) = stored 2 index 0 0
from_op ingest_instruction_data_size = stored 3 0 0 0
from_op (ingest_sibling_instruction relative_index offset len) =
    stored 4 (i8_to_byte relative_index) offset len
from_op (ingest_sibling_account relative_index index) = stored 5 (i8_to_byte relative_index) index 0
