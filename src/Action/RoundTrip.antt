-- ===== src/Action/RoundTrip.antt =====
-- action.rs: an operation and its stored form determine one another, so that the bytes which an
-- authority signs have one reading, and an operation has one form.
use roshi.Common.{ℕ, ◌<◌, ◌≡◌, refl, arith}
use roshi.Common.Result.{ok}
use roshi.Common.Int.{ℤ, pos, negsuc}
use roshi.Common.Word.{u8, u16}
use roshi.Action.{
  Op, noop, ingest_instruction, ingest_account, ingest_instruction_data_size,
  ingest_sibling_instruction, ingest_sibling_account, try_to_op, from_op, byte_to_i8, i8_to_byte,
  stored,
}

pub data IsI8 : ℤ → Type 0 where
  small : (n : ℕ) → n < 128 → IsI8 (pos n)
  below : (n : ℕ) → n < 128 → IsI8 (negsuc n)

-- The ranges of the fields' types.
pub data IsOp : Op → Type 0 where
  noop_ok : IsOp noop
  instruction_ok : (offset len : ℕ) → offset < u16 → len < u8 → IsOp (ingest_instruction offset len)
  account_ok : (index : ℕ) → index < u8 → IsOp (ingest_account index)
  size_ok : IsOp ingest_instruction_data_size
  sibling_ok :
      (i : ℤ) (offset len : ℕ)
      → IsI8 i
      → offset < u8
      → len < u8
      → IsOp (ingest_sibling_instruction i offset len)
  sibling_account_ok :
      (i : ℤ) (index : ℕ) → IsI8 i → index < u8 → IsOp (ingest_sibling_account i index)

byte_to_i8-i8_to_byte : (i : ℤ) → IsI8 i → byte_to_i8 (i8_to_byte i) ≡ i
byte_to_i8-i8_to_byte _ (small n h) = ground (arith, h)
byte_to_i8-i8_to_byte _ (below n h) = ground (arith, h)

i8_to_byte-byte_to_i8 : (b : ℕ) → b < u8 → i8_to_byte (byte_to_i8 b) ≡ b
i8_to_byte-byte_to_i8 b h = ground (arith, h)

-- Every operation, its fields in the range of their types, is read back from its stored form.
pub try_to_op-from_op : (op : Op) → IsOp op → try_to_op (from_op op) ≡ ok op
unfolding try_to_op from_op
try_to_op-from_op _ noop_ok = refl
try_to_op-from_op _ (instruction_ok offset len h k) = ground (arith, h, k)
try_to_op-from_op _ (account_ok index h) = refl
try_to_op-from_op _ size_ok = refl
try_to_op-from_op _ (sibling_ok i offset len short h k) = rw (byte_to_i8-i8_to_byte i short)
try_to_op-from_op _ (sibling_account_ok i index short h) = rw (byte_to_i8-i8_to_byte i short)

-- A stored operation, of four bytes, that is read at all is the one stored form of what it reads as.
pub from_op-try_to_op :
    (kind arg0 arg1 arg2 : ℕ) (op : Op)
    → arg0 < u8
    → arg1 < u8
    → arg2 < u8
    → try_to_op (stored kind arg0 arg1 arg2) ≡ ok op
    → from_op op ≡ stored kind arg0 arg1 arg2
unfolding try_to_op from_op
from_op-try_to_op kind arg0 arg1 arg2 noop a b c h = ground (arith, h)
from_op-try_to_op kind arg0 arg1 arg2 (ingest_instruction offset len) a b c h = ground (arith, h)
from_op-try_to_op kind arg0 arg1 arg2 (ingest_account index) a b c h = ground (arith, h)
from_op-try_to_op kind arg0 arg1 arg2 ingest_instruction_data_size a b c h = ground (arith, h)
from_op-try_to_op kind arg0 arg1 arg2 (ingest_sibling_instruction i offset len) a b c h =
    ground (arith, h, i8_to_byte-byte_to_i8 arg0 a)
from_op-try_to_op kind arg0 arg1 arg2 (ingest_sibling_account i index) a b c h =
    ground (arith, h, i8_to_byte-byte_to_i8 arg0 a)
