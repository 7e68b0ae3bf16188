-- ===== src/Oracle.antt =====
-- crates/interface/src/oracle.rs and oracle/configs.rs: the oracle configuration that vaults and
-- assets store, a region of 192 bytes read at the offset of the kind that is active.
use roshi.Common.{
  ℕ, zero, suc, Bool, true, not, ◌&&◌, ◌||◌, [], ◌∷◌, ◌++◌, Option, none, some, ltb, leb, ◌==◌,
  if◌then◌else◌,
}
use roshi.Common.Result.{Result, ok, ◌>>=◌, fail_if, ok_or, map_ok}
use roshi.Common.Bytes.{Bytes, Key, take, drop, replicate, to_le_bytes, from_le_bytes}

pub data OracleKind : Type 0 where
  switchboard : OracleKind
  pyth : OracleKind
  scope : OracleKind

pub data InvalidOracleConfig : Type 0 where
  invalid_oracle_config : InvalidOracleConfig

abbrev pub as_u8 : OracleKind → ℕ
as_u8 OracleKind.switchboard = 0
as_u8 OracleKind.pyth = 1
as_u8 OracleKind.scope = 2

abbrev pub from_u8 : ℕ → Option OracleKind
from_u8 kind =
    if kind == 0
    then some OracleKind.switchboard
    else if kind == 1
    then some OracleKind.pyth
    else if kind == 2
    then some OracleKind.scope
    else none

pub record SwitchboardOracleConfig : Type 0 where
  pub quote_account : Key
  pub queue_account : Key
  pub feed_id : Key
  pub max_age_slots : ℕ
  pub price_decimals : ℕ
  pub padding : Bytes

pub record PythOracleConfig : Type 0 where
  pub feed_id : Key
  pub price_update_account : Key
  pub max_age_seconds : ℕ
  pub max_confidence_bps : ℕ
  pub price_decimals : ℕ
  pub padding : Bytes

pub record ScopeOracleMapping : Type 0 where
  pub price_info_account : Key
  pub twap_source_or_ref_price_tolerance_bps : ℕ
  pub ref_price : ℕ
  pub generic : Bytes
  pub price_type : ℕ
  pub twap_enabled_bitmask : ℕ
  pub padding : Bytes

pub record ScopeOracleConfig : Type 0 where
  pub prices_account : Key
  pub mapping : ScopeOracleMapping
  pub max_age_seconds : ℕ
  pub price_index : ℕ
  pub padding : Bytes

abbrev pub max_entries : ℕ
max_entries = 512

abbrev pub max_price_type : ℕ
max_price_type = 0x7f

-- The loop runs to the end of the bytes, or to the first that is not 0.
unfoldable pub bytes_are_zero : Bytes → Bool
bytes_are_zero [] = true
bytes_are_zero (b ∷ bs) = (b == 0) && bytes_are_zero bs

unfoldable pub mapping_has_canonical_padding : ScopeOracleMapping → Bool
mapping_has_canonical_padding m = bytes_are_zero m.padding

unfoldable pub scope_has_canonical_padding : ScopeOracleConfig → Bool
scope_has_canonical_padding c = bytes_are_zero c.padding && mapping_has_canonical_padding c.mapping

-- `pinned_price_update_account`: all zeros pin nothing.
unfoldable pub pinned_price_update_account : PythOracleConfig → Option Key
pinned_price_update_account c =
    if bytes_are_zero c.price_update_account then none else some c.price_update_account

abbrev pub legs_size : ℕ
legs_size = 192

abbrev pub switchboard_leg_offset : ℕ
switchboard_leg_offset = 0

abbrev pub pyth_leg_offset : ℕ
pyth_leg_offset = 112

abbrev pub scope_leg_offset : ℕ
scope_leg_offset = 0

-- One store of the loop of `write_leg`; the offsets and sizes of the source stay in the region.
unfoldable pub store_byte : Bytes → ℕ → ℕ → Bytes
store_byte [] index b = []
store_byte (x ∷ xs) zero b = b ∷ xs
store_byte (x ∷ xs) (suc index) b = x ∷ store_byte xs index b

unfoldable pub load_byte : Bytes → ℕ → ℕ
load_byte [] index = 0
load_byte (x ∷ xs) zero = x
load_byte (x ∷ xs) (suc index) = load_byte xs index

unfoldable pub write_leg : Bytes → ℕ → Bytes → Bytes
write_leg legs offset [] = legs
write_leg legs offset (b ∷ bytes) = write_leg (store_byte legs offset b) (suc offset) bytes

unfoldable pub read_leg : ℕ → Bytes → ℕ → Bytes
read_leg zero legs offset = []
read_leg (suc n) legs offset = load_byte legs offset ∷ read_leg n legs (suc offset)

-- The field of `len` bytes at `offset` of a `repr(C)` struct.
abbrev pub field_at : Bytes → ℕ → ℕ → Bytes
field_at bytes offset len = take len (drop offset bytes)

abbrev pub number_at : Bytes → ℕ → ℕ → ℕ
number_at bytes offset len = from_le_bytes (field_at bytes offset len)

unfoldable pub switchboard_to_leg_bytes : SwitchboardOracleConfig → Bytes
switchboard_to_leg_bytes c =
    c.quote_account
    ++ (c.queue_account
        ++ (c.feed_id
            ++ (to_le_bytes 8 c.max_age_slots ++ (to_le_bytes 1 c.price_decimals ++ c.padding))))

unfoldable pub switchboard_from_leg_bytes : Bytes → SwitchboardOracleConfig
switchboard_from_leg_bytes bytes = record {
  quote_account = field_at bytes 0 32;
  queue_account = field_at bytes 32 32;
  feed_id = field_at bytes 64 32;
  max_age_slots = number_at bytes 96 8;
  price_decimals = number_at bytes 104 1;
  padding = field_at bytes 105 7;
}

unfoldable pub pyth_to_leg_bytes : PythOracleConfig → Bytes
pyth_to_leg_bytes c =
    c.feed_id
    ++ (c.price_update_account
        ++ (to_le_bytes 8 c.max_age_seconds
            ++ (to_le_bytes 2 c.max_confidence_bps
                ++ (to_le_bytes 1 c.price_decimals ++ c.padding))))

unfoldable pub pyth_from_leg_bytes : Bytes → PythOracleConfig
pyth_from_leg_bytes bytes = record {
  feed_id = field_at bytes 0 32;
  price_update_account = field_at bytes 32 32;
  max_age_seconds = number_at bytes 64 8;
  max_confidence_bps = number_at bytes 72 2;
  price_decimals = number_at bytes 74 1;
  padding = field_at bytes 75 5;
}

-- `repr(C)`: the two-byte fields follow the key, then 20 bytes, two single bytes and the padding.
unfoldable pub mapping_to_bytes : ScopeOracleMapping → Bytes
mapping_to_bytes m =
    m.price_info_account
    ++ (to_le_bytes 2 m.twap_source_or_ref_price_tolerance_bps
        ++ (to_le_bytes 2 m.ref_price
            ++ (m.generic
                ++ (to_le_bytes 1 m.price_type
                    ++ (to_le_bytes 1 m.twap_enabled_bitmask ++ m.padding)))))

unfoldable pub mapping_from_bytes : Bytes → ScopeOracleMapping
mapping_from_bytes bytes = record {
  price_info_account = field_at bytes 0 32;
  twap_source_or_ref_price_tolerance_bps = number_at bytes 32 2;
  ref_price = number_at bytes 34 2;
  generic = field_at bytes 36 20;
  price_type = number_at bytes 56 1;
  twap_enabled_bitmask = number_at bytes 57 1;
  padding = field_at bytes 58 6;
}

unfoldable pub scope_to_leg_bytes : ScopeOracleConfig → Bytes
scope_to_leg_bytes c =
    c.prices_account
    ++ (mapping_to_bytes c.mapping
        ++ (to_le_bytes 8 c.max_age_seconds ++ (to_le_bytes 2 c.price_index ++ c.padding)))

unfoldable pub scope_from_leg_bytes : Bytes → ScopeOracleConfig
scope_from_leg_bytes bytes = record {
  prices_account = field_at bytes 0 32;
  mapping = mapping_from_bytes (field_at bytes 32 64);
  max_age_seconds = number_at bytes 96 8;
  price_index = number_at bytes 104 2;
  padding = field_at bytes 106 6;
}

pub record OracleConfig : Type 0 where
  pub legs : Bytes
  pub kind : ℕ
  pub padding : Bytes

pub data ActiveOracleConfig : Type 0 where
  active_switchboard : SwitchboardOracleConfig → ActiveOracleConfig
  active_pyth : PythOracleConfig → ActiveOracleConfig
  active_scope : ScopeOracleConfig → ActiveOracleConfig

unfoldable pub config_kind : OracleConfig → Result InvalidOracleConfig OracleKind
config_kind c = ok_or (from_u8 c.kind) invalid_oracle_config

unfoldable pub switchboard_config : OracleConfig → SwitchboardOracleConfig
switchboard_config c = switchboard_from_leg_bytes (read_leg 112 c.legs switchboard_leg_offset)

unfoldable pub pyth_config : OracleConfig → PythOracleConfig
pyth_config c = pyth_from_leg_bytes (read_leg 80 c.legs pyth_leg_offset)

unfoldable pub scope_config : OracleConfig → ScopeOracleConfig
scope_config c = scope_from_leg_bytes (read_leg 112 c.legs scope_leg_offset)

unfoldable pub active_of_kind : OracleKind → OracleConfig → ActiveOracleConfig
active_of_kind OracleKind.switchboard c = active_switchboard (switchboard_config c)
active_of_kind OracleKind.pyth c = active_pyth (pyth_config c)
active_of_kind OracleKind.scope c = active_scope (scope_config c)

unfoldable pub active : OracleConfig → Result InvalidOracleConfig ActiveOracleConfig
active c = map_ok (λ k. active_of_kind k c) (config_kind c)

-- The loop from the end of a Scope leg to the end of the region.
unfoldable pub scope_tail_is_zero : OracleConfig → Bool
scope_tail_is_zero c = bytes_are_zero (drop 112 c.legs)

unfoldable pub validate_active :
    OracleConfig → ActiveOracleConfig → Result InvalidOracleConfig (Unit {0})
validate_active c (active_pyth p) = fail_if (p.max_confidence_bps == 0) invalid_oracle_config
validate_active c (active_switchboard s) = ok tt
validate_active c (active_scope s) =
    fail_if
      (leb max_entries s.price_index
        || ltb max_price_type s.mapping.price_type
        || not (scope_has_canonical_padding s)
        || not (scope_tail_is_zero c))
      invalid_oracle_config

unfoldable pub validate : OracleConfig → Result InvalidOracleConfig (Unit {0})
validate c = active c >>= validate_active c

abbrev blank_legs : Bytes
blank_legs = replicate legs_size 0

abbrev blank_padding : Bytes
blank_padding = replicate 7 0

unfoldable pub switchboard_oracle : SwitchboardOracleConfig → OracleConfig
switchboard_oracle c = record {
  legs = write_leg blank_legs switchboard_leg_offset (switchboard_to_leg_bytes c);
  kind = as_u8 OracleKind.switchboard;
  padding = blank_padding;
}

unfoldable pub pyth_oracle : PythOracleConfig → OracleConfig
pyth_oracle c = record {
  legs = write_leg blank_legs pyth_leg_offset (pyth_to_leg_bytes c);
  kind = as_u8 OracleKind.pyth;
  padding = blank_padding;
}

unfoldable pub scope_oracle : ScopeOracleConfig → OracleConfig
scope_oracle c = record {
  legs = write_leg blank_legs scope_leg_offset (scope_to_leg_bytes c);
  kind = as_u8 OracleKind.scope;
  padding = blank_padding;
}
