-- ===== src/Examples/Books.antt =====
-- The theorems on the vault, the extensions of a mint, the access list and the stored operations, at
-- concrete data.
use roshi.Common.{
  ℕ, ◌+◌, ◌-◌, ◌*◌, ◌≤◌, ◌<◌, ◌≡◌, ◌↔◌, ◌⊎◌, refl, arith, List, [], ◌∷◌, ◌++◌, true, false,
}
use roshi.Common.Result.{ok, err}
use roshi.Common.Error.{program_error, invalid_vault_state, nav_gain_exceeds_bound}
use mathlib.Core.Option
use roshi.Common.Int.{pos, negsuc, ◌≤ℤ◌, checked_sub_i64, ◌-ℤ◌}
use roshi.Common.Bytes.{Bytes, Key, length, replicate, bytes_eq}
use roshi.Math.{bps_denominator, mul_div_floor, checked_u64, validate_percentage_bps}
use roshi.Oracle.{validate, active, config_kind, active_of_kind, validate_active}
use roshi.Vault.{
  Vault, debit_assets_at_effective, effective_total_assets, verify_nav_gain_bound,
  remaining_locked_profit, dripping_profit, span_u128,
}
use roshi.Vault.Config.{
  NewVault, new_vault, initial_vault, validate_state, validate_config, validate_controls,
  validate_oracle, validate_tag, pack_tag, unpack_tag, max_tag_len,
}
use roshi.Vault.Config.Validity.{
  IsValid, validate_state_iff, new_vault-validate_state, unpack_tag-pack_tag,
}
use roshi.Vault.Unlock.{IsSound, locked_at, effective_total_assets_grow}
use roshi.Vault.Debit.{debit_assets_at_effective_lem, debited}
use roshi.Vault.Drip.{debit_keeps_drip}
use roshi.Vault.Report.{verify_nav_gain_bound_lem}
use roshi.Token.{scan_extensions}
use roshi.Token.Extensions.{IsMetadataOnly, scan_extensions_iff}
use roshi.Access.{verify_access_merkle_proof}
use roshi.Access.Tree.{
  AccessTree, leaf, node, root, left, here, verify_access_merkle_proof-HasProof,
}
use roshi.Action.{try_to_op, from_op, stored, ingest_sibling_instruction, Op}
use roshi.Action.RoundTrip.{try_to_op-from_op, from_op-try_to_op, sibling_ok, below}
use roshi.Examples.{vault, vault-IsSound, key, oracle, controls}

debit_assets_at_effective_lem_example :
    (e : ℕ) × (effective_total_assets vault (pos 1500) ≡ ok e)
    × (((e < 1000)
          × (debit_assets_at_effective vault 1000 (pos 1500)
              ≡ err (program_error invalid_vault_state)))
        ⊎ ((v' : Vault) × (debit_assets_at_effective vault 1000 (pos 1500) ≡ ok v')
            × IsSound v'
            × (v'.total_assets + 1000 ≡ vault.total_assets)
            × (effective_total_assets v' (pos 1500) ≡ ok (e - 1000))
            × (1000 ≤ e)))
debit_assets_at_effective_lem_example =
    debit_assets_at_effective_lem vault vault-IsSound 1000 (pos 1500) (omega arith)

debit_done : debit_assets_at_effective vault 1000 (pos 1500) ≡ ok (debited vault 1000 (pos 1500))
unfolding debit_assets_at_effective debited remaining_locked_profit dripping_profit span_u128
    mul_div_floor checked_u64 Option.bind checked_sub_i64 ◌-ℤ◌ locked_at
debit_done = refl

debit_keeps_drip_example :
    let v' = debited vault 1000 (pos 1500) in
    (locked_at v' (pos 1700) ≤ locked_at vault (pos 1700))
    × (locked_at vault (pos 1700) ≤ locked_at v' (pos 1700) + 1)
debit_keeps_drip_example =
    debit_keeps_drip vault 1000 (pos 1500) (pos 1700) vault-IsSound (omega arith) (omega arith)
      debit_done

abbrev allowed : ℕ
allowed = vault.total_assets * (bps_denominator + vault.controls.max_nav_gain_bps)

abbrev some_shares : ℕ
some_shares = 1000

verify_nav_gain_bound_lem_example :
    (((vault.controls.max_nav_gain_bps ≡ 0)
        ⊎ (some_shares ≡ 0)
        ⊎ (1200000 * bps_denominator ≤ allowed))
      × (verify_nav_gain_bound vault 1200000 some_shares ≡ ok tt))
    ⊎ ((0 < vault.controls.max_nav_gain_bps)
        × (0 < some_shares)
        × (allowed < 1200000 * bps_denominator)
        × (verify_nav_gain_bound vault 1200000 some_shares
            ≡ err (program_error nav_gain_exceeds_bound)))
verify_nav_gain_bound_lem_example =
    verify_nav_gain_bound_lem vault 1200000 some_shares (omega arith) (omega arith) (omega arith)

effective_total_assets_grow_example :
    (a b : ℕ) × (effective_total_assets vault (pos 1200) ≡ ok a)
    × (effective_total_assets vault (pos 2500) ≡ ok b)
    × (a ≤ b)
    × (b ≤ vault.total_assets)
    × (¬ (vault.profit_unlock_end_ts ≤ℤ pos 2500) ⊎ (b ≡ vault.total_assets))
effective_total_assets_grow_example =
    effective_total_assets_grow vault (pos 1200) (pos 2500) vault-IsSound (omega arith)

validate_state_iff_example : (validate_state vault ≡ ok tt) ↔ IsValid vault
validate_state_iff_example = validate_state_iff vault refl

abbrev new_args : NewVault
new_args = record {
  tag = 65 ∷ 66 ∷ [];
  admin = key 1;
  strategist = key 2;
  swap_authority = key 3;
  nav_authority = key 4;
  withdrawal_authority = key 5;
  base_mint = key 6;
  share_mint = key 7;
  base_decimals = 6;
  base_oracle = oracle;
  deposit_sub_account = 0;
  withdraw_sub_account = 1;
  treasury = key 8;
  performance_fee_bps = 1000;
  withdrawal_buffer_bps = 100;
  deposit_cap = 0;
  controls = controls;
  private = false;
  access_merkle_root = key 0;
  bump = 254;
}

abbrev packed_tag : Bytes
packed_tag = 65 ∷ 66 ∷ replicate 30 0

tag_packed : pack_tag (65 ∷ 66 ∷ []) ≡ ok (packed_tag, 2)
unfolding pack_tag validate_tag
tag_packed = refl

unpack_tag-pack_tag_example :
    (length packed_tag ≡ max_tag_len) × (unpack_tag packed_tag 2 ≡ ok (65 ∷ 66 ∷ []))
unpack_tag-pack_tag_example = unpack_tag-pack_tag (65 ∷ 66 ∷ []) packed_tag 2 tag_packed

made : new_vault new_args ≡ ok (initial_vault new_args packed_tag 2)
unfolding new_vault initial_vault pack_tag validate_tag validate_config validate_controls
    validate_oracle validate_percentage_bps bytes_eq validate active config_kind active_of_kind
    validate_active
made = refl

new_vault-validate_state_example : validate_state (initial_vault new_args packed_tag 2) ≡ ok tt
new_vault-validate_state_example = new_vault-validate_state new_args made

-- A metadata pointer of 2 bytes.
abbrev extension : Bytes
extension = 0 ∷ 18 ∷ 0 ∷ 2 ∷ 0 ∷ 7 ∷ 7 ∷ []

scan_extensions_iff_example :
    (scan_extensions (length extension) extension 1 ≡ ok tt) ↔ IsMetadataOnly extension 1
scan_extensions_iff_example = scan_extensions_iff extension 1 (omega arith) (omega arith)

-- A stand-in for a hash: the slices, one after the other.
abbrev concat : List Bytes → Key
concat [] = []
concat (x ∷ xs) = x ++ concat xs

abbrev two_leaves : AccessTree
two_leaves = node (leaf (key 1)) (leaf (key 2))

verify_access_merkle_proof-HasProof_example :
    verify_access_merkle_proof concat
      (key 1)
      (root concat two_leaves)
      (root concat (leaf (key 2)) ∷ [])
    ≡ true
verify_access_merkle_proof-HasProof_example =
    verify_access_merkle_proof-HasProof concat (key 1) two_leaves (root concat (leaf (key 2)) ∷ [])
      (omega arith) (left (leaf (key 2)) here)

abbrev sibling : Op
sibling = ingest_sibling_instruction (negsuc 0) 8 16

try_to_op-from_op_example : try_to_op (from_op sibling) ≡ ok sibling
try_to_op-from_op_example =
    try_to_op-from_op sibling
      (sibling_ok (negsuc 0) 8 16 (below 0 (omega arith)) (omega arith) (omega arith))

sibling_read : try_to_op (stored 4 255 8 16) ≡ ok sibling
unfolding try_to_op
sibling_read = refl

from_op-try_to_op_example : from_op sibling ≡ stored 4 255 8 16
from_op-try_to_op_example =
    from_op-try_to_op 4 255 8 16 sibling (omega arith) (omega arith) (omega arith) sibling_read
