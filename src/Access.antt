-- ===== src/Access.antt =====
-- crates/interface/src/access.rs: the Merkle access list of a private vault. `hashv`, the SHA-256 of
-- the concatenation of some slices, is a parameter.
pub mod Tree
use roshi.Common.{
  ℕ, ◌+◌, ◌≤◌, ◌<◌, ◌≡◌, refl, arith, Bool, true, false, Bool-cases, inl, inr, List, [], ◌∷◌, ltb,
  leb, ◌==◌, if◌then◌else◌,
}
use roshi.Common.Result.{ok, err}
use roshi.Common.Bytes.{Bytes, Key, bytes_eq, bytes_eq_refl, bytes_eq→eq, length}
use roshi.Vault.{Vault, bool_flag}

abbrev pub max_access_proof_len : ℕ
max_access_proof_len = 32

-- `b"roshi:vault-access:leaf:v1"` and `b"roshi:vault-access:node:v1"`.
abbrev pub access_leaf_domain : Bytes
access_leaf_domain =
    114 ∷ 111 ∷ 115 ∷ 104 ∷ 105 ∷ 58 ∷ 118 ∷ 97 ∷ 117 ∷ 108 ∷ 116 ∷ 45 ∷ 97 ∷ 99 ∷ 99 ∷ 101 ∷ 115
    ∷ 115 ∷ 58 ∷ 108 ∷ 101 ∷ 97 ∷ 102 ∷ 58 ∷ 118 ∷ 49 ∷ []

abbrev pub access_node_domain : Bytes
access_node_domain =
    114 ∷ 111 ∷ 115 ∷ 104 ∷ 105 ∷ 58 ∷ 118 ∷ 97 ∷ 117 ∷ 108 ∷ 116 ∷ 45 ∷ 97 ∷ 99 ∷ 99 ∷ 101 ∷ 115
    ∷ 115 ∷ 58 ∷ 110 ∷ 111 ∷ 100 ∷ 101 ∷ 58 ∷ 118 ∷ 49 ∷ []

-- `left <= right` on byte arrays, in the order of a dictionary.
unfoldable pub bytes_le : Bytes → Bytes → Bool
bytes_le [] ys = true
bytes_le (x ∷ xs) [] = false
bytes_le (x ∷ xs) (y ∷ ys) = if ltb x y then true else if x == y then bytes_le xs ys else false

module _ (hashv : List Bytes → Key) where
  unfoldable pub access_merkle_leaf : Key → Key
  access_merkle_leaf owner = hashv (access_leaf_domain ∷ owner ∷ [])

  unfoldable pub access_merkle_node : Key → Key → Key
  access_merkle_node left right =
      if bytes_le left right
      then hashv (access_node_domain ∷ left ∷ right ∷ [])
      else hashv (access_node_domain ∷ right ∷ left ∷ [])

  -- The loop over the siblings.
  unfoldable pub climb : Key → List Key → Key
  climb node [] = node
  climb node (sibling ∷ proof) = climb (access_merkle_node node sibling) proof

  unfoldable pub verify_access_merkle_proof : Key → Key → List Key → Bool
  verify_access_merkle_proof owner merkle_root proof =
      if ltb max_access_proof_len (length proof)
      then false
      else bytes_eq (climb (access_merkle_leaf owner) proof) merkle_root

  -- `Vault::allows_depositor`
  unfoldable pub allows_depositor : Vault → Key → List Key → Bool
  allows_depositor v depositor proof = elim (bool_flag v.private_flag) [
    | ok private ↦
        if private then verify_access_merkle_proof depositor v.access_merkle_root proof else true
    | err e ↦ false
  ]
