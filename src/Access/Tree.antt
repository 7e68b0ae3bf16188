-- ===== src/Access/Tree.antt =====
-- access.rs: the proofs that a tree of depositors gives its members.
use roshi.Common.{
  ◌≤◌, ◌≡◌, inl, inr, refl, ap, ◌∙◌, arith, Bool-cases, true, false, List, [], ◌∷◌, ◌++◌, ltb,
}
use roshi.Common.Bytes.{Bytes, Key, bytes_eq_refl, length}
use roshi.Access.{
  bytes_le, access_merkle_leaf, access_merkle_node, climb, verify_access_merkle_proof,
  max_access_proof_len,
}

bytes_le_antisym : (a b : Bytes) → bytes_le a b ≡ true → bytes_le b a ≡ true → a ≡ b
unfolding bytes_le
bytes_le_antisym [] [] h k = refl
bytes_le_antisym [] (y ∷ ys) h k = cc
bytes_le_antisym (x ∷ xs) [] h k = cc
bytes_le_antisym (x ∷ xs) (y ∷ ys) h k = ground (arith, bytes_le_antisym xs ys)

bytes_le_total : (a b : Bytes) → bytes_le a b ≡ false → bytes_le b a ≡ true
unfolding bytes_le
bytes_le_total [] ys h = cc
bytes_le_total (x ∷ xs) [] h = refl
bytes_le_total (x ∷ xs) (y ∷ ys) h = ground (arith, bytes_le_total xs ys)

-- A tree with a depositor at each leaf.
pub data AccessTree : Type 0 where
  leaf : Key → AccessTree
  node : AccessTree → AccessTree → AccessTree

module _ (hashv : List Bytes → Key) where
  access_merkle_node_comm :
      (a b : Key) → access_merkle_node hashv a b ≡ access_merkle_node hashv b a
  unfolding access_merkle_node
  access_merkle_node_comm a b = elim (Bool-cases (bytes_le a b)) [
    | inl le ↦ elim (Bool-cases (bytes_le b a)) [
      | inl ge ↦ let same = bytes_le_antisym a b le ge in cc
      | inr gt ↦ rw (le, gt)
    ]
    | inr gt ↦ let le = bytes_le_total a b gt in rw (gt, le)
  ]

  pub root : AccessTree → Key
  root (leaf owner) = access_merkle_leaf hashv owner
  root (node l r) = access_merkle_node hashv (root l) (root r)

  -- The siblings on the way from a depositor's leaf up to the root.
  pub data HasProof (owner : Key) : AccessTree → List Key → Type 0 where
    here : HasProof owner (leaf owner) []
    left :
        {l : AccessTree} {proof : List Key} (r : AccessTree)
        → HasProof owner l proof
        → HasProof owner (node l r) (proof ++ root r ∷ [])
    right :
        {r : AccessTree} {proof : List Key} (l : AccessTree)
        → HasProof owner r proof
        → HasProof owner (node l r) (proof ++ root l ∷ [])

  climb-append :
      (k x : Key) (proof : List Key)
      → climb hashv k (proof ++ x ∷ []) ≡ access_merkle_node hashv (climb hashv k proof) x
  unfolding climb
  climb-append k x [] = refl
  climb-append k x (y ∷ proof) = climb-append (access_merkle_node hashv k y) x proof

  climb-root :
      (owner : Key) (t : AccessTree) (proof : List Key)
      → HasProof owner t proof
      → climb hashv (access_merkle_leaf hashv owner) proof ≡ root t
  unfolding climb root
  climb-root owner _ _ here = refl
  climb-root owner _ _ (left {proof = proof} r h) =
      climb-append _ (root r) proof
      ∙ ap (λ k. access_merkle_node hashv k (root r)) (climb-root owner _ proof h)
  climb-root owner _ _ (right {proof = proof} l h) =
      climb-append _ (root l) proof
      ∙ ap (λ k. access_merkle_node hashv k (root l)) (climb-root owner _ proof h)
      ∙ access_merkle_node_comm _ (root l)

  -- A depositor at a leaf of a tree, at most 32 levels down, is let in at its root by the siblings on
  -- the way up, whichever sides these stand on.
  pub verify_access_merkle_proof-HasProof :
      (owner : Key) (t : AccessTree) (proof : List Key)
      → length proof ≤ max_access_proof_len
      → HasProof owner t proof
      → verify_access_merkle_proof hashv owner (root t) proof ≡ true
  unfolding verify_access_merkle_proof
  verify_access_merkle_proof-HasProof owner t proof short h =
      let shallow : ltb max_access_proof_len (length proof) ≡ false = ground (arith, short) in
      rw (shallow, climb-root owner t proof h) (bytes_eq_refl (root t))
