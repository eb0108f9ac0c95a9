-- ===== src/Contract/Witness.antt =====
-- `build_witness` of contracts/hyli-utxo-state/src/state.rs and `compute_root` of zk/mod.rs: a
-- witness stands for the tree that it was built from.
use cachecash.Prelude.{
  suc, ◌≡◌, refl, ap, true, List, [], ◌∷◌, map, bytes_eq_refl, length, length-map, ok, inl, inr,
  Result-cases, arith, length-map,
}
use cachecash.Contract.Smt.{
  H256, h256_zero, WitnessLeaf, SparseMerkleTree, SmtLaws, IsDistinct, merkle_proof, update_each,
  value_or_zero,
}
use cachecash.Contract.State.{ZkVmWitnessVec, merkle, with_root, build_witness}
use cachecash.Contract.ZkVm.{set_values, all_zero, compute_root}
use cachecash.Contract.Recording.{as_leaf, AreAbsent}

-- The leaf that `build_witness` asks a proof for, and the pair that `compute_root` hands on.
abbrev query : H256 → WitnessLeaf
query key = record { key = key; value = h256_zero }

abbrev leaf_pair : WitnessLeaf → H256 × H256
leaf_pair v = (v.key, v.value)

keys-query : (ks : List H256) → map (λ (e : WitnessLeaf). e.key) (map query ks) ≡ ks
keys-query [] = refl
keys-query (k ∷ ks) = ap (◌∷◌ k) (keys-query ks)

pairs-map :
    (f : H256 → H256) (ks : List H256)
    → map leaf_pair (map (λ key. record { key = key; value = f key }) ks) ≡ map (λ k. (k, f k)) ks
pairs-map f [] = refl
pairs-map f (k ∷ ks) = ap (◌∷◌ (k, f k)) (pairs-map f ks)

-- Writing the keys over the values of their own witness leaves the keys as values.
pairs-set_values :
    (f : H256 → H256) (ks : List H256)
    → map leaf_pair (set_values (map (λ key. record { key = key; value = f key }) ks) ks)
      ≡ map as_leaf ks
unfolding set_values
pairs-set_values f [] = refl
pairs-set_values f (k ∷ ks) = ap (◌∷◌ (k, k)) (pairs-set_values f ks)

keys-as_leaf : (ks : List H256) → map (λ (e : H256 × H256). e.0) (map as_leaf ks) ≡ ks
keys-as_leaf [] = refl
keys-as_leaf (k ∷ ks) = ap (◌∷◌ k) (keys-as_leaf ks)

module _ (C : SparseMerkleTree) where
  open C use {Tree, MerkleProof, tree_root}

  -- The values of a witness for the keys.
  abbrev witness_values : Tree → List H256 → List WitnessLeaf
  witness_values t ks = map (λ key. record { key = key; value = value_or_zero C t key }) ks

  -- A witness with a proof is built exactly from a proof of the crate.
  build_witness-cons :
      (t : Tree) (k : H256) (ks : List H256) {w : ZkVmWitnessVec MerkleProof}
      → build_witness C t (k ∷ ks) ≡ ok w
      → (p : MerkleProof) × (C.prove t (k ∷ ks) ≡ ok p)
        × (w ≡ record { values = witness_values t (k ∷ ks); proof = merkle p })
  unfolding build_witness merkle_proof
  build_witness-cons t k ks {w} h = elim (Result-cases (C.prove t (k ∷ ks))) [
    | inl (p, e) ↦ (p, e, ground (arith, keys-query ks))
    | inr (x, e) ↦ absurd (ground (arith, keys-query ks))
  ]

  -- The number of values is the number of keys.
  pub build_witness-length :
      (t : Tree) (ks : List H256) {w : ZkVmWitnessVec MerkleProof}
      → build_witness C t ks ≡ ok w
      → length w.values ≡ length ks
  unfolding build_witness with_root
  build_witness-length t [] h = ground arith
  build_witness-length t (k ∷ ks) h =
      let (p, e, w_eq) = build_witness-cons t k ks h in rw w_eq (ap suc (length-map _ ks))

  all_zero-absent :
      (t : Tree) (ks : List H256) → AreAbsent C t ks → all_zero (witness_values t ks) ≡ true
  unfolding all_zero value_or_zero
  all_zero-absent t [] a = refl
  all_zero-absent t (k ∷ ks) a = ground (arith, all_zero-absent t ks a.1, bytes_eq_refl h256_zero)

  -- The values of keys that are not in the tree are all zero.
  pub build_witness-all_zero :
      (t : Tree) (ks : List H256) {w : ZkVmWitnessVec MerkleProof}
      → build_witness C t ks ≡ ok w
      → AreAbsent C t ks
      → all_zero w.values ≡ true
  unfolding build_witness with_root all_zero
  build_witness-all_zero t [] h a = ground arith
  build_witness-all_zero t (k ∷ ks) h a =
      let (p, e, w_eq) = build_witness-cons t k ks h in rw w_eq (all_zero-absent t (k ∷ ks) a)

  module _ (L : SmtLaws C) where
    -- A fresh witness has the root of its tree.
    pub build_witness-root :
        (t : Tree) (ks : List H256) {w : ZkVmWitnessVec MerkleProof}
        → build_witness C t ks ≡ ok w
        → IsDistinct ks
        → compute_root C w ≡ ok (tree_root t)
    unfolding build_witness with_root compute_root
    build_witness-root t [] h d = ground arith
    build_witness-root t (k ∷ ks) h d =
        let (p, e, w_eq) = build_witness-cons t k ks h in
        rw (w_eq, pairs-map (value_or_zero C t) ks, L.recompute_current t (k ∷ ks) p (λ q. cc) d e)

    unchanged :
        (t t' : Tree) {w : ZkVmWitnessVec MerkleProof}
        → build_witness C t [] ≡ ok w
        → update_each C t [] ≡ ok t'
        → compute_root C (record { values = set_values w.values []; proof = w.proof })
          ≡ ok (tree_root t')
    unfolding build_witness with_root compute_root update_each
    unchanged t t' h u = ground arith

    updated :
        (t t' : Tree) (k : H256) (ks : List H256) (p : MerkleProof)
        → IsDistinct (k ∷ ks)
        → C.prove t (k ∷ ks) ≡ ok p
        → update_each C t (map as_leaf (k ∷ ks)) ≡ ok t'
        → compute_root C
            (record { values = set_values (witness_values t (k ∷ ks)) (k ∷ ks); proof = merkle p })
          ≡ ok (tree_root t')
    unfolding compute_root set_values
    updated t t' k ks p d e u = rw (
      pairs-set_values (value_or_zero C t) ks,
      L.recompute_updated t t' (map as_leaf (k ∷ ks)) p (λ q. cc) (rw (keys-as_leaf ks) d)
          (rw (keys-as_leaf ks) e) u,
    )

    -- With the keys written over its values, it has the root of the tree after those writes.
    pub build_witness-updated_root :
        (t t' : Tree) (ks : List H256) {w : ZkVmWitnessVec MerkleProof}
        → build_witness C t ks ≡ ok w
        → IsDistinct ks
        → update_each C t (map as_leaf ks) ≡ ok t'
        → compute_root C (record { values = set_values w.values ks; proof = w.proof })
          ≡ ok (tree_root t')
    build_witness-updated_root t t' [] h d u = unchanged t t' h u
    build_witness-updated_root t t' (k ∷ ks) h d u =
        let (p, e, w_eq) = build_witness-cons t k ks h in rw w_eq (updated t t' k ks p d e u)
