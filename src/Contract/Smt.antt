-- ===== src/Contract/Smt.antt =====
-- contracts/hyli-utxo-state/src/zk/smt.rs: 32-byte words, witness leaves and the wrapper `SMT`
-- round the crate `sparse_merkle_tree`, which is a parameter: its operations are the fields of
-- `SparseMerkleTree`, and what the contract relies on are the fields of `SmtLaws`.
use cachecash.Prelude.{
  ◌≡◌, ◌≢◌, Bool, Option, none, some, List, [], ◌∷◌, map, Bytes, bytes_eq, replicate, is_some,
  if◌then◌else◌, Result, ok, ◌>>=◌,
}

-- `BorshableH256`: the 32 bytes of an `H256`.
abbrev pub H256 : Type 0
H256 = Bytes

-- `H256::zero()`.
abbrev pub h256_zero : H256
h256_zero = replicate 32 0

pub record WitnessLeaf : Type 0 where
  pub key : H256
  pub value : H256

-- The store of the crate keeps its leaves in a map; an update may fail in the store.
pub record SparseMerkleTree : Type 1 where
  pub Tree : Type 0
  pub MerkleProof : Type 0
  pub StoreError : Type 0
  pub new : Tree
  pub tree_root : Tree → H256
  pub leaf : Tree → H256 → Option H256
  pub update : Tree → H256 → H256 → Result StoreError Tree
  pub prove : Tree → List H256 → Result StoreError MerkleProof
  pub recompute : MerkleProof → List (H256 × H256) → Result StoreError H256

-- No word occurs twice.
abbrev pub contains : H256 → List H256 → Bool
contains k [] = Bool.false
contains k (j ∷ ks) = let rest = contains k ks in if bytes_eq j k then Bool.true else rest

abbrev pub IsDistinct : List H256 → Type 0
IsDistinct [] = Unit
IsDistinct (k ∷ ks) = (contains k ks ≡ Bool.false) × IsDistinct ks

module _ (C : SparseMerkleTree) where
  open C use {Tree, MerkleProof, StoreError, tree_root, leaf, update, prove, recompute}

  -- `SMT::contains`: is the key in the map of leaves?
  unfoldable pub smt_contains : Tree → H256 → Bool
  smt_contains t k = is_some (leaf t k)

  -- `SMT::update_leaf`: the value goes in by its `to_h256`.
  unfoldable pub update_leaf : Tree → H256 → H256 → Result StoreError Tree
  update_leaf t k v = update t k v

  -- `SMT::merkle_proof`: a proof for the keys of the entries.
  unfoldable pub merkle_proof : Tree → List WitnessLeaf → Result StoreError MerkleProof
  merkle_proof t entries = prove t (map (λ e. e.key) entries)

  -- `SMT::update_all`, as the updates one after another.
  unfoldable pub update_each : Tree → List (H256 × H256) → Result StoreError Tree
  update_each t [] = ok t
  update_each t ((k, v) ∷ es) = do t' ← update t k v; update_each t' es

  -- What a leaf that is absent stands for.
  unfoldable pub value_or_zero : Tree → H256 → H256
  value_or_zero t k = elim (leaf t k) [ none ↦ h256_zero | some v ↦ v ]

  -- The documented behaviour of the crate: a stored leaf is found under its key alone, a proof
  -- over distinct keys gives back the root for the current values, and for new values the root of
  -- the tree after those updates.
  pub record SmtLaws : Type 0 where
    pub leaf-update :
        (t t' : Tree) (k v j : H256)
        → v ≢ h256_zero
        → update t k v ≡ ok t'
        → leaf t' j ≡ (if bytes_eq k j then some v else leaf t j)
    pub recompute_current :
        (t : Tree) (ks : List H256) (p : MerkleProof)
        → ks ≢ []
        → IsDistinct ks
        → prove t ks ≡ ok p
        → recompute p (map (λ k. (k, value_or_zero t k)) ks) ≡ ok (tree_root t)
    pub recompute_updated :
        (t t' : Tree) (es : List (H256 × H256)) (p : MerkleProof)
        → es ≢ []
        → IsDistinct (map (λ e. e.0) es)
        → prove t (map (λ e. e.0) es) ≡ ok p
        → update_each t es ≡ ok t'
        → recompute p es ≡ ok (tree_root t')
