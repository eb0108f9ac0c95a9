-- ===== src/Contract/State.antt =====
-- contracts/hyli-utxo-state/src/state.rs: the full state `HyliUtxoState` that the server keeps.
-- A method on `&mut self` returns the state beside its result: what it wrote before an early
-- return stays written.
use cachecash.Prelude.{
  ℕ, suc, Bool, true, false, not, List, [], ◌∷◌, ◌++◌, map, Bytes, bytes_eq, length, take,
  replicate, filter, ltb, if◌then◌else◌, Result, ok, err, ◌>>=◌, map_err,
}
use cachecash.Contract.Smt.{
  H256, h256_zero, WitnessLeaf, SparseMerkleTree, smt_contains, update_leaf, merkle_proof,
  value_or_zero,
}
use cachecash.Contract.Blob.{
  Error, note_exists, already_nullified, insert_failed, nullify_failed, proof_failed,
}

abbrev pub max_roots : ℕ
max_roots = 1000

pub record ContractConfig : Type 0 where
  pub utxo_contract_name : Bytes
  pub smt_incl_proof_contract_name : Bytes
  pub smt_contract_name : Bytes

-- `PADDING_NULLIFIER`, poseidon2([0, 0], 2).
abbrev pub padding_nullifier : H256
padding_nullifier =
    0x0b ∷ 0x63 ∷ 0xa5 ∷ 0x37 ∷ 0x87 ∷ 0x02 ∷ 0x1a ∷ 0x4a ∷ 0x96 ∷ 0x2a ∷ 0x45 ∷ 0x2c ∷ 0x29 ∷ 0x21
    ∷ 0xb3 ∷ 0x66 ∷ 0x3a ∷ 0xff ∷ 0x1f ∷ 0xfd ∷ 0x8d ∷ 0x55 ∷ 0x10 ∷ 0x54 ∷ 0x0f ∷ 0x8e ∷ 0x65
    ∷ 0x9e ∷ 0x78 ∷ 0x29 ∷ 0x56 ∷ 0xf1 ∷ []

-- The test of the closure in `filter_keys`.
unfoldable pub keep_key : Bool → H256 → Bool
keep_key is_nullifier k =
    if bytes_eq k h256_zero
    then false
    else if is_nullifier
    then not (bytes_eq k padding_nullifier)
    else true

unfoldable pub filter_keys : List H256 → Bool → List H256
unfolding keep_key
filter_keys keys is_nullifier = filter (keep_key is_nullifier) keys

-- `Proof`, and a witness vector `ZkVmWitnessVec<WitnessLeaf>`.
pub data Proof (P : Type 0) : Type 0 where
  merkle : P → Proof P
  current_root_hash : H256 → Proof P

pub record ZkVmWitnessVec (P : Type 0) : Type 0 where
  pub values : List WitnessLeaf
  pub proof : Proof P

pub record HyliUtxoZkVmState (P : Type 0) : Type 0 where
  pub created_notes : ZkVmWitnessVec P
  pub nullified_notes : ZkVmWitnessVec P
  pub config : ContractConfig
  pub roots : List Bytes

-- `with_root`.
unfoldable pub with_root : {P : Type 0} → H256 → ZkVmWitnessVec P
with_root root = record { values = []; proof = current_root_hash root }

-- `VecDeque::pop_back`, without its result.
unfoldable pub pop_back {ℓ} : {A : Type ℓ} → List A → List A
pop_back [] = []
pop_back (x ∷ []) = []
pop_back (x ∷ y ∷ xs) = x ∷ pop_back (y ∷ xs)

-- `Vec::resize(n, fill)`.
unfoldable pub resize {ℓ} : {A : Type ℓ} → ℕ → A → List A → List A
resize n fill xs = take n (xs ++ replicate n fill)

module _ (C : SparseMerkleTree) where
  open C use {Tree, MerkleProof, tree_root}

  pub record HyliUtxoState : Type 0 where
    pub notes_tree : Tree
    pub nullified_tree : Tree
    pub roots : List Bytes

  -- `HyliUtxoState::default()`.
  unfoldable pub default_state : HyliUtxoState
  default_state = record { notes_tree = C.new; nullified_tree = C.new; roots = [] }

  unfoldable pub update_roots : HyliUtxoState → HyliUtxoState
  unfolding pop_back
  update_roots s =
      let pushed = take 8 (tree_root s.notes_tree) ∷ s.roots in
      record s { roots = if ltb max_roots (length pushed) then pop_back pushed else pushed }

  unfoldable pub record_created :
      HyliUtxoState → List H256 → HyliUtxoState × Result Error (Unit {0})
  record_created s [] = (s, ok tt)
  record_created s (c ∷ cs) = elim (bytes_eq c h256_zero) [
    | true ↦ record_created s cs
    | false ↦ elim (smt_contains C s.notes_tree c) [
      | true ↦ (s, err note_exists)
      | false ↦ elim (update_leaf C s.notes_tree c c) [
        | err _ ↦ (s, err insert_failed)
        | ok t ↦ record_created (record s { notes_tree = t }) cs
      ]
    ]
  ]

  -- The loop of `record_nullified`; `i` is the counter of `enumerate`.
  unfoldable pub record_nullified_from :
      ℕ → HyliUtxoState → List H256 → HyliUtxoState × Result Error (Unit {0})
  record_nullified_from i s [] = (s, ok tt)
  record_nullified_from i s (c ∷ cs) = elim (bytes_eq c h256_zero) [
    | true ↦ record_nullified_from (suc i) s cs
    | false ↦ elim (bytes_eq c padding_nullifier) [
      | true ↦ record_nullified_from (suc i) s cs
      | false ↦ elim (smt_contains C s.nullified_tree c) [
        | true ↦ (s, err (already_nullified i))
        | false ↦ elim (update_leaf C s.nullified_tree c c) [
          | err _ ↦ (s, err nullify_failed)
          | ok t ↦ record_nullified_from (suc i) (record s { nullified_tree = t }) cs
        ]
      ]
    ]
  ]

  unfoldable pub record_nullified :
      HyliUtxoState → List H256 → HyliUtxoState × Result Error (Unit {0})
  unfolding record_nullified_from
  record_nullified s cs = record_nullified_from 0 s cs

  unfoldable pub build_witness : Tree → List H256 → Result Error (ZkVmWitnessVec MerkleProof)
  unfolding with_root
  build_witness tree [] = ok (with_root (tree_root tree))
  build_witness tree (k ∷ ks) = do
    let keys = k ∷ ks
    p ←
        map_err (λ _. proof_failed)
          (merkle_proof C tree (map (λ key. record { key = key; value = h256_zero }) keys))
    ok (record {
      values = map (λ key. record { key = key; value = value_or_zero C tree key }) keys;
      proof = merkle p;
    })

  unfoldable pub to_zkvm_state :
      HyliUtxoState
      → ContractConfig
      → List H256
      → List H256
      → Result Error (HyliUtxoZkVmState MerkleProof)
  to_zkvm_state s config created_note_keys nullified_keys = do
    created ← build_witness s.notes_tree (filter_keys created_note_keys false)
    nullified ← build_witness s.nullified_tree (filter_keys nullified_keys true)
    ok (record {
      created_notes = created;
      nullified_notes = nullified;
      config = config;
      roots = resize max_roots (replicate 8 0) s.roots;
    })

  -- `commitment`: the Borsh form of the two roots is their 64 bytes.
  unfoldable pub commitment : HyliUtxoState → Bytes
  commitment s = tree_root s.notes_tree ++ tree_root s.nullified_tree
