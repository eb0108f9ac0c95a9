-- ===== src/Contract/ZkVm.antt =====
-- contracts/hyli-utxo-state/src/zk/mod.rs and the part of state.rs that runs inside the zkVM:
-- the witness vectors, the checks on the Noir blobs, `execute` and `commit`. The SDK's
-- `parse_calldata` and its decoder of structured blobs are parameters.
use cachecash.Prelude.{
  ℕ, Bool, true, false, not, ◌&&◌, ◌||◌, Option, none, some, List, [], ◌∷◌, ◌++◌, map, Bytes,
  bytes_eq, length, is_empty, filter, ltb, ◌==◌, if◌then◌else◌, Result, ok, ◌>>=◌, ◌>>◌, guard,
  ok_or, map_err, replicate,
}
use cachecash.Contract.Smt.{H256, h256_zero, WitnessLeaf, SparseMerkleTree}
use cachecash.Contract.Blob.{
  Error, empty_witness, root_failed, witness_not_zero, utxo_blob_missing, smt_blob_missing,
  smt_blob_not_structured, root_mismatch, nullifier_0_mismatch, nullifier_1_mismatch,
  multiple_withdraws, unexpected_callees, notes_witness_size, nullified_witness_size,
  parse_hyli_utxo_blob, parse_hyli_smt_incl_blob,
}
use cachecash.Contract.State.{
  max_roots, ContractConfig, merkle, current_root_hash, ZkVmWitnessVec, HyliUtxoZkVmState,
  filter_keys, with_root,
}

-- What the contract reads of the SDK's `Blob`, `Calldata` and `ExecutionContext`.
pub record Blob : Type 0 where
  pub contract_name : Bytes
  pub payload : Bytes

pub record Calldata : Type 0 where
  pub identity : Bytes
  pub blobs : List (ℕ × Blob)
  pub index : ℕ

pub record ExecutionContext : Type 0 where
  pub callees_blobs : List Blob

-- `sdk::utils::parse_calldata` and `StructuredBlobData<Vec<u8>>::try_from`, of the SDK.
pub record Sdk : Type 0 where
  pub parse_calldata : Calldata → Result Error ExecutionContext
  pub structured_parameters : Bytes → Option Bytes

-- The blob of the calldata under a contract name: `blobs.iter().find(..)`.
unfoldable pub find_blob : Bytes → List (ℕ × Blob) → Option Blob
find_blob name [] = none
find_blob name ((_, b) ∷ bs) =
    let rest = find_blob name bs in if bytes_eq b.contract_name name then some b else rest

-- `position(..)` and `Vec::remove` at that place: the first blob of the name, and the others.
unfoldable pub remove_first : Bytes → List Blob → Option (Blob × List Blob)
remove_first name [] = none
remove_first name (b ∷ bs) = elim (bytes_eq b.contract_name name) [
  | true ↦ some (b, bs)
  | false ↦ elim (remove_first name bs) [
    | none ↦ none
    | some (found, rest) ↦ some (found, b ∷ rest)
  ]
]

-- `roots.contains(..)`.
unfoldable pub contains_root : Bytes → List Bytes → Bool
contains_root r [] = false
contains_root r (x ∷ xs) = bytes_eq x r || contains_root r xs

-- `leaf.value = *commitment` along the zip of the leaves with the keys.
unfoldable pub set_values : List WitnessLeaf → List H256 → List WitnessLeaf
set_values [] ks = []
set_values (l ∷ ls) [] = l ∷ ls
set_values (l ∷ ls) (k ∷ ks) = record l { value = k } ∷ set_values ls ks

-- No value of the vector differs from zero.
unfoldable pub all_zero : List WitnessLeaf → Bool
all_zero [] = true
all_zero (l ∷ ls) = bytes_eq l.value h256_zero && all_zero ls

unfoldable pub ensure_all_zero : {P : Type 0} → ZkVmWitnessVec P → Result Error (Unit {0})
unfolding all_zero
ensure_all_zero w = guard (all_zero w.values) witness_not_zero

-- What is left of the callees when the first of a name is taken out, if there is one.
unfoldable pub without_first : Bytes → List Blob → List Blob
unfolding remove_first
without_first name callees = elim (remove_first name callees) [
  | none ↦ callees
  | some (_, rest) ↦ rest
]

-- The optional step 3 of `check_noir_blobs` on the callees that are left.
unfoldable pub check_withdraw_callees : Bytes → List Blob → Result Error (List Blob)
unfolding without_first
check_withdraw_callees name callees = do
  let withdraw_callees = filter (λ b. bytes_eq b.contract_name name) callees
  guard (not (ltb 1 (length withdraw_callees))) multiple_withdraws
  let left = without_first name callees
  guard (is_empty left) unexpected_callees
  ok left

module _ (C : SparseMerkleTree) where
  open C use {MerkleProof, recompute}

  -- `compute_root`; the `expect` of `commit` is a panic on its error.
  unfoldable pub compute_root : ZkVmWitnessVec MerkleProof → Result Error H256
  compute_root w = elim w.proof [
    | current_root_hash root ↦ ok root
    | merkle p ↦ do
      let leaves = map (λ (v : WitnessLeaf). (v.key, v.value)) w.values
      guard (not (is_empty leaves)) empty_witness
      map_err (λ _. root_failed) (recompute p leaves)
  ]

  unfoldable pub commit : HyliUtxoZkVmState MerkleProof → Result Error Bytes
  unfolding compute_root
  commit s = do
    notes_root ← compute_root s.created_notes
    nullified_root ← compute_root s.nullified_notes
    ok (notes_root ++ nullified_root)

  -- `HyliUtxoZkVmState::new`.
  unfoldable pub new_zkvm_state : ContractConfig → HyliUtxoZkVmState MerkleProof
  new_zkvm_state config = record {
    created_notes = with_root h256_zero;
    nullified_notes = with_root h256_zero;
    config = config;
    roots = replicate max_roots (replicate 8 0);
  }

  unfoldable pub apply_action :
      HyliUtxoZkVmState MerkleProof → Calldata → Result Error (HyliUtxoZkVmState MerkleProof)
  apply_action s calldata = do
    blob ← ok_or (find_blob s.config.utxo_contract_name calldata.blobs) utxo_blob_missing
    parsed ← parse_hyli_utxo_blob blob.payload
    let created = filter_keys (parsed.output_notes.0 ∷ parsed.output_notes.1 ∷ []) false
    let nullified = filter_keys (parsed.nullifiers.0 ∷ parsed.nullifiers.1 ∷ []) true
    guard (length s.created_notes.values == length created) notes_witness_size
    guard (length s.nullified_notes.values == length nullified) nullified_witness_size
    ok (record {
      created_notes = record {
        values = set_values s.created_notes.values created;
        proof = s.created_notes.proof;
      };
      nullified_notes = record {
        values = set_values s.nullified_notes.values nullified;
        proof = s.nullified_notes.proof;
      };
      config = s.config;
      roots = s.roots;
    })

  module _ (S : Sdk) where
    unfoldable pub check_noir_blobs :
        HyliUtxoZkVmState MerkleProof → Calldata → ExecutionContext → Result Error ExecutionContext
    unfolding check_withdraw_callees
    check_noir_blobs s calldata ctx = do
      hyli_utxo_blob ←
          ok_or (find_blob s.config.utxo_contract_name calldata.blobs) utxo_blob_missing
      (smt_incl_blob, callees) ←
          ok_or (remove_first s.config.smt_incl_proof_contract_name ctx.callees_blobs)
            smt_blob_missing
      payload ← ok_or (S.structured_parameters smt_incl_blob.payload) smt_blob_not_structured
      smt ← parse_hyli_smt_incl_blob payload
      guard (contains_root smt.notes_root_fingerprint s.roots) root_mismatch
      utxo ← parse_hyli_utxo_blob hyli_utxo_blob.payload
      guard (bytes_eq utxo.nullifiers.0 smt.nullifier0) nullifier_0_mismatch
      guard (bytes_eq utxo.nullifiers.1 smt.nullifier1) nullifier_1_mismatch
      left ← check_withdraw_callees s.config.smt_contract_name callees
      ok (record { callees_blobs = left })

    -- `execute`: the new state and the context that is returned with it. The state is written in
    -- `apply_action` alone, behind its last check, so an error leaves it as it was.
    unfoldable pub execute :
        HyliUtxoZkVmState MerkleProof
        → Calldata
        → Result Error (HyliUtxoZkVmState MerkleProof × ExecutionContext)
    execute s calldata = do
      ctx ← S.parse_calldata calldata
      ensure_all_zero s.created_notes
      ensure_all_zero s.nullified_notes
      ctx' ← check_noir_blobs s calldata ctx
      s' ← apply_action s calldata
      ok (s', ctx')
