-- ===== src/Contract/Refinement.antt =====
-- The zkVM against the full state: what contracts/hyli-utxo-state proves about a transaction is
-- what server/src/hyli_utxo_state_client.rs computes.
use cachecash.Prelude.{◌≡◌, true, false, ok, arith}
use cachecash.Contract.Smt.{SparseMerkleTree, SmtLaws}
use cachecash.Contract.Blob.{SeparatedHyliUtxoBlob}
use cachecash.Contract.State.{
  filter_keys, HyliUtxoZkVmState, HyliUtxoState, build_witness, to_zkvm_state, commitment,
}
use cachecash.Contract.ZkVm.{
  Sdk, Calldata, ExecutionContext, set_values, ensure_all_zero, commit, apply_action,
  check_noir_blobs, execute,
}
use cachecash.Contract.Batch.{
  HyliUtxoZkVmBatch, from_state, advance_step, on_success, execute_batch,
}
use cachecash.Contract.Executor.{
  HyliUtxoStateExecutor, zkvm_witness, utxo_commitments, both, update_from_blob,
  build_commitment_metadata,
}
use cachecash.Contract.Applied.{Applied, update_from_blob-Applied}
use cachecash.Contract.Witness.{
  build_witness-length, build_witness-all_zero, build_witness-root, build_witness-updated_root,
}

module _ (C : SparseMerkleTree) where
  open C use {Tree, MerkleProof, tree_root}

  -- The witness of a transaction is a witness for each tree.
  record IsWitness (e : HyliUtxoStateExecutor C) (parsed : SeparatedHyliUtxoBlob)
      (w : HyliUtxoZkVmState MerkleProof) : Type 0 where
    created :
        build_witness C e.state.notes_tree (filter_keys (both parsed.output_notes) false)
        ≡ ok w.created_notes
    nullified :
        build_witness C e.state.nullified_tree (filter_keys (both parsed.nullifiers) true)
        ≡ ok w.nullified_notes
    config : w.config ≡ e.config

  build_commitment_metadata-IsWitness :
      (e : HyliUtxoStateExecutor C) (calldata : Calldata) {parsed : SeparatedHyliUtxoBlob}
      {b : HyliUtxoZkVmBatch C}
      → utxo_commitments e.config calldata ≡ ok parsed
      → build_commitment_metadata C e calldata ≡ ok b
      → IsWitness e parsed b.current
  unfolding build_commitment_metadata zkvm_witness to_zkvm_state from_state
  build_commitment_metadata-IsWitness e calldata p h = ground arith

  -- The state after `apply_action` on a witness.
  written : HyliUtxoZkVmState MerkleProof → SeparatedHyliUtxoBlob → HyliUtxoZkVmState MerkleProof
  written w parsed = record w {
    created_notes = record {
      values = set_values w.created_notes.values (filter_keys (both parsed.output_notes) false);
      proof = w.created_notes.proof;
    };
    nullified_notes = record {
      values = set_values w.nullified_notes.values (filter_keys (both parsed.nullifiers) true);
      proof = w.nullified_notes.proof;
    };
  }

  apply_action-written :
      (e : HyliUtxoStateExecutor C) (calldata : Calldata) {parsed : SeparatedHyliUtxoBlob}
      {w : HyliUtxoZkVmState MerkleProof}
      → utxo_commitments e.config calldata ≡ ok parsed
      → IsWitness e parsed w
      → apply_action C w calldata ≡ ok (written w parsed)
  unfolding apply_action written utxo_commitments
  apply_action-written e calldata {parsed} {w} p i =
      ground (arith, build_witness-length C _ _ i.created, build_witness-length C _ _ i.nullified)

  module _ (L : SmtLaws C) where
    -- The commitments of a witness before and after its values are written.
    witness-commit :
        (e : HyliUtxoStateExecutor C) (parsed : SeparatedHyliUtxoBlob)
        (w : HyliUtxoZkVmState MerkleProof) (s' : HyliUtxoState C)
        → IsWitness e parsed w
        → Applied C e.state s' (both parsed.nullifiers) (both parsed.output_notes)
        → (commit C w ≡ ok (commitment C e.state))
          × (commit C (written w parsed) ≡ ok (commitment C s'))
    unfolding commit commitment written
    witness-commit e parsed w s' i a = (
      rw (
        build_witness-root C L _ _ i.created a.notes.distinct,
        build_witness-root C L _ _ i.nullified a.nullifiers.distinct,
      ),
      rw (
        build_witness-updated_root C L _ _ _ i.created a.notes.distinct a.notes.written,
        build_witness-updated_root C L _ _ _ i.nullified a.nullifiers.distinct a.nullifiers.written,
      ),
    )

    -- `execute` on a witness goes through when the blobs pass their checks.
    execute-written :
        (S : Sdk) (e : HyliUtxoStateExecutor C) (calldata : Calldata)
        (parsed : SeparatedHyliUtxoBlob) (w : HyliUtxoZkVmState MerkleProof) (s' : HyliUtxoState C)
        {ctx ctx' : ExecutionContext}
        → utxo_commitments e.config calldata ≡ ok parsed
        → IsWitness e parsed w
        → Applied C e.state s' (both parsed.nullifiers) (both parsed.output_notes)
        → S.parse_calldata calldata ≡ ok ctx
        → check_noir_blobs C S w calldata ctx ≡ ok ctx'
        → execute C S w calldata ≡ ok (written w parsed, ctx')
    unfolding execute ensure_all_zero
    execute-written S e calldata parsed w s' p i a pc ch = rw (
      pc,
      build_witness-all_zero C _ _ i.created a.notes.absent,
      build_witness-all_zero C _ _ i.nullified a.nullifiers.absent,
      ch,
      apply_action-written e calldata p i,
    )

    -- Let the full state accept a transaction, let its witness have been built before, and let the
    -- blobs pass the checks in the zkVM. Then the zkVM executes the transaction on the witness; it
    -- commits to the full state's commitment before it, and, as the settled result, to the full
    -- state's commitment after it.
    pub execute-refines-update_from_blob :
        (S : Sdk) (e : HyliUtxoStateExecutor C) (calldata : Calldata)
        {parsed : SeparatedHyliUtxoBlob} {b : HyliUtxoZkVmBatch C} {ctx ctx' : ExecutionContext}
        → build_commitment_metadata C e calldata ≡ ok b
        → (update_from_blob C e calldata).1 ≡ ok parsed
        → S.parse_calldata calldata ≡ ok ctx
        → check_noir_blobs C S b.current calldata ctx ≡ ok ctx'
        → let e' = (update_from_blob C e calldata).0 in
          (commit C b.current ≡ ok (commitment C e.state))
          × ((b' : HyliUtxoZkVmBatch C) × (execute_batch C S b calldata ≡ ok (b', ctx'))
              × (on_success C b' ≡ ok (commitment C e'.state, advance_step C b')))
    unfolding execute_batch on_success
    execute-refines-update_from_blob S e calldata {parsed} {b} m u pc ch =
        let (p, a) = update_from_blob-Applied C L e calldata u in
        let i = build_commitment_metadata-IsWitness e calldata p m in
        let (before, after) = witness-commit e parsed b.current _ i a in
        (
          before,
          (
            record b { current = written b.current parsed },
            rw (execute-written S e calldata parsed b.current _ p i a pc ch),
            rw after,
          ),
        )
