-- ===== src/Contract/Batch.antt =====
-- contracts/hyli-utxo-state/src/state.rs: `HyliUtxoZkVmBatch`, the witnesses of several
-- transactions that are proved together. `remaining` is a stack: its last element comes next.
use cachecash.Prelude.{Option, none, some, List, [], ◌∷◌, ◌++◌, Bytes, Result, ok, ◌>>=◌}
use cachecash.Contract.Smt.{SparseMerkleTree}
use cachecash.Contract.Blob.{Error}
use cachecash.Contract.State.{HyliUtxoZkVmState}
use cachecash.Contract.ZkVm.{Sdk, Calldata, ExecutionContext, execute, commit, new_zkvm_state}

-- `Vec::pop`: the last element, and the others.
unfoldable pub pop {ℓ} : {A : Type ℓ} → List A → Option (A × List A)
pop [] = none
pop (x ∷ xs) = elim (pop xs) [ none ↦ some (x, []) | some (last, others) ↦ some (last, x ∷ others) ]

module _ (C : SparseMerkleTree) where
  open C use {MerkleProof}

  pub record HyliUtxoZkVmBatch : Type 0 where
    pub current : HyliUtxoZkVmState MerkleProof
    pub remaining : List (HyliUtxoZkVmState MerkleProof)

  unfoldable pub from_state : HyliUtxoZkVmState MerkleProof → HyliUtxoZkVmBatch
  from_state state = record { current = state; remaining = [] }

  unfoldable pub extend_with : HyliUtxoZkVmBatch → HyliUtxoZkVmBatch → HyliUtxoZkVmBatch
  extend_with b next = record b { remaining = next.remaining ++ (next.current ∷ []) ++ b.remaining }

  unfoldable pub advance_step : HyliUtxoZkVmBatch → HyliUtxoZkVmBatch
  unfolding pop
  advance_step b = elim (pop b.remaining) [
    | some (next, rest) ↦ record { current = next; remaining = rest }
    | none ↦ record { current = new_zkvm_state C b.current.config; remaining = b.remaining }
  ]

  -- `revert`: the state that `initial_state` had copied.
  unfoldable pub revert : HyliUtxoZkVmBatch → HyliUtxoZkVmBatch → HyliUtxoZkVmBatch
  revert b initial = initial

  -- `on_success`: the commitment of the step that was executed, and the batch at the next step.
  unfoldable pub on_success : HyliUtxoZkVmBatch → Result Error (Bytes × HyliUtxoZkVmBatch)
  on_success b = do commitment ← commit C b.current; ok (commitment, advance_step b)

  -- `ZkContract::execute` on the current witness.
  unfoldable pub execute_batch :
      Sdk → HyliUtxoZkVmBatch → Calldata → Result Error (HyliUtxoZkVmBatch × ExecutionContext)
  execute_batch S b calldata = do
    (s, ctx) ← execute C S b.current calldata
    ok (record b { current = s }, ctx)
