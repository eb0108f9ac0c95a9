-- ===== src/Server/ProofJobs.antt =====
-- server/src/noir_prover.rs, server/src/smt_incl_prover.rs and server/src/prover.rs: how a job
-- becomes a proof on the chain. The prover of the circuits, the split of a proof's public inputs,
-- the parser of these and the node are the record `Proving`.
use cachecash.Prelude.{
  ℕ, Bool, not, Option, List, [], ◌∷◌, Bytes, ltb, Result, ok, err, ◌>>=◌, ◌>>◌, guard, ok_or,
}
use cachecash.Server.Prover.{
  ProverError, index_out_of_bounds, not_proved, not_split, not_submitted, HyliUtxo, HyliSmtIncl,
  HyliUtxoProofJob, SmtInclProofJob, build_hyli_utxo, build_hyli_smt_incl,
}
use cachecash.Server.Transfer.{ProofTransaction}
pub mod Sending

-- `prove_utxo` and `prove_incl` give the bytes of a proof.
pub record Proving : Type 1 where
  pub HyliOutput : Type 0
  pub prove_utxo : HyliUtxo → Option Bytes
  pub prove_incl : HyliSmtIncl → Option Bytes
  pub split_public_inputs : Bytes → Bytes → Option Bytes
  pub parse_noir_output : Bytes → Option HyliOutput
  pub send_tx_proof : ProofTransaction → Bool
  pub hex_encode : Bytes → Bytes
  pub noir : Bytes

-- `ContractDeployment`, by what the provers read.
pub record ContractDeployment : Type 0 where
  pub contract_name : Bytes
  pub program_id : Bytes

pub record NoirProofArtifacts : Type 0 where
  pub proof : Bytes
  pub program_id : Bytes

module _ (P : Proving) where
  unfoldable pub build_proof_transaction :
      ContractDeployment
      → NoirProofArtifacts
      → Result ProverError (ProofTransaction × List P.HyliOutput)
  build_proof_transaction contract artifacts = do
    public_inputs ← ok_or (P.split_public_inputs artifacts.proof artifacts.program_id) not_split
    output ← ok_or (P.parse_noir_output public_inputs) not_split
    ok (
      record {
        contract_name = contract.contract_name;
        program_id = artifacts.program_id;
        verifier = P.noir;
        proof = artifacts.proof;
      },
      output ∷ [],
    )

  -- What follows the proof: the transaction for the node.
  unfoldable pub proof_transaction :
      ContractDeployment → Bytes → Result ProverError ProofTransaction
  unfolding build_proof_transaction
  proof_transaction contract proof = do
    (tx, outputs) ←
        build_proof_transaction contract
          (record { proof = proof; program_id = contract.program_id })
    ok tx

  -- The transaction for a job of the UTXO proof.
  unfoldable pub prepare_utxo_proof :
      ContractDeployment → HyliUtxoProofJob → Result ProverError ProofTransaction
  unfolding proof_transaction
  prepare_utxo_proof contract job = do
    hyli_utxo ← build_hyli_utxo P.hex_encode contract.contract_name job
    guard (not (ltb job.tx_blob_count job.blob_index))
        (index_out_of_bounds job.blob_index job.tx_blob_count)
    proof ← ok_or (P.prove_utxo hyli_utxo) not_proved
    proof_transaction contract proof

  -- The transaction for a job of the inclusion proof.
  unfoldable pub prepare_incl_proof :
      ContractDeployment → SmtInclProofJob → Result ProverError ProofTransaction
  unfolding proof_transaction
  prepare_incl_proof contract job = do
    hyli_smt_incl ← build_hyli_smt_incl P.hex_encode contract.contract_name job
    guard (not (ltb job.tx_blob_count job.blob_index))
        (index_out_of_bounds job.blob_index job.tx_blob_count)
    proof ← ok_or (P.prove_incl hyli_smt_incl) not_proved
    proof_transaction contract proof

  -- The end of `execute_proof_job`: the transactions that the node gets, and the result.
  unfoldable pub submit :
      Result ProverError ProofTransaction → List ProofTransaction × Result ProverError (Unit {0})
  submit (err e) = ([], err e)
  submit (ok tx) = (tx ∷ [], guard (P.send_tx_proof tx) not_submitted)

  -- `HyliUtxoNoirProver::execute_proof_job`.
  unfoldable pub execute_utxo_job :
      ContractDeployment → HyliUtxoProofJob → List ProofTransaction × Result ProverError (Unit {0})
  unfolding prepare_utxo_proof submit
  execute_utxo_job contract job = submit (prepare_utxo_proof contract job)

  -- `HyliSmtInclNoirProver::execute_proof_job`.
  unfoldable pub execute_incl_job :
      ContractDeployment → SmtInclProofJob → List ProofTransaction × Result ProverError (Unit {0})
  unfolding prepare_incl_proof submit
  execute_incl_job contract job = submit (prepare_incl_proof contract job)
