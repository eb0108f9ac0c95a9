-- ===== src/Server/ProofJobs/Sending.antt =====
-- What server/src/noir_prover.rs sends to the node for a job.
use cachecash.Prelude.{
  subst, ok_inj, ok_or-ok, guard-ok, sym, ℕ, ◌≤◌, ◌≡◌, ◌⊎◌, inl, inr, refl, ap, true, not, some, [],
  ◌∷◌, Bytes, ltb, ok, err, guard, ok_or, arith, Result-cases, >>=-eq-ok,
}
use cachecash.Server.Prover.{
  ProverError, not_proved, not_submitted, not_split, index_out_of_bounds, HyliUtxo,
  HyliUtxoProofJob, build_hyli_utxo, build_call,
}
use cachecash.Server.Prover.Witnesses.{Carries, Carries-built}
use cachecash.Server.Transfer.{ProofTransaction}
use cachecash.Server.ProofJobs.{
  Proving, ContractDeployment, build_proof_transaction, proof_transaction, prepare_utxo_proof,
  submit, execute_utxo_job,
}

within : (a b : ℕ) → not (ltb a b) ≡ true → b ≤ a
within a b h = ground arith

module _ (P : Proving) (contract : ContractDeployment) where
  abbrev pub tx_of : Bytes → ProofTransaction
  tx_of proof = record {
    contract_name = contract.contract_name;
    program_id = contract.program_id;
    verifier = P.noir;
    proof = proof;
  }

  proof_transaction-ok :
      (proof : Bytes) (tx : ProofTransaction)
      → proof_transaction P contract proof ≡ ok tx
      → (tx_of proof ≡ tx)
        × (inputs : Bytes) × (P.split_public_inputs proof contract.program_id ≡ some inputs)
  unfolding proof_transaction build_proof_transaction
  proof_transaction-ok proof tx h =
      let ((tx', outputs), first, second) = >>=-eq-ok (build_proof_transaction P contract _) _ h in
      let (inputs, split, third) =
        >>=-eq-ok (ok_or (P.split_public_inputs proof (contract.program_id)) not_split) _ first in
      let (output, parsed, fourth) =
        >>=-eq-ok (ok_or (P.parse_noir_output inputs) not_split) _ third in
      (cc (second, fourth), inputs, ok_or-ok _ _ split)

  build_hyli_utxo-ok :
      (job : HyliUtxoProofJob) (h : HyliUtxo)
      → build_hyli_utxo P.hex_encode contract.contract_name job ≡ ok h
      → Carries job.identity contract.contract_name job.blob job.tx_blob_count job.blob_index h.call
        × (h.utxo ≡ job.utxo)
  unfolding build_hyli_utxo
  build_hyli_utxo-ok job h built =
      let (call, called, rest) =
        >>=-eq-ok
          (build_call (P.hex_encode) 128 (contract.contract_name) (job.tx_hash) (job.identity)
            (job.blob) (job.tx_blob_count) (job.blob_index))
          _ built in
      let same = ok_inj rest in
      (
        subst
            (λ c.
              Carries (job.identity) (contract.contract_name) (job.blob) (job.tx_blob_count)
                (job.blob_index) c)
            (ap (λ (x : HyliUtxo). x.call) same)
            (Carries-built (P.hex_encode) 128 (contract.contract_name) (job.tx_hash) (job.identity)
              (job.blob) (job.tx_blob_count) (job.blob_index) call called),
        ap (λ (x : HyliUtxo). x.utxo) (sym same),
      )

  -- The transaction that a job leads to, and how.
  abbrev pub IsProof : HyliUtxoProofJob → ProofTransaction → Type 0
  IsProof job tx =
      (h : HyliUtxo) × (proof : Bytes) × (inputs : Bytes) × Carries job.identity
        contract.contract_name job.blob job.tx_blob_count job.blob_index h.call
      × (h.utxo ≡ job.utxo)
      × (job.blob_index ≤ job.tx_blob_count)
      × (P.prove_utxo h ≡ some proof)
      × (P.split_public_inputs proof contract.program_id ≡ some inputs)
      × (tx_of proof ≡ tx)

  prepare_utxo_proof-IsProof :
      (job : HyliUtxoProofJob) (tx : ProofTransaction)
      → prepare_utxo_proof P contract job ≡ ok tx
      → IsProof job tx
  unfolding prepare_utxo_proof
  prepare_utxo_proof-IsProof job tx e =
      let (h, built, e1) =
        >>=-eq-ok (build_hyli_utxo (P.hex_encode) (contract.contract_name) job) _ e in
      let (done, bounded, e2) =
        >>=-eq-ok
          (guard (not (ltb (job.tx_blob_count) (job.blob_index)))
            (index_out_of_bounds (job.blob_index) (job.tx_blob_count)))
          _ e1 in
      let (proof, proved, e3) = >>=-eq-ok (ok_or (P.prove_utxo h) not_proved) _ e2 in
      let (same, inputs, split) = proof_transaction-ok proof tx e3 in
      let (carries, utxo) = build_hyli_utxo-ok job h built in
      (
        h,
        proof,
        inputs,
        carries,
        utxo,
        within _ _ (guard-ok _ _ bounded),
        ok_or-ok _ _ proved,
        split,
        same,
      )

  -- A job of the UTXO proof either fails before anything is sent to the node, or it sends one
  -- transaction, for the contract and its key: that of a proof that was made for the blob, the
  -- identity and the UTXO transaction of the job, with an index that is not above the number of
  -- blobs. It then succeeds exactly when the node takes that transaction.
  pub execute_utxo_job-cases :
      (job : HyliUtxoProofJob)
      → ((e : ProverError) × (prepare_utxo_proof P contract job ≡ err e)
          × (execute_utxo_job P contract job ≡ ([], err e)))
        ⊎ ((tx : ProofTransaction) × IsProof job tx
            × (execute_utxo_job P contract job
                ≡ (tx ∷ [], guard (P.send_tx_proof tx) not_submitted)))
  unfolding execute_utxo_job submit
  execute_utxo_job-cases job = elim (Result-cases (prepare_utxo_proof P contract job)) [
    | inl (tx, prepared) ↦
        inr (tx, prepare_utxo_proof-IsProof job tx prepared, rw (prepared, submit) refl)
    | inr (e, refused) ↦ inl (e, refused, rw (refused, submit) refl)
  ]
