-- ===== src/Server/Finalize/Order.antt =====
-- The order of the calls of `finalize_transfer` of server/src/api.rs.
use cachecash.Prelude.{
  ◌≡◌, ◌⊎◌, inl, inr, refl, Option, none, some, List, [], ◌∷◌, ◌++◌, Bytes, ok, err, ok_or, guard,
  Bool-cases, Result-cases, ap, is_some,
}
use cachecash.Server.ApiError.{
  ApiError, bad_request, internal, invalid_proof, send_blob_failed, send_utxo_proof_failed,
  send_smt_proof_failed, Message,
}
use cachecash.Server.Blobs
use cachecash.Server.Transfer.{
  Node, ProofTransaction, send_tx_blob, send_tx_proof, Handled, lift, ◌>>=!◌,
  FinalizeTransferRequest, SmtBlobInfo, submit_blob, submit_for, public_inputs_bytes,
}
use cachecash.Server.Finalize.{prepare, submit_proofs, finalize_transfer, smt_proof_with_inputs}
use cachecash.Server.Finalize.InOrder.{
  Kind, blob_call, proof_call, InOrder, IsAnswer, lift-InOrder, called-InOrder,
}

module _ (X : Blobs.External) (N : Node) where
  module _ {B : Type 0} (Q : B → Type 0) (ks : List Kind) where
    submit_blob-InOrder :
        (tx : Blobs.BlobTransaction) (next : Bytes → Handled B)
        → ((hash : Bytes) → InOrder N Q ks (next hash))
        → InOrder N Q (blob_call tx ∷ ks) (submit_blob X N tx >>=! next)
    unfolding submit_blob
    submit_blob-InOrder tx next h =
        called-InOrder N Q (send_tx_blob tx) _ ks next (answer (N.blob_answer tx) refl) h
      where
        answer :
            (a : Option Bytes)
            → N.blob_answer tx ≡ a
            → IsAnswer N Q (send_tx_blob tx) (ok_or (N.blob_answer tx) (internal send_blob_failed))
        answer none e = rw e (ap is_some e)
        answer (some hash) e = rw e (ap is_some e)

    submit_for-InOrder :
        (contract_name program_id proof : Bytes) (failed : Message) (next : Unit {0} → Handled B)
        → ((done : Unit {0}) → InOrder N Q ks (next done))
        → InOrder N Q
            (proof_call contract_name ∷ ks)
            (submit_for X N contract_name program_id proof failed >>=! next)
    unfolding submit_for
    submit_for-InOrder contract_name program_id proof failed next h =
        let tx : ProofTransaction = record {
          contract_name = contract_name;
          program_id = program_id;
          verifier = N.noir;
          proof = proof;
        } in
        elim (Bool-cases (N.proof_answer tx)) [
          | inl taken ↦ called-InOrder N Q (send_tx_proof tx) _ ks next (rw (taken, guard) taken) h
          | inr refused ↦
              called-InOrder N Q (send_tx_proof tx) _ ks next (rw (refused, guard) refused) h
        ]

  module _ (state : Blobs.RouterCtx) where
    abbrev pub utxo_call : Kind
    utxo_call = proof_call (state.utxo_contract_name)

    abbrev pub incl_call : Kind
    incl_call = proof_call (state.smt_incl_proof_contract_name)

    -- The calls for the two proofs.
    abbrev pub both_proofs : List Kind
    both_proofs = utxo_call ∷ incl_call ∷ []

    -- The steps of `submit_proofs`, from the last one on.
    abbrev incl_step : Bytes → Bytes → Handled Bytes
    incl_step tx_hash smt_proof =
        submit_for X N (state.smt_incl_proof_contract_name) (N.hyli_smt_incl_proof_vk) smt_proof
          send_smt_proof_failed
        >>=! λ sent. lift (ok tx_hash)

    abbrev smt_step : Bytes → Option SmtBlobInfo → FinalizeTransferRequest → Handled Bytes
    smt_step tx_hash info request =
        lift (smt_proof_with_inputs X N state tx_hash info request) >>=! incl_step tx_hash

    abbrev utxo_step : Bytes → Option SmtBlobInfo → FinalizeTransferRequest → Bytes → Handled Bytes
    utxo_step tx_hash info request proof_bytes =
        submit_for X N (state.utxo_contract_name) (N.hyli_utxo_noir_vk)
          (public_inputs_bytes X N (request.public_inputs) ++ proof_bytes) send_utxo_proof_failed
        >>=! λ sent. smt_step tx_hash info request

    module _ (tx_hash : Bytes) where
      abbrev IsHash : Bytes → Type 0
      IsHash hash = hash ≡ tx_hash

      incl_step-InOrder :
          (smt_proof : Bytes) → InOrder N IsHash (incl_call ∷ []) (incl_step tx_hash smt_proof)
      incl_step-InOrder smt_proof =
          submit_for-InOrder IsHash [] (state.smt_incl_proof_contract_name)
            (N.hyli_smt_incl_proof_vk) smt_proof send_smt_proof_failed _ (λ sent. refl)

      smt_step-InOrder :
          (info : Option SmtBlobInfo) (request : FinalizeTransferRequest)
          → InOrder N IsHash (incl_call ∷ []) (smt_step tx_hash info request)
      smt_step-InOrder info request =
          lift-InOrder N IsHash incl_call [] (smt_proof_with_inputs X N state tx_hash info request)
            (incl_step tx_hash) incl_step-InOrder

      utxo_step-InOrder :
          (info : Option SmtBlobInfo) (request : FinalizeTransferRequest) (proof_bytes : Bytes)
          → InOrder N IsHash both_proofs (utxo_step tx_hash info request proof_bytes)
      utxo_step-InOrder info request proof_bytes =
          submit_for-InOrder IsHash (incl_call ∷ []) (state.utxo_contract_name)
            (N.hyli_utxo_noir_vk) (public_inputs_bytes X N (request.public_inputs) ++ proof_bytes)
            send_utxo_proof_failed _ (λ sent. smt_step-InOrder info request)

      submit_proofs-InOrder :
          (info : Option SmtBlobInfo) (request : FinalizeTransferRequest)
          → InOrder N IsHash both_proofs (submit_proofs X N state tx_hash info request)
      unfolding submit_proofs
      submit_proofs-InOrder info request =
          lift-InOrder N IsHash utxo_call (incl_call ∷ [])
            (ok_or (N.base64_decode (request.proof)) (bad_request invalid_proof))
            (utxo_step tx_hash info request) (utxo_step-InOrder info request)

    -- What follows a request that is prepared.
    abbrev rest_of : FinalizeTransferRequest → Blobs.BuiltBlob → Option SmtBlobInfo → Handled Bytes
    rest_of request built info = submit_blob X N (built.transaction) >>=! λ answered.
        submit_proofs X N state (N.hashed (built.transaction)) info request

    prepared_calls :
        (request : FinalizeTransferRequest) (built : Blobs.BuiltBlob) (info : Option SmtBlobInfo)
        → prepare X N state request ≡ ok (built, info)
        → finalize_transfer X N state request ≡ rest_of request built info
    unfolding finalize_transfer
    prepared_calls request built info e = rw (e, finalize_transfer) refl

    prepared-InOrder :
        (request : FinalizeTransferRequest) (built : Blobs.BuiltBlob) (info : Option SmtBlobInfo)
        → InOrder N
            (λ hash. hash ≡ N.hashed built.transaction)
            (blob_call built.transaction ∷ both_proofs)
            (rest_of request built info)
    prepared-InOrder request built info =
        submit_blob-InOrder (λ hash. hash ≡ N.hashed (built.transaction)) both_proofs
          (built.transaction) _
          (λ answered. submit_proofs-InOrder (N.hashed (built.transaction)) info request)

    -- `finalize_transfer` either refuses the request before it calls the node, or it calls the node
    -- with the blob transaction, then with a proof for the UTXO contract, then with one for the
    -- inclusion contract. A call that the node refuses is the last one, and the handler fails. When
    -- the node takes all three it succeeds, with the hash of that transaction; and it fails when it
    -- stops before one of them.
    pub finalize_transfer-InOrder :
        (request : FinalizeTransferRequest)
        → ((e : ApiError) × (prepare X N state request ≡ err e)
            × (finalize_transfer X N state request ≡ ([], err e)))
          ⊎ ((built : Blobs.BuiltBlob) × (info : Option SmtBlobInfo) × (prepare X N state request
                ≡ ok (built, info))
              × InOrder N
                  (λ hash. hash ≡ N.hashed built.transaction)
                  (blob_call built.transaction ∷ both_proofs)
                  (finalize_transfer X N state request))
    unfolding finalize_transfer
    finalize_transfer-InOrder request = elim (Result-cases (prepare X N state request)) [
      | inr (e, refused) ↦ inl (e, refused, rw (refused, finalize_transfer) refl)
      | inl ((built, info), prepared) ↦ inr (
        built,
        info,
        prepared,
        rw (prepared_calls request built info prepared) (prepared-InOrder request built info),
      )
    ]
