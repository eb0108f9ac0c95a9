-- ===== src/Server/Finalize.antt =====
-- server/src/api.rs: `finalize_transfer`, with the inclusion proof of the client or of the server.
use cachecash.Prelude.{
  ℕ, ◌+◌, Bool, true, false, Option, none, some, List, [], ◌∷◌, ◌++◌, Bytes, length, ◌==◌, Result,
  ok, err, ◌>>=◌, ◌>>◌, guard, ok_or, map_err, is_some,
}
use cachecash.Zk.Note.{InputNote}
use cachecash.Server.Validation.{strip_0x}
use cachecash.Server.ApiError.{
  ApiError, bad_request, internal, blob_data_length, siblings_length, input_notes_required,
  siblings_required, smt_public_inputs_required, invalid_secret_key, invalid_sibling, invalid_proof,
  invalid_smt_proof, send_utxo_proof_failed, send_smt_proof_failed, witness_failed, proving_failed,
  smt_blob_info_missing,
}
use cachecash.Server.Blobs
use cachecash.Server.Prover
use cachecash.Server.Transfer.{
  Node, Handled, lift, ◌>>=!◌, FinalizeTransferRequest, SmtBlobInfo, public_inputs_bytes,
  submit_blob, submit_for, smt_blob_info,
}
pub mod InOrder
pub mod Order

module _ (X : Blobs.External) (N : Node) where
  -- `parse_siblings`.
  unfoldable pub parse_siblings : List Bytes → Result ApiError (List ℕ)
  parse_siblings [] = ok []
  parse_siblings (hex_str ∷ hex_strs) = do
    bytes ← ok_or (X.hex_decode (strip_0x hex_str)) (bad_request invalid_sibling)
    rest ← parse_siblings hex_strs
    ok (N.from_be_bytes_reduce bytes ∷ rest)

  -- An input note with its parsed secret key.
  unfoldable pub zk_input_note : Blobs.InputNoteData → Result ApiError InputNote
  zk_input_note input = do
    secret_key ← ok_or (Blobs.element_from_str X input.secret_key) (bad_request invalid_secret_key)
    ok (record { note = input.note; secret_key = secret_key })

  -- The three required fields of the request.
  unfoldable pub required :
      FinalizeTransferRequest
      → Result ApiError ((Blobs.InputNoteData × Blobs.InputNoteData) × (List Bytes × List Bytes))
  required request = do
    input_notes ← ok_or request.blob.input_notes (bad_request input_notes_required)
    siblings_0 ← ok_or request.siblings_0 (bad_request siblings_required)
    siblings_1 ← ok_or request.siblings_1 (bad_request siblings_required)
    guard (length siblings_0 == 256) (bad_request (siblings_length (length siblings_0)))
    guard (length siblings_1 == 256) (bad_request (siblings_length (length siblings_1)))
    ok (input_notes, (siblings_0, siblings_1))

  module _ (state : Blobs.RouterCtx) where
    unfoldable pub generate_smt_proof :
        Bytes → SmtBlobInfo → FinalizeTransferRequest → Result ApiError Bytes
    unfolding parse_siblings zk_input_note required
    generate_smt_proof tx_hash info request = do
      (input_notes, (siblings_0_hex, siblings_1_hex)) ← required request
      note_0 ← zk_input_note (input_notes.0)
      note_1 ← zk_input_note (input_notes.1)
      sib_0 ← parse_siblings siblings_0_hex
      sib_1 ← parse_siblings siblings_1_hex
      witness ←
          map_err (λ _. internal witness_failed)
            (Prover.build_hyli_smt_incl N.hex_encode state.smt_incl_proof_contract_name (record {
              tx_hash = tx_hash;
              identity = info.identity;
              blob = info.blob_payload;
              tx_blob_count = info.tx_blob_count;
              blob_index = info.smt_blob_index;
              input_notes = (note_0, note_1);
              siblings_0 = sib_0;
              siblings_1 = sib_1;
            }))
      ok_or (N.prove witness) (internal proving_failed)

    -- The information for a proof of the server's own, when the client gives none.
    unfoldable pub info_of :
        FinalizeTransferRequest → Blobs.BlobTransaction → Result ApiError (Option SmtBlobInfo)
    info_of request tx = elim request.smt_proof [
      | some given ↦ ok none
      | none ↦ do info ← smt_blob_info X N state tx; ok (some info)
    ]

    -- The inclusion proof with its public inputs; the `expect` on the information of the server's own
    -- proof is the error `smt_blob_info_missing`.
    unfoldable pub smt_proof_with_inputs :
        Bytes → Option SmtBlobInfo → FinalizeTransferRequest → Result ApiError Bytes
    unfolding generate_smt_proof
    smt_proof_with_inputs tx_hash info request = elim request.smt_proof [
      | some client_proof ↦ do
        smt_proof_bytes ← ok_or (N.base64_decode client_proof) (bad_request invalid_smt_proof)
        smt_pubs ← ok_or request.smt_public_inputs (bad_request smt_public_inputs_required)
        ok (public_inputs_bytes X N smt_pubs ++ smt_proof_bytes)
      | none ↦ do
        present ← ok_or info (internal smt_blob_info_missing)
        generate_smt_proof tx_hash present request
    ]

    -- What follows the blob transaction: the two proofs.
    unfoldable pub submit_proofs :
        Bytes → Option SmtBlobInfo → FinalizeTransferRequest → Handled Bytes
    unfolding smt_proof_with_inputs
    submit_proofs tx_hash info request =
        lift (ok_or (N.base64_decode request.proof) (bad_request invalid_proof)) >>=! λ proof_bytes.
        submit_for X N state.utxo_contract_name N.hyli_utxo_noir_vk
          (public_inputs_bytes X N request.public_inputs ++ proof_bytes) send_utxo_proof_failed
        >>=! λ sent. lift (smt_proof_with_inputs tx_hash info request) >>=! λ smt_proof.
            submit_for X N state.smt_incl_proof_contract_name N.hyli_smt_incl_proof_vk smt_proof
              send_smt_proof_failed
            >>=! λ sent. lift (ok tx_hash)

    -- What stands before the blob transaction.
    unfoldable pub prepare :
        FinalizeTransferRequest → Result ApiError (Blobs.BuiltBlob × Option SmtBlobInfo)
    unfolding info_of
    prepare request = do
      guard (length request.blob.blob_data == 128)
          (bad_request (blob_data_length (length request.blob.blob_data)))
      built ← Blobs.build_blob_transaction X state request.blob
      info ← info_of request built.transaction
      ok (built, info)

    unfoldable pub finalize_transfer : FinalizeTransferRequest → Handled Bytes
    unfolding prepare submit_proofs
    finalize_transfer request = lift (prepare request) >>=! λ prepared.
        submit_blob X N prepared.0.transaction >>=! λ answered.
        submit_proofs (N.hashed prepared.0.transaction) (prepared.1) request
