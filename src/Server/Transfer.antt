-- ===== src/Server/Transfer.antt =====
-- server/src/api.rs: the handlers that submit a transfer. A handler gives the calls of the node in
-- their order, and its result. The node, the prover and the decoders are the record `Node`.
use cachecash.Prelude.{
  ℕ, ◌+◌, Bool, Option, none, some, List, [], ◌∷◌, ◌++◌, Bytes, bytes_eq, length, ◌==◌, replicate,
  if◌then◌else◌, Result, ok, err, ◌>>=◌, ◌>>◌, guard, ok_or, is_empty, not,
}
use cachecash.Contract.ZkVm.{Blob}
use cachecash.Server.Validation.{strip_0x}
use cachecash.Server.ApiError.{
  ApiError, bad_request, internal, Message, blob_data_length, invalid_proof, invalid_smt_proof,
  send_blob_failed, send_utxo_proof_failed, send_smt_proof_failed, smt_blob_missing,
  smt_blob_length, empty_tx_hash,
}
use cachecash.Server.Blobs
use cachecash.Server.Prover

-- `ProofTransaction` of the SDK.
pub record ProofTransaction : Type 0 where
  pub contract_name : Bytes
  pub program_id : Bytes
  pub verifier : Bytes
  pub proof : Bytes

-- The calls of the client.
pub data NodeCall : Type 0 where
  send_tx_blob : Blobs.BlobTransaction → NodeCall
  send_tx_proof : ProofTransaction → NodeCall

-- What the node answers, the hash of a transaction, the prover, the decoders and the constants of
-- server/src/init.rs and of the SDK.
pub record Node : Type 0 where
  pub blob_answer : Blobs.BlobTransaction → Option Bytes
  pub proof_answer : ProofTransaction → Bool
  pub hashed : Blobs.BlobTransaction → Bytes
  pub prove : Prover.HyliSmtIncl → Option Bytes
  pub base64_decode : Bytes → Option Bytes
  pub hex_encode : Bytes → Bytes
  pub from_be_bytes_reduce : Bytes → ℕ
  pub hyli_utxo_noir_vk : Bytes
  pub hyli_smt_incl_proof_vk : Bytes
  pub noir : Bytes

-- A handler: the calls so far, and the result.
abbrev pub Handled : Type 0 → Type 0
Handled A = List NodeCall × Result ApiError A

infixl 5 ◌>>=!◌
abbrev pub ◌>>=!◌ : {A B : Type 0} → Handled A → (A → Handled B) → Handled B
(calls, err e) >>=! next = (calls, err e)
(calls, ok a) >>=! next = let (more, result) = next a in (calls ++ more, result)

-- A step that calls nothing.
abbrev pub lift : {A : Type 0} → Result ApiError A → Handled A
lift r = ([], r)

-- `FinalizeTransferRequest`, by the part that is a `CreateBlobRequest` and the rest.
pub record FinalizeTransferRequest : Type 0 where
  pub blob : Blobs.CreateBlobRequest
  pub proof : Bytes
  pub public_inputs : List Bytes
  pub smt_proof : Option Bytes
  pub smt_public_inputs : Option (List Bytes)
  pub siblings_0 : Option (List Bytes)
  pub siblings_1 : Option (List Bytes)

pub record SubmitProofRequest : Type 0 where
  pub tx_hash : Bytes
  pub proof : Bytes
  pub public_inputs : List Bytes
  pub smt_proof : Bytes
  pub smt_public_inputs : List Bytes

-- The inclusion blob, the identity, the number of blobs and the blob's index.
pub record SmtBlobInfo : Type 0 where
  pub blob_payload : Bytes
  pub identity : Bytes
  pub tx_blob_count : ℕ
  pub smt_blob_index : ℕ

-- `iter().enumerate().find(..)` by the contract's name.
unfoldable pub find_indexed : Bytes → ℕ → List Blob → Option (ℕ × Blob)
find_indexed name i [] = none
find_indexed name i (b ∷ bs) =
    let rest = find_indexed name (i + 1) bs in
    if bytes_eq b.contract_name name then some (i, b) else rest

module _ (X : Blobs.External) (N : Node) where
  -- The bytes of the public inputs: one that is not hexadecimal counts as 32 zeros.
  unfoldable pub public_inputs_bytes : List Bytes → Bytes
  public_inputs_bytes [] = []
  public_inputs_bytes (hex_str ∷ rest) =
      elim (X.hex_decode (strip_0x hex_str)) [ none ↦ replicate 32 0 | some bytes ↦ bytes ]
      ++ public_inputs_bytes rest

  -- `send_tx_blob`, whose failure is an internal error.
  unfoldable pub submit_blob : Blobs.BlobTransaction → Handled Bytes
  submit_blob tx = (send_tx_blob tx ∷ [], ok_or (N.blob_answer tx) (internal send_blob_failed))

  -- `send_tx_proof` of a proof for a contract and its key.
  unfoldable pub submit_for : Bytes → Bytes → Bytes → Message → Handled (Unit {0})
  submit_for contract_name program_id proof failed =
      let tx : ProofTransaction = record {
        contract_name = contract_name;
        program_id = program_id;
        verifier = N.noir;
        proof = proof;
      } in
      (send_tx_proof tx ∷ [], guard (N.proof_answer tx) (internal failed))

  module _ (state : Blobs.RouterCtx) where
    -- `create_blob`: the hash that the node answers, and the three payloads.
    unfoldable pub create_blob : Blobs.CreateBlobRequest → Handled (Bytes × List (Bytes × Bytes))
    unfolding submit_blob
    create_blob request =
        lift (
          guard (length request.blob_data == 128)
            (bad_request (blob_data_length (length request.blob_data))))
        >>=! λ checked. lift (Blobs.build_blob_transaction X state request) >>=! λ built.
            submit_blob built.transaction >>=! λ tx_hash. lift (
              ok (
                N.hex_encode tx_hash,
                (state.utxo_state_contract_name, N.hex_encode built.state_blob)
                    ∷ (state.utxo_contract_name, N.hex_encode built.hyli_utxo)
                    ∷ (state.smt_incl_proof_contract_name, N.hex_encode built.smt)
                    ∷ [],
              ))

    unfoldable pub hash_blob : Blobs.CreateBlobRequest → Result ApiError Bytes
    hash_blob request = do
      guard (length request.blob_data == 128)
          (bad_request (blob_data_length (length request.blob_data)))
      built ← Blobs.build_blob_transaction X state request
      ok (N.hashed built.transaction)

    unfoldable pub submit_proof : SubmitProofRequest → Handled Bytes
    unfolding submit_for public_inputs_bytes
    submit_proof request =
        lift (guard (not (is_empty request.tx_hash)) (bad_request empty_tx_hash)) >>=! λ checked.
        lift (ok_or (N.base64_decode request.proof) (bad_request invalid_proof)) >>=! λ proof_bytes.
        submit_for state.utxo_contract_name N.hyli_utxo_noir_vk
          (public_inputs_bytes request.public_inputs ++ proof_bytes) send_utxo_proof_failed
        >>=! λ sent.
            lift (ok_or (N.base64_decode request.smt_proof) (bad_request invalid_smt_proof))
            >>=! λ smt_proof_bytes.
                submit_for state.smt_incl_proof_contract_name N.hyli_smt_incl_proof_vk
                  (public_inputs_bytes request.smt_public_inputs ++ smt_proof_bytes)
                  send_smt_proof_failed
                >>=! λ sent. lift (ok request.tx_hash)

    -- The inclusion blob of the transaction, for a proof of the server's own.
    unfoldable pub smt_blob_info : Blobs.BlobTransaction → Result ApiError SmtBlobInfo
    unfolding find_indexed
    smt_blob_info tx = do
      (smt_blob_index, smt_blob) ←
          ok_or (find_indexed state.smt_incl_proof_contract_name 0 tx.blobs)
            (internal smt_blob_missing)
      guard (length smt_blob.payload == 110) (internal (smt_blob_length (length smt_blob.payload)))
      ok (record {
        blob_payload = smt_blob.payload;
        identity = tx.identity;
        tx_blob_count = length tx.blobs;
        smt_blob_index = smt_blob_index;
      })
