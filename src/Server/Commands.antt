-- ===== src/Server/Commands.antt =====
-- server/src/app.rs: the handlers of the faucet's commands. Each gives the state, what it did in
-- order, and its result; an error ends the module, and a job that the bus does not take is only
-- logged.
use cachecash.Prelude.{
  ℕ, Bool, true, false, not, Option, none, some, List, [], ◌∷◌, ◌++◌, Bytes, length, take,
  replicate, ltb, ◌==◌, if◌then◌else◌, Result, ok, err, ◌>>=◌, ◌>>◌, guard, ok_or,
}
use cachecash.Zk.Note.{Note, InputNote, padding_input}
use cachecash.Zk.Utxo.{Utxo}
use cachecash.Server.Blobs
use cachecash.Server.Prover
use cachecash.Server.Transfer
use cachecash.Server.Faucet.{
  FaucetApp, Deposit, Event, node_call, utxo_job, smt_incl_job, AppError, dispatch_failed,
  blob_not_found, proof_failed, blob_length, build_transaction, build_transfer_transaction,
  build_proved_transfer_blob,
}
pub mod Minting
pub mod Refused
pub mod Jobs

-- `FaucetMintCommand` and `FaucetDepositCommand`, by what the handlers read.
pub record FaucetMintCommand : Type 0 where
  pub amount : ℕ
  pub note : Note

pub record FaucetDepositCommand : Type 0 where
  pub amount : ℕ
  pub note : Note
  pub token_contract : Bytes
  pub wallet_account : Option Bytes
  pub secp256k1_blob : Option Bytes
  pub wallet_blob : Option Bytes

pub record TransferWithProofCommand : Type 0 where
  pub proof : Bytes
  pub public_inputs : List Bytes
  pub blob : Bytes

-- The effects of a handler, and its result.
abbrev pub Outcome : Type 0
Outcome = FaucetApp × (List Event × Result AppError (Unit {0}))

-- `enqueue_proof_job`: the job, before the bus gets it.
unfoldable pub utxo_proof_job :
    FaucetApp → Blobs.BlobTransaction → Bytes → Utxo → Result AppError Prover.HyliUtxoProofJob
utxo_proof_job app tx tx_hash utxo = do
  (blob_index, blob) ←
      ok_or (Transfer.find_indexed app.names.utxo_contract_name 0 tx.blobs) blob_not_found
  guard (not (ltb (length blob.payload) 128)) (blob_length (length blob.payload))
  ok (record {
    tx_hash = tx_hash;
    identity = tx.identity;
    utxo = utxo;
    blob = take 128 blob.payload;
    tx_blob_count = length tx.blobs;
    blob_index = blob_index;
  })

-- `enqueue_smt_incl_proof_job`: the job, with padding notes and zero siblings.
unfoldable pub smt_incl_proof_job :
    FaucetApp → Blobs.BlobTransaction → Bytes → Result AppError Prover.SmtInclProofJob
smt_incl_proof_job app tx tx_hash = do
  (blob_index, blob) ←
      ok_or (Transfer.find_indexed app.names.smt_incl_proof_contract_name 0 tx.blobs) blob_not_found
  guard (length blob.payload == 110) (blob_length (length blob.payload))
  ok (record {
    tx_hash = tx_hash;
    identity = tx.identity;
    blob = blob.payload;
    tx_blob_count = length tx.blobs;
    blob_index = blob_index;
    input_notes = (padding_input, padding_input);
    siblings_0 = replicate 256 0;
    siblings_1 = replicate 256 0;
  })

-- What a job sends to the bus; one that was not built, or that the bus does not take, is only logged.
abbrev pub sent : {A : Type 0} → (Event → Bool) → (A → Event) → Result AppError A → List Event
sent takes event (ok job) = if takes (event job) then event job ∷ [] else []
sent takes event (err e) = []

module _ (X : Blobs.External) (N : Transfer.Node) (takes : Event → Bool) where
  -- The two jobs of a transaction that the node took.
  unfoldable pub enqueue_both : FaucetApp → Blobs.BlobTransaction → Bytes → Utxo → List Event
  unfolding utxo_proof_job smt_incl_proof_job
  enqueue_both app tx tx_hash utxo =
      sent takes utxo_job (utxo_proof_job app tx tx_hash utxo)
      ++ sent takes smt_incl_job (smt_incl_proof_job app tx tx_hash)

  -- The common part of `process_request` and `process_deposit_request`.
  unfoldable pub process_mint : FaucetApp → Note → Deposit → Outcome
  unfolding enqueue_both
  process_mint app note deposit =
      let (app', (tx, utxo)) = build_transaction X app note deposit in
      elim (N.blob_answer tx) [
        | none ↦ (app', (node_call (Transfer.send_tx_blob tx) ∷ [], err dispatch_failed))
        | some tx_hash ↦ (
          app',
          (node_call (Transfer.send_tx_blob tx) ∷ enqueue_both app' tx tx_hash utxo, ok tt),
        )
      ]

  unfoldable pub process_request : FaucetApp → FaucetMintCommand → Outcome
  unfolding process_mint
  process_request app request = process_mint app request.note (record {
    token_deposit = none;
    wallet_account = none;
    secp256k1_blob = none;
    wallet_blob = none;
  })

  unfoldable pub process_deposit_request : FaucetApp → FaucetDepositCommand → Outcome
  unfolding process_mint
  process_deposit_request app request = process_mint app request.note (record {
    token_deposit = some (request.token_contract, request.amount);
    wallet_account = request.wallet_account;
    secp256k1_blob = request.secp256k1_blob;
    wallet_blob = request.wallet_blob;
  })

  unfoldable pub process_transfer_request :
      FaucetApp → InputNote × InputNote → Note × Note → Outcome
  unfolding utxo_proof_job
  process_transfer_request app input_notes output_notes =
      let (tx, utxo) = build_transfer_transaction X app input_notes output_notes in
      elim (N.blob_answer tx) [
        | none ↦ (app, (node_call (Transfer.send_tx_blob tx) ∷ [], err dispatch_failed))
        | some tx_hash ↦ (
          app,
          (
            node_call (Transfer.send_tx_blob tx)
                ∷ sent takes utxo_job (utxo_proof_job app tx tx_hash utxo),
            ok tt,
          ),
        )
      ]

  unfoldable pub process_transfer_with_proof : FaucetApp → TransferWithProofCommand → Outcome
  process_transfer_with_proof app cmd =
      let tx = build_proved_transfer_blob X app cmd.blob in
      let proof_tx : Transfer.ProofTransaction = record {
        contract_name = app.names.utxo_contract_name;
        program_id = N.hyli_utxo_noir_vk;
        verifier = N.noir;
        proof = Transfer.public_inputs_bytes X N cmd.public_inputs ++ cmd.proof;
      } in
      elim (N.blob_answer tx) [
        | none ↦ (app, (node_call (Transfer.send_tx_blob tx) ∷ [], err dispatch_failed))
        | some tx_hash ↦ (
          app,
          (
            node_call (Transfer.send_tx_blob tx) ∷ node_call (Transfer.send_tx_proof proof_tx) ∷ [],
            guard (N.proof_answer proof_tx) proof_failed,
          ),
        )
      ]

-- The event of the state indexer.
unfoldable pub on_state_event : FaucetApp → ℕ → FaucetApp
on_state_event app notes_root = record app { notes_root = notes_root }
