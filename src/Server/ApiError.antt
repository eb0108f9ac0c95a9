-- ===== src/Server/ApiError.antt =====
-- server/src/api.rs: the errors of the handlers, by their status, with what the message says.
use cachecash.Prelude.{ℕ, Result, map_err}
use cachecash.Server.Validation.{BadRequest}

-- The messages; a number in one is a length that it prints.
pub data Message : Type 0 where
  refused : BadRequest → Message
  blob_data_length smt_blob_data_length notes_root_length siblings_length : ℕ → Message
  input_notes_required notes_root_required siblings_required smt_public_inputs_required : Message
  invalid_secret_key invalid_notes_root invalid_sibling : Message
  invalid_proof invalid_smt_proof : Message
  send_blob_failed send_utxo_proof_failed send_smt_proof_failed : Message
  smt_blob_missing smt_blob_info_missing : Message
  smt_blob_length : ℕ → Message
  witness_failed proving_failed : Message
  empty_tx_hash : Message
  payload_exceeds : ℕ → Message
  payload_empty : Message
  note_not_found name_not_registered registration_lost : Message
  amount_zero missing_pubkey invalid_pubkey_hex invalid_pubkey_length : Message
  missing_token_contract bus_send_failed : Message

pub data ApiError : Type 0 where
  bad_request internal not_found payload_too_large : Message → ApiError

-- The status of `into_response`.
unfoldable pub status : ApiError → ℕ
status (bad_request message) = 400
status (internal message) = 500
status (not_found message) = 404
status (payload_too_large message) = 413

-- A check's error as a handler returns it.
unfoldable pub checked : {A : Type 0} → Result BadRequest A → Result ApiError A
checked r = map_err (λ e. bad_request (refused e)) r
