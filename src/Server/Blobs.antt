-- ===== src/Server/Blobs.antt =====
-- server/src/api.rs: the blob transaction of a transfer. What the SDK and the token contract encode,
-- the decoders of numbers and of hexadecimal, the hash of pkg/hash and the bytes of an element are
-- the record `External`.
use cachecash.Prelude.{
  ℕ, Bool, true, false, Option, none, some, List, [], ◌∷◌, ◌++◌, Bytes, bytes_eq, length, ◌==◌,
  if◌then◌else◌, Result, ok, err, ◌>>=◌, ◌>>◌, guard, ok_or,
}
use cachecash.Contract.ZkVm.{Blob}
use cachecash.Zk.Note.{Note}
use cachecash.Server.Validation.{strip_0x}
use cachecash.Server.ApiError.{
  ApiError, bad_request, smt_blob_data_length, notes_root_length, input_notes_required,
  notes_root_required, invalid_secret_key, invalid_notes_root,
}
pub mod Callees
pub mod Accepted

-- `StructuredBlobData`, `BlobTransaction` and `BlobIndex` of the SDK.
pub record StructuredBlobData : Type 0 where
  pub caller : Option ℕ
  pub callees : Option (List ℕ)
  pub parameters : Bytes

pub record BlobTransaction : Type 0 where
  pub identity : Bytes
  pub blobs : List Blob

-- `encode_array` and `encode_vec` are `BlobData::from` for parameters that are an array and a
-- vector, and `token_transfer` is the blob of `SmtTokenAction::Transfer` for a contract, a sender, a
-- recipient, an amount and a caller.
pub record External : Type 0 where
  pub encode_array : StructuredBlobData → Bytes
  pub encode_vec : StructuredBlobData → Bytes
  pub token_transfer : Bytes → Bytes → Bytes → ℕ → Option ℕ → Blob
  pub from_str_radix_16 : Bytes → Option ℕ
  pub hex_decode : Bytes → Option Bytes
  pub hash_merge : List ℕ → ℕ
  pub to_be_bytes : ℕ → Bytes

-- The names of `RouterCtx`.
pub record RouterCtx : Type 0 where
  pub utxo_contract_name : Bytes
  pub utxo_state_contract_name : Bytes
  pub smt_incl_proof_contract_name : Bytes

pub record TokenTransferRequest : Type 0 where
  pub token_contract : Bytes
  pub sender : Bytes
  pub recipient : Bytes
  pub amount : ℕ

pub record InputNoteData : Type 0 where
  pub note : Note
  pub secret_key : Bytes

-- `CreateBlobRequest`, less the output notes, which nothing reads.
pub record CreateBlobRequest : Type 0 where
  pub blob_data : Bytes
  pub smt_blob_data : Option Bytes
  pub token_transfer : Option TokenTransferRequest
  pub input_notes : Option (InputNoteData × InputNoteData)
  pub notes_root : Option Bytes

-- The three payloads of `BuiltBlob`, before they are written in hexadecimal.
pub record BuiltBlob : Type 0 where
  pub transaction : BlobTransaction
  pub state_blob : Bytes
  pub hyli_utxo : Bytes
  pub smt : Bytes

-- "transfer@"
abbrev pub transfer_prefix : Bytes
transfer_prefix = 116 ∷ 114 ∷ 97 ∷ 110 ∷ 115 ∷ 102 ∷ 101 ∷ 114 ∷ 64 ∷ []

-- `HYLI_UTXO_STATE_ACTION`.
abbrev pub hyli_utxo_state_action : Bytes
hyli_utxo_state_action = 0 ∷ []

-- `is_withdraw`.
unfoldable pub is_withdraw : Bytes → Option TokenTransferRequest → Bool
is_withdraw utxo_state_contract_name none = false
is_withdraw utxo_state_contract_name (some t) = bytes_eq t.sender utxo_state_contract_name

unfoldable pub withdraw_topology : Bytes → Option TokenTransferRequest → List ℕ × Option ℕ
unfolding is_withdraw
withdraw_topology utxo_state_contract_name token_transfer =
    if is_withdraw utxo_state_contract_name token_transfer
    then (2 ∷ 3 ∷ [], some 0)
    else (2 ∷ [], none)

module _ (X : External) where
  -- `Element::from_str`.
  unfoldable pub element_from_str : Bytes → Option ℕ
  unfolding strip_0x
  element_from_str s = X.from_str_radix_16 (strip_0x s)

  unfoldable pub compute_smt_blob_data :
      InputNoteData × InputNoteData → Bytes → Result ApiError Bytes
  unfolding element_from_str strip_0x
  compute_smt_blob_data input_notes notes_root_hex = do
    sk0 ← ok_or (element_from_str input_notes.0.secret_key) (bad_request invalid_secret_key)
    sk1 ← ok_or (element_from_str input_notes.1.secret_key) (bad_request invalid_secret_key)
    let nullifier_0 = X.hash_merge (input_notes.0.note.psi ∷ sk0 ∷ [])
    let nullifier_1 = X.hash_merge (input_notes.1.note.psi ∷ sk1 ∷ [])
    root_bytes ← ok_or (X.hex_decode (strip_0x notes_root_hex)) (bad_request invalid_notes_root)
    guard (length root_bytes == 32) (bad_request (notes_root_length (length root_bytes)))
    ok (X.to_be_bytes nullifier_0 ++ (X.to_be_bytes nullifier_1 ++ root_bytes))

  -- `raw_smt_blob_data`.
  unfoldable pub raw_smt_blob_data : CreateBlobRequest → Result ApiError Bytes
  unfolding compute_smt_blob_data
  raw_smt_blob_data request = elim request.smt_blob_data [
    | some given ↦ do
      guard (length given == 96) (bad_request (smt_blob_data_length (length given)))
      ok given
    | none ↦ do
      notes ← ok_or request.input_notes (bad_request input_notes_required)
      root_hex ← ok_or request.notes_root (bad_request notes_root_required)
      compute_smt_blob_data notes root_hex
  ]

  module _ (state : RouterCtx) where
    -- The state blob, the UTXO blob and the inclusion blob, in that order.
    unfoldable pub first_blobs : Bytes → Bytes → Bytes → List Blob
    first_blobs state_blob hyli_utxo smt =
        record { contract_name = state.utxo_state_contract_name; payload = state_blob }
        ∷ record { contract_name = state.utxo_contract_name; payload = hyli_utxo }
        ∷ record { contract_name = state.smt_incl_proof_contract_name; payload = smt }
        ∷ []

    -- The blob of the token contract, if one is asked for.
    unfoldable pub token_blobs : Option TokenTransferRequest → Option ℕ → List Blob
    token_blobs none token_caller = []
    token_blobs (some t) token_caller =
        X.token_transfer t.token_contract t.sender t.recipient t.amount token_caller ∷ []

    -- The slices of `blob_data` are not used, and do not panic for 128 bytes.
    unfoldable pub build_blob_transaction : CreateBlobRequest → Result ApiError BuiltBlob
    unfolding raw_smt_blob_data withdraw_topology first_blobs token_blobs
    build_blob_transaction request = do
      raw ← raw_smt_blob_data request
      let topology = withdraw_topology state.utxo_state_contract_name request.token_transfer
      let state_blob = X.encode_array (record {
        caller = none;
        callees = some (topology.0);
        parameters = hyli_utxo_state_action;
      })
      let smt = X.encode_vec (record { caller = some 0; callees = none; parameters = raw })
      ok (record {
        transaction = record {
          identity = transfer_prefix ++ state.utxo_contract_name;
          blobs =
              first_blobs state_blob request.blob_data smt
              ++ token_blobs request.token_transfer (topology.1);
        };
        state_blob = state_blob;
        hyli_utxo = request.blob_data;
        smt = smt;
      })
