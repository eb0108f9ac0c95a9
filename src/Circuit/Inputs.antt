-- ===== src/Circuit/Inputs.antt =====
-- pkg/barretenberg/src/circuits/note.rs, hyli_utxo.rs, hyli_smt_incl_proof.rs and utxo.rs: the inputs
-- that a circuit is proved with. A map of inputs is a record with the map's keys for fields, a field
-- element is its number, and `to_base`, the reduction of an element to the field, is a parameter. None
-- is a panic, by an assertion, by a padding or by the arithmetic of the messages.
use cachecash.Prelude.{
  ℕ, Bool, ◌&&◌, Option, none, some, List, [], ◌∷◌, map, Bytes, bytes_eq, length, replicate, ◌==◌,
  if◌then◌else◌,
}
use cachecash.Element.Signed.{Arith}
use cachecash.Zk.Note.{Note, InputNote}
use cachecash.Zk.Utxo.{Utxo, ◌>>=?◌, messages, leaf_elements}
use cachecash.Zk.HyliUtxo.{expected_blob, pad_string}
use cachecash.Zk.Aggregate.{message_list}
use cachecash.Server.Prover.{Call, HyliUtxo, HyliSmtIncl}
use cachecash.Circuit.TxHash.{decode_tx_hash_32}

pub record BNote : Type 0 where
  pub kind : ℕ
  pub value : ℕ
  pub address : ℕ
  pub psi : ℕ

pub record BInputNote : Type 0 where
  pub note : BNote
  pub secret_key : ℕ

-- The map "blobs" of a call, for its one blob.
pub record BlobInput : Type 0 where
  pub index : ℕ
  pub contract_name_len : ℕ
  pub contract_name : Bytes
  pub data_len : ℕ
  pub payload : List ℕ

-- The map "hyli_output".
pub record HyliOutput : Type 0 where
  pub version : ℕ
  pub initial_state_len : ℕ
  pub initial_state_max : ℕ
  pub initial_state : List ℕ
  pub next_state_len : ℕ
  pub next_state_max : ℕ
  pub next_state : List ℕ
  pub identity_len : ℕ
  pub identity_max : ℕ
  pub identity : Bytes
  pub index : ℕ
  pub blob_count : ℕ
  pub blob_slots : ℕ
  pub blob_name_max : ℕ
  pub blob_data_max : ℕ
  pub blobs : List BlobInput
  pub tx_blob_count : ℕ
  pub tx_hash : List ℕ
  pub success : ℕ
  pub program_outputs_max : ℕ
  pub program_outputs_len : ℕ
  pub program_outputs : List ℕ

-- `UtxoInput`, which is the map of inputs of a UTXO transaction.
pub record UtxoInput : Type 0 where
  pub input_notes : BInputNote × BInputNote
  pub output_notes : BNote × BNote
  pub pmessage4 : ℕ
  pub commitments : List ℕ
  pub messages : List ℕ

-- The inputs of `HyliUtxo`: those of its transaction, and the call.
pub record HyliUtxoInput : Type 0 where
  pub hyli_output : HyliOutput
  pub utxo : UtxoInput

pub record HyliSmtInclInput : Type 0 where
  pub hyli_output : HyliOutput
  pub input_notes : BInputNote × BInputNote
  pub siblings_0 : List ℕ
  pub siblings_1 : List ℕ

-- The call with the padded texts, the data of its blob, the capacity, the maxima of the states and
-- the bytes of the transaction hash.
unfoldable pub hyli_output : Call → Bytes → ℕ → ℕ → ℕ → Bytes → Option HyliOutput
hyli_output call payload capacity initial_max next_max tx_hash =
    pad_string call.blob_contract_name 256 >>=? λ contract_name.
    pad_string call.identity 256 >>=? λ identity. some (record {
      version = call.version;
      initial_state_len = length call.initial_state;
      initial_state_max = initial_max;
      initial_state = call.initial_state;
      next_state_len = length call.next_state;
      next_state_max = next_max;
      next_state = call.next_state;
      identity_len = call.identity_len;
      identity_max = 256;
      identity = identity;
      index = call.index;
      blob_count = call.blob_number;
      blob_slots = 1;
      blob_name_max = 256;
      blob_data_max = capacity;
      blobs =
          record {
            index = call.blob_index;
            contract_name_len = call.blob_contract_name_len;
            contract_name = contract_name;
            data_len = call.blob_len;
            payload = payload;
          }
          ∷ [];
      tx_blob_count = call.tx_blob_count;
      tx_hash = tx_hash;
      success = if call.success then 1 else 0;
      program_outputs_max = 5;
      program_outputs_len = 0;
      program_outputs = replicate 5 0;
    })

-- The two assertions on the length of a blob.
unfoldable pub has_length : ℕ → Call → Bool
has_length n call = call.blob_capacity == n && call.blob_len == n

module _ (to_base : ℕ → ℕ) where
  -- `BNote::from` and `InputValue::from` of a note, whose "kind" is its contract.
  unfoldable pub b_note : Note → BNote
  b_note n = record {
    kind = to_base n.contract;
    value = to_base n.value;
    address = to_base n.address;
    psi = to_base n.psi;
  }

  -- `BInputNote::from`.
  unfoldable pub b_input_note : InputNote → BInputNote
  unfolding b_note
  b_input_note n = record { note = b_note n.note; secret_key = to_base n.secret_key }

  unfoldable pub build_smt_incl_input_map : HyliSmtIncl → Option HyliSmtInclInput
  unfolding decode_tx_hash_32 has_length hyli_output b_input_note
  build_smt_incl_input_map v = decode_tx_hash_32 v.call.tx_hash >>=? λ tx_hash.
      if has_length 110 v.call
      then (hyli_output v.call v.call.blob 110 4 4 tx_hash >>=? λ output. some (record {
        hyli_output = output;
        input_notes = (b_input_note v.input_notes.0, b_input_note v.input_notes.1);
        siblings_0 = v.siblings_0;
        siblings_1 = v.siblings_1;
      }))
      else none

  module _ (hash_merge : List ℕ → ℕ) (U : Arith) where
    -- `UtxoInput::from`.
    unfoldable pub utxo_input : Utxo → Option UtxoInput
    unfolding b_note b_input_note leaf_elements message_list
    utxo_input u = messages hash_merge U u >>=? λ m. some (record {
      input_notes = (b_input_note u.input_notes.0, b_input_note u.input_notes.1);
      output_notes = (b_note u.output_notes.0, b_note u.output_notes.1);
      pmessage4 = to_base m.message4;
      commitments = map to_base (leaf_elements hash_merge u);
      messages = map to_base (message_list m);
    })

    unfoldable pub build_hyli_input_map : (ℕ → Bytes) → HyliUtxo → Option HyliUtxoInput
    unfolding decode_tx_hash_32 has_length hyli_output utxo_input expected_blob
    build_hyli_input_map to_be_bytes v =
        let expected = expected_blob hash_merge to_be_bytes v.utxo in
        decode_tx_hash_32 v.call.tx_hash >>=? λ tx_hash.
        if has_length 128 v.call && bytes_eq v.call.blob expected
        then (hyli_output v.call expected 128 (length v.call.initial_state)
              (length v.call.next_state) tx_hash
            >>=? λ output.
                utxo_input v.utxo >>=? λ utxo. some (record { hyli_output = output; utxo = utxo }))
        else none
