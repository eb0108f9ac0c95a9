-- ===== src/Server/TransferTests.antt =====
-- The theorems on the transfers of server/src/api.rs at a withdrawal, with small stand-ins for the
-- SDK and the node.
use cachecash.Prelude.{
  ◌≡◌, ◌⊎◌, true, Option, none, some, [], ◌∷◌, ◌++◌, Bytes, ok, err, replicate, length,
}
use cachecash.Contract.Smt.{H256, h256_zero}
use cachecash.Contract.Blob.{SeparatedHyliUtxoBlob, SmtInclBlob}
use cachecash.Contract.State.{HyliUtxoZkVmState, with_root}
use cachecash.Contract.Toy.{word}
use cachecash.Server.ApiError.{ApiError}
use cachecash.Server.Blobs
use cachecash.Server.ToySdk.{sdk_codec, names}
use cachecash.Server.Transfer.{Node, FinalizeTransferRequest, SmtBlobInfo}
use cachecash.Server.Finalize.{prepare, finalize_transfer}
use cachecash.Server.Finalize.InOrder.{blob_call, InOrder}
use cachecash.Server.Finalize.Order.{both_proofs, finalize_transfer-InOrder}

abbrev pub zkvm_state : HyliUtxoZkVmState (H256 → H256)
zkvm_state = record {
  created_notes = with_root h256_zero;
  nullified_notes = with_root h256_zero;
  config = record {
    utxo_contract_name = 1 ∷ [];
    smt_incl_proof_contract_name = 2 ∷ [];
    smt_contract_name = 3 ∷ [];
  };
  roots = replicate 1000 (replicate 8 0);
}

-- A withdrawal: the state contract sends tokens.
abbrev withdraw : Blobs.CreateBlobRequest
withdraw = record {
  blob_data = word 3 ++ (h256_zero ++ (word 5 ++ word 6));
  smt_blob_data = some (word 5 ++ (word 6 ++ h256_zero));
  token_transfer =
      some (record { token_contract = 3 ∷ []; sender = 4 ∷ []; recipient = 9 ∷ []; amount = 42 });
  input_notes = none;
  notes_root = none;
}

abbrev state_payload : Bytes
state_payload = 0 ∷ 3 ∷ 2 ∷ 3 ∷ 0 ∷ []

abbrev incl_payload : Bytes
incl_payload = 1 ∷ 0 ∷ (word 5 ++ (word 6 ++ h256_zero))

abbrev built : Blobs.BuiltBlob
built = record {
  transaction = record {
    identity = Blobs.transfer_prefix ++ 1 ∷ [];
    blobs =
        record { contract_name = 4 ∷ []; payload = state_payload }
        ∷ record { contract_name = 1 ∷ []; payload = word 3 ++ (h256_zero ++ (word 5 ++ word 6)) }
        ∷ record { contract_name = 2 ∷ []; payload = incl_payload }
        ∷ record { contract_name = 3 ∷ []; payload = 1 ∷ 0 ∷ 42 ∷ [] }
        ∷ [];
  };
  state_blob = state_payload;
  hyli_utxo = word 3 ++ (h256_zero ++ (word 5 ++ word 6));
  smt = incl_payload;
}

abbrev commitments : SeparatedHyliUtxoBlob
commitments = record { output_notes = (word 3, h256_zero); nullifiers = (word 5, word 6) }

abbrev inclusion : SmtInclBlob
inclusion = record {
  nullifier0 = word 5;
  nullifier1 = word 6;
  notes_root_fingerprint = replicate 8 0;
}

-- A node that takes everything, and a prover that returns no bytes.
abbrev pub node : Node
node = record {
  blob_answer = λ tx. some (7 ∷ []);
  proof_answer = λ tx. true;
  hashed = λ tx. 7 ∷ [];
  prove = λ witness. some [];
  base64_decode = λ s. some s;
  hex_encode = λ s. s;
  from_be_bytes_reduce = λ s. length s;
  hyli_utxo_noir_vk = 10 ∷ [];
  hyli_smt_incl_proof_vk = 11 ∷ [];
  noir = 12 ∷ [];
}

abbrev finalize : FinalizeTransferRequest
finalize = record {
  blob = withdraw;
  proof = 1 ∷ [];
  public_inputs = [];
  smt_proof = some (2 ∷ []);
  smt_public_inputs = some [];
  siblings_0 = none;
  siblings_1 = none;
}

finalize_transfer-InOrder_example :
    ((e : ApiError) × (prepare sdk_codec node names finalize ≡ err e)
      × (finalize_transfer sdk_codec node names finalize ≡ ([], err e)))
    ⊎ ((b : Blobs.BuiltBlob) × (info : Option SmtBlobInfo) × (prepare sdk_codec node names finalize
          ≡ ok (b, info))
        × InOrder node
            (λ hash. hash ≡ 7 ∷ [])
            (blob_call b.transaction ∷ both_proofs sdk_codec node names)
            (finalize_transfer sdk_codec node names finalize))
finalize_transfer-InOrder_example = finalize_transfer-InOrder sdk_codec node names finalize
