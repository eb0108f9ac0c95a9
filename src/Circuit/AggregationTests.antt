-- ===== src/Circuit/AggregationTests.antt =====
-- The theorem on the aggregation at a transfer between padding notes, with a backend that gives
-- zeros.
use cachecash.Prelude.{
  ℕ, ◌+◌, ◌-◌, ◌*◌, ◌/◌, ◌≡◌, refl, none, some, [], Bytes, inl, replicate, ok, Result, length,
}
use cachecash.Contract.Toy.{word}
use cachecash.Element.Signed.{Arith}
use cachecash.Zk.Note.{padding_note, padding_input}
use cachecash.Zk.Utxo.{Utxo, send, messages}
use cachecash.Zk.Aggregate.{
  UtxoProof, UtxoProofBundleWithMerkleProofs, AggUtxo, chunks, bytes_to_elements,
}
use cachecash.Circuit.Inputs.{UtxoInput, utxo_input}
use cachecash.Circuit.Proofs.{prove_utxo, utxo_proof, utxo_public_inputs, split_proof, with_proof}
use cachecash.Circuit.Aggregation.{Key, AggUtxoInput, prove_agg_utxo}
use cachecash.Circuit.Aggregation.Refused.{prove_agg_utxo-refused}

abbrev exact : Arith
exact = record {
  add = λ a b. some (a + b);
  sub = λ a b. some (a - b);
  mul = λ a b. some (a * b);
  div = λ a b. some (a / b);
}

abbrev zeros : UtxoInput → Result ℕ Bytes
zeros inputs = ok (replicate 14_880 0)

abbrev zero_proof : UtxoProof
zero_proof = record {
  proof = replicate 14_592 0;
  public_inputs = record {
    input_commitments = (0, 0);
    output_commitments = (0, 0);
    messages = record { message0 = 0; message1 = 0; message2 = 0; message3 = 0; message4 = 0 };
  };
}

abbrev sent : Utxo
sent = record {
  kind = send;
  input_notes = (padding_input, padding_input);
  output_notes = (padding_note, padding_note);
  burn_address = none;
}

zero_proof-proved : prove_utxo (λ w. 0) (λ n. n) length exact zeros sent ≡ some (ok zero_proof)
unfolding prove_utxo utxo_input messages with_proof utxo_proof split_proof utxo_public_inputs
    bytes_to_elements chunks
zero_proof-proved = refl

abbrev bundle : UtxoProofBundleWithMerkleProofs
bundle = record {
  utxo_proof = zero_proof;
  input_merkle_paths = (replicate 160 0, replicate 160 0);
  output_merkle_paths = (replicate 160 0, replicate 160 0);
}

abbrev three : AggUtxo
three = record { proof_0 = bundle; proof_1 = bundle; proof_2 = bundle; old_root = 1; new_root = 2 }

abbrev key : Key
key = record { verification_key = []; verification_key_hash = 0 }

abbrev no_answer : AggUtxoInput → Result ℕ Bytes
no_answer inputs = ok []

prove_agg_utxo-refused_example :
    prove_agg_utxo (λ w. 0) (λ n. n) length key word no_answer three ≡ none
prove_agg_utxo-refused_example =
    prove_agg_utxo-refused (λ w. 0) (λ n. n) length exact word zeros sent zero_proof key three
      no_answer zero_proof-proved (inl refl)
