-- ===== src/Circuit/Aggregation.antt =====
-- pkg/barretenberg/src/circuits/agg_utxo.rs and agg_agg.rs: the inputs and the proofs of the two
-- circuits of aggregation. The keys of the circuit below, the backend, the byte forms of an element
-- and its reduction to the field are parameters. None is a panic: of a conversion to an array, of an
-- index, or of an assertion.
use cachecash.Prelude.{
  ℕ, ◌-◌, ◌*◌, Option, none, some, List, [], ◌∷◌, ◌++◌, map, Bytes, length, take, drop, replicate,
  leb, ◌==◌, if◌then◌else◌, Result,
}
use cachecash.Zk.Utxo.{◌>>=?◌, u8_of_kind, kind_of_inputs}
use cachecash.Zk.Aggregate.{
  UtxoProofBundleWithMerkleProofs, AggUtxo, AggUtxoPublicInput, AggUtxoProof, AggAgg,
  AggAggPublicInput, bytes_to_elements, merged_messages, commit_hash, agg_old_root, agg_new_root,
  agg_commit_hash, agg_messages,
}
use cachecash.Circuit.Proofs.{with_proof, split_proof}
pub mod Refused

-- The key of the circuit whose proofs are aggregated, and its hash.
pub record Key : Type 0 where
  pub verification_key : List ℕ
  pub verification_key_hash : ℕ

pub record AggUtxoProofInput : Type 0 where
  pub proof : List ℕ
  pub input_merkle_paths : List ℕ × List ℕ
  pub output_merkle_paths : List ℕ × List ℕ
  pub input_commitments : ℕ × ℕ
  pub output_commitments : ℕ × ℕ
  pub utxo_kind : ℕ

-- `AggUtxoInput`, with the key that its map of inputs has besides.
pub record AggUtxoInput : Type 0 where
  pub key : Key
  pub proofs : List AggUtxoProofInput
  pub messages : List ℕ
  pub old_root : ℕ
  pub new_root : ℕ
  pub commit_hash : ℕ

pub record UtxoAggProof : Type 0 where
  pub proof : List ℕ
  pub old_root : ℕ
  pub new_root : ℕ
  pub commit_hash : ℕ

-- `AggAggInput`, with the key that its map of inputs has besides.
pub record AggAggInput : Type 0 where
  pub key : Key
  pub proofs : List UtxoAggProof
  pub messages : List ℕ
  pub old_root : ℕ
  pub new_root : ℕ
  pub commit_hash : ℕ

-- `AggAggProof`; the elements of the accumulator are `kzg`.
pub record AggAggProof : Type 0 where
  pub proof : Bytes
  pub public_inputs : AggAggPublicInput
  pub kzg : List ℕ

-- The conversion to an array of so many elements, which `unwrap` makes a panic for another length.
unfoldable pub to_array : ℕ → List ℕ → Option (List ℕ)
to_array n xs = if length xs == n then some xs else none

module _ (from_be_bytes : Bytes → ℕ) (to_base : ℕ → ℕ) where
  -- The fields of a proof, as an array of 508.
  unfoldable pub proof_fields : Bytes → Option (List ℕ)
  unfolding to_array
  proof_fields proof =
      bytes_to_elements from_be_bytes proof >>=? λ elements. to_array 508 (map to_base elements)

  -- One path of `convert_merkle_paths`: zeros fill an array of 160.
  unfoldable pub convert_path : List ℕ → Option (List ℕ)
  convert_path siblings =
      if leb (length siblings) 160
      then some (map to_base siblings ++ replicate (160 - length siblings) 0)
      else none

  unfoldable pub convert_merkle_paths : List ℕ × List ℕ → Option (List ℕ × List ℕ)
  unfolding convert_path
  convert_merkle_paths paths = convert_path (paths.0) >>=? λ first.
      convert_path (paths.1) >>=? λ second. some (first, second)

  -- `UtxoAggProof::from`.
  unfoldable pub utxo_agg_proof : AggUtxoProof → Option UtxoAggProof
  unfolding proof_fields
  utxo_agg_proof p = proof_fields p.proof >>=? λ fields. some (record {
    proof = fields;
    old_root = to_base p.public_inputs.old_root;
    new_root = to_base p.public_inputs.new_root;
    commit_hash = to_base p.public_inputs.commit_hash;
  })

  module _ (hash_merge : List ℕ → ℕ) where
    -- `AggAggInput::from` and the map of inputs.
    unfoldable pub agg_agg_input : Key → AggAgg → Option AggAggInput
    unfolding utxo_agg_proof to_array
    agg_agg_input key a = utxo_agg_proof a.proof_0 >>=? λ first.
        utxo_agg_proof a.proof_1 >>=? λ second.
        to_array 30 (map to_base (agg_messages a)) >>=? λ messages. some (record {
          key = key;
          proofs = first ∷ second ∷ [];
          messages = messages;
          old_root = to_base (agg_old_root a);
          new_root = to_base (agg_new_root a);
          commit_hash = to_base (agg_commit_hash hash_merge a);
        })

    module _ (to_be_bytes : ℕ → Bytes) where
      -- `AggUtxoProofInput::from`.
      unfoldable pub agg_utxo_proof_input :
          UtxoProofBundleWithMerkleProofs → Option AggUtxoProofInput
      unfolding proof_fields convert_merkle_paths
      agg_utxo_proof_input b =
          let inputs = b.utxo_proof.public_inputs in
          proof_fields b.utxo_proof.proof >>=? λ fields.
          convert_merkle_paths b.input_merkle_paths >>=? λ input_paths.
          convert_merkle_paths b.output_merkle_paths >>=? λ output_paths.
          kind_of_inputs to_be_bytes inputs >>=? λ kind. some (record {
            proof = fields;
            input_merkle_paths = input_paths;
            output_merkle_paths = output_paths;
            input_commitments =
                (to_base (inputs.input_commitments.0), to_base (inputs.input_commitments.1));
            output_commitments =
                (to_base (inputs.output_commitments.0), to_base (inputs.output_commitments.1));
            utxo_kind = to_base (u8_of_kind kind);
          })

      -- `AggUtxoInput::from` and the map of inputs.
      unfoldable pub agg_utxo_input : Key → AggUtxo → Option AggUtxoInput
      unfolding agg_utxo_proof_input
      agg_utxo_input key a = agg_utxo_proof_input a.proof_0 >>=? λ first.
          agg_utxo_proof_input a.proof_1 >>=? λ second. agg_utxo_proof_input a.proof_2 >>=? λ third.
          merged_messages to_be_bytes a >>=? λ messages. some (record {
            key = key;
            proofs = first ∷ second ∷ third ∷ [];
            messages = map to_base messages;
            old_root = to_base a.old_root;
            new_root = to_base a.new_root;
            commit_hash = to_base (commit_hash hash_merge a);
          })

-- The public inputs of three aggregated transactions, behind their fifteen messages.
unfoldable pub agg_utxo_public_inputs : List ℕ → List ℕ → Option AggUtxoPublicInput
agg_utxo_public_inputs messages (old_root ∷ new_root ∷ commit_hash ∷ _) = some (record {
  messages = messages;
  old_root = old_root;
  new_root = new_root;
  commit_hash = commit_hash;
})
agg_utxo_public_inputs messages _ = none

-- The public inputs of two such proofs, before their thirty messages.
unfoldable pub agg_agg_public_inputs : List ℕ → Option AggAggPublicInput
agg_agg_public_inputs (old_root ∷ new_root ∷ commit_hash ∷ messages) = some (record {
  old_root = old_root;
  new_root = new_root;
  commit_hash = commit_hash;
  messages = take 30 messages;
})
agg_agg_public_inputs _ = none

module _ (from_be_bytes : Bytes → ℕ) where
  -- The proof of `AggUtxo::prove`, which has 508 words behind the eighteen public inputs.
  unfoldable pub agg_utxo_proof : Bytes → Option AggUtxoProof
  unfolding agg_utxo_public_inputs
  agg_utxo_proof bytes = split_proof from_be_bytes 18 bytes >>=? λ parts.
      if length (parts.1) == 508 * 32
      then (agg_utxo_public_inputs (take 15 (parts.0)) (drop 15 (parts.0)) >>=? λ public_inputs.
          some (record { proof = parts.1; public_inputs = public_inputs }))
      else none

  -- The proof of `AggAgg::prove`, with 33 public inputs and no accumulator.
  unfoldable pub agg_agg_proof : Bytes → Option AggAggProof
  unfolding agg_agg_public_inputs
  agg_agg_proof bytes = split_proof from_be_bytes 33 bytes >>=? λ parts.
      if length (parts.1) == 508 * 32
      then (agg_agg_public_inputs (parts.0) >>=? λ public_inputs.
          some (record { proof = parts.1; public_inputs = public_inputs; kzg = [] }))
      else none

  module _ {E : Type 0} (to_base : ℕ → ℕ) (hash_merge : List ℕ → ℕ) (key : Key) where
    -- `AggUtxo::prove`.
    unfoldable pub prove_agg_utxo :
        (ℕ → Bytes) → (AggUtxoInput → Result E Bytes) → AggUtxo → Option (Result E AggUtxoProof)
    unfolding with_proof agg_utxo_proof agg_utxo_input
    prove_agg_utxo to_be_bytes backend a =
        agg_utxo_input from_be_bytes to_base hash_merge to_be_bytes key a >>=? λ inputs.
        with_proof (backend inputs) agg_utxo_proof

    -- `AggAgg::prove`.
    unfoldable pub prove_agg_agg :
        (AggAggInput → Result E Bytes) → AggAgg → Option (Result E AggAggProof)
    unfolding with_proof agg_agg_proof agg_agg_input
    prove_agg_agg backend a = agg_agg_input from_be_bytes to_base hash_merge key a >>=? λ inputs.
        with_proof (backend inputs) agg_agg_proof
