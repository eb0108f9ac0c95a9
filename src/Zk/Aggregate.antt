-- ===== src/Zk/Aggregate.antt =====
-- pkg/zk-primitives/src/agg_utxo.rs, agg_agg.rs, and bytes_to_elements of util.rs: the public
-- inputs of the aggregated proofs. The hash of pkg/hash and the two byte forms of an element are
-- parameters; no result is a panic. The proofs' bytes are passed on as they are.
use cachecash.Prelude.{
  ℕ, zero, suc, ◌+◌, ◌*◌, ◌/◌, ◌%◌, Bool, Option, none, some, List, [], ◌∷◌, ◌++◌, map, Bytes,
  length, take, drop, replicate, ◌==◌, if◌then◌else◌,
}
use cachecash.Zk.Utxo.{
  UtxoKind, null, send, mint, burn, Messages, UtxoPublicInput, kind_of_inputs, commitments, ◌>>=?◌,
}
pub mod Merging
pub mod Fields

-- `UtxoProof`, by its bytes and its public inputs.
pub record UtxoProof : Type 0 where
  pub proof : Bytes
  pub public_inputs : UtxoPublicInput

-- `UtxoProofBundleWithMerkleProofs`; a path is the list of its siblings.
pub record UtxoProofBundleWithMerkleProofs : Type 0 where
  pub utxo_proof : UtxoProof
  pub input_merkle_paths : List ℕ × List ℕ
  pub output_merkle_paths : List ℕ × List ℕ

-- `UtxoProofBundleWithMerkleProofs::new`, on the four paths.
unfoldable pub new_bundle :
    UtxoProof → List ℕ → List ℕ → List ℕ → List ℕ → UtxoProofBundleWithMerkleProofs
new_bundle utxo_proof a b c d = record {
  utxo_proof = utxo_proof;
  input_merkle_paths = (a, b);
  output_merkle_paths = (c, d);
}

-- `AggUtxo`: the three proofs are the fields.
pub record AggUtxo : Type 0 where
  pub proof_0 : UtxoProofBundleWithMerkleProofs
  pub proof_1 : UtxoProofBundleWithMerkleProofs
  pub proof_2 : UtxoProofBundleWithMerkleProofs
  pub old_root : ℕ
  pub new_root : ℕ

-- The five messages as an array.
unfoldable pub message_list : Messages → List ℕ
message_list m = m.message0 ∷ m.message1 ∷ m.message2 ∷ m.message3 ∷ m.message4 ∷ []

-- The messages that a kind of transaction shows.
unfoldable pub shown : UtxoKind → Messages → List ℕ
unfolding message_list
shown null m = []
shown send m = []
shown mint m = take 4 (message_list m)
shown burn m = message_list m

-- `messages[index] = message`, which panics out of bounds.
unfoldable pub write_at : List ℕ → ℕ → ℕ → Option (List ℕ)
write_at [] index message = none
write_at (m ∷ messages) zero message = some (message ∷ messages)
write_at (m ∷ messages) (suc index) message = elim (write_at messages index message) [
  | none ↦ none
  | some written ↦ some (m ∷ written)
]

-- The inner loop: the array and the index after it.
unfoldable pub write_messages : List ℕ → ℕ → List ℕ → Option (List ℕ × ℕ)
write_messages array index [] = some (array, index)
write_messages array index (message ∷ rest) = elim (write_at array index message) [
  | none ↦ none
  | some written ↦ write_messages written (index + 1) rest
]

pub record AggUtxoPublicInput : Type 0 where
  pub messages : List ℕ
  pub old_root : ℕ
  pub new_root : ℕ
  pub commit_hash : ℕ

-- `AggUtxoPublicInput::is_padding`.
unfoldable pub is_padding : AggUtxoPublicInput → Bool
is_padding p = p.old_root == 0

pub record AggUtxoProof : Type 0 where
  pub proof : Bytes
  pub public_inputs : AggUtxoPublicInput

pub record AggAgg : Type 0 where
  pub proof_0 : AggUtxoProof
  pub proof_1 : AggUtxoProof

pub record AggAggPublicInput : Type 0 where
  pub old_root : ℕ
  pub new_root : ℕ
  pub commit_hash : ℕ
  pub messages : List ℕ

-- `AggAgg::old_root` and `AggAgg::new_root`.
unfoldable pub agg_old_root : AggAgg → ℕ
agg_old_root a = a.proof_0.public_inputs.old_root

unfoldable pub agg_new_root : AggAgg → ℕ
unfolding is_padding
agg_new_root a =
    if is_padding a.proof_1.public_inputs
    then a.proof_0.public_inputs.new_root
    else a.proof_1.public_inputs.new_root

unfoldable pub agg_messages : AggAgg → List ℕ
agg_messages a = a.proof_0.public_inputs.messages ++ a.proof_1.public_inputs.messages

module _ (hash_merge : List ℕ → ℕ) where
  -- `UtxoPublicInput::commit_hash`.
  unfoldable pub utxo_commit_hash : UtxoPublicInput → ℕ
  utxo_commit_hash p = hash_merge (commitments p)

  -- `AggUtxo::commit_hash`.
  unfoldable pub commit_hash : AggUtxo → ℕ
  unfolding utxo_commit_hash
  commit_hash a = hash_merge (
      utxo_commit_hash a.proof_0.utxo_proof.public_inputs
      ∷ utxo_commit_hash a.proof_1.utxo_proof.public_inputs
      ∷ utxo_commit_hash a.proof_2.utxo_proof.public_inputs
      ∷ [])

  -- `AggAgg::commit_hash`.
  unfoldable pub agg_commit_hash : AggAgg → ℕ
  agg_commit_hash a =
      hash_merge (a.proof_0.public_inputs.commit_hash ∷ a.proof_1.public_inputs.commit_hash ∷ [])

  -- `AggAgg::public_inputs`.
  unfoldable pub agg_public_inputs : AggAgg → AggAggPublicInput
  unfolding agg_old_root agg_new_root agg_commit_hash agg_messages
  agg_public_inputs a = record {
    old_root = agg_old_root a;
    new_root = agg_new_root a;
    commit_hash = agg_commit_hash a;
    messages = agg_messages a;
  }

module _ (to_be_bytes : ℕ → Bytes) where
  -- One round of the outer loop.
  unfoldable pub add_messages : List ℕ × ℕ → UtxoPublicInput → Option (List ℕ × ℕ)
  unfolding shown write_messages
  add_messages (array, index) p =
      kind_of_inputs to_be_bytes p >>=? λ kind. write_messages array index (shown kind p.messages)

  -- The outer loop of `AggUtxo::messages` on an array.
  unfoldable pub merge_into : List ℕ → AggUtxo → Option (List ℕ)
  merge_into array a = add_messages (array, 0) a.proof_0.utxo_proof.public_inputs >>=? λ first.
      add_messages first a.proof_1.utxo_proof.public_inputs >>=? λ second.
      add_messages second a.proof_2.utxo_proof.public_inputs >>=? λ third. some (third.0)

  -- `AggUtxo::messages`.
  unfoldable pub merged_messages : AggUtxo → Option (List ℕ)
  merged_messages a = merge_into (replicate 15 0) a

  -- `concat` of the byte forms.
  unfoldable pub concat_bytes : List ℕ → Bytes
  concat_bytes [] = []
  concat_bytes (e ∷ elements) = to_be_bytes e ++ concat_bytes elements

  -- `AggUtxoPublicInput::to_bytes`: the fifteen messages, then the roots and the hash.
  unfoldable pub agg_utxo_to_bytes : AggUtxoPublicInput → Bytes
  unfolding concat_bytes
  agg_utxo_to_bytes p = concat_bytes (p.messages ++ p.old_root ∷ p.new_root ∷ p.commit_hash ∷ [])

  -- `AggUtxoProof::to_bytes`.
  unfoldable pub agg_utxo_proof_to_bytes : AggUtxoProof → Bytes
  unfolding agg_utxo_to_bytes
  agg_utxo_proof_to_bytes p = agg_utxo_to_bytes p.public_inputs ++ p.proof

  -- `AggAggPublicInput::to_bytes`: the roots and the hash, then the messages.
  unfoldable pub agg_agg_to_bytes : AggAggPublicInput → Bytes
  unfolding concat_bytes
  agg_agg_to_bytes p =
      to_be_bytes p.old_root
      ++ (to_be_bytes p.new_root ++ (to_be_bytes p.commit_hash ++ concat_bytes p.messages))

  -- `AggAggProof::to_bytes`, with the accumulator's elements between.
  unfoldable pub agg_agg_proof_to_bytes : AggAggPublicInput → List ℕ → Bytes → Bytes
  unfolding agg_agg_to_bytes concat_bytes
  agg_agg_proof_to_bytes public_inputs kzg proof =
      agg_agg_to_bytes public_inputs ++ (concat_bytes kzg ++ proof)

-- `chunks_exact(32)`, so many chunks.
unfoldable pub chunks : ℕ → Bytes → List Bytes
chunks zero bytes = []
chunks (suc n) bytes = take 32 bytes ∷ chunks n (drop 32 bytes)

-- `bytes_to_elements`.
unfoldable pub bytes_to_elements : (Bytes → ℕ) → Bytes → Option (List ℕ)
unfolding chunks
bytes_to_elements from_be_bytes bytes =
    if length bytes % 32 == 0
    then some (map from_be_bytes (chunks (length bytes / 32) bytes))
    else none
