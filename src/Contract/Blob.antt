-- ===== src/Contract/Blob.antt =====
-- contracts/hyli-utxo-state/src/state.rs: the payloads of the two Noir blobs.
use cachecash.Prelude.{
  ℕ, zero, suc, List, [], ◌∷◌, Bytes, length, take, drop, ◌==◌, if◌then◌else◌, Result, ok, err,
}
use cachecash.Contract.Smt.{H256}

-- The messages of `state.rs` that its `Result<_, String>` carries.
pub data Error : Type 0 where
  wrong_utxo_blob_size wrong_smt_blob_size : ℕ → Error
  note_exists : Error
  already_nullified : ℕ → Error
  insert_failed nullify_failed proof_failed root_failed empty_witness : Error
  witness_not_zero : Error
  utxo_blob_missing smt_blob_missing smt_blob_not_structured : Error
  root_mismatch nullifier_0_mismatch nullifier_1_mismatch : Error
  multiple_withdraws unexpected_callees : Error
  notes_witness_size nullified_witness_size : Error
  bad_calldata : Error

-- The two created notes and the two nullifiers of a blob.
pub record SeparatedHyliUtxoBlob : Type 0 where
  pub output_notes : H256 × H256
  pub nullifiers : H256 × H256

-- `chunks_exact(32)` of a slice; a rest that is shorter is left out. `n` is the number of chunks.
unfoldable pub chunks_exact : ℕ → Bytes → List Bytes
chunks_exact zero bytes = []
chunks_exact (suc n) bytes = take 32 bytes ∷ chunks_exact n (drop 32 bytes)

-- The indexing `commitments[0] .. commitments[3]`.
abbrev pub separate : List Bytes → Result Error SeparatedHyliUtxoBlob
separate (c0 ∷ c1 ∷ c2 ∷ c3 ∷ _) = ok (record { output_notes = (c0, c1); nullifiers = (c2, c3) })
separate cs = err (wrong_utxo_blob_size (length cs))

unfoldable pub parse_hyli_utxo_blob : Bytes → Result Error SeparatedHyliUtxoBlob
unfolding chunks_exact
parse_hyli_utxo_blob bytes =
    if length bytes == 128
    then separate (chunks_exact 4 bytes)
    else err (wrong_utxo_blob_size (length bytes))

-- The first two nullifiers, and the first eight bytes of the notes root.
pub record SmtInclBlob : Type 0 where
  pub nullifier0 : H256
  pub nullifier1 : H256
  pub notes_root_fingerprint : Bytes

unfoldable pub parse_hyli_smt_incl_blob : Bytes → Result Error SmtInclBlob
parse_hyli_smt_incl_blob bytes =
    if length bytes == 96
    then ok (record {
      nullifier0 = take 32 bytes;
      nullifier1 = take 32 (drop 32 bytes);
      notes_root_fingerprint = take 8 (drop 64 bytes);
    })
    else err (wrong_smt_blob_size (length bytes))
