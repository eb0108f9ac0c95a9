-- ===== src/Zk/HyliUtxo.antt =====
-- pkg/zk-primitives/src/hyli_utxo.rs: the blob that a transaction publishes, and the padded texts
-- of the proof's inputs.
use cachecash.Prelude.{
  ℕ, ◌-◌, ◌≤◌, ◌≡◌, refl, Option, none, some, List, [], ◌∷◌, ◌++◌, Bytes, length, take, replicate,
  leb, if◌then◌else◌, ok, arith, length-append, length-replicate, take_of_length-append,
}
use cachecash.Contract.Blob.{SeparatedHyliUtxoBlob, parse_hyli_utxo_blob}
use cachecash.Contract.Parsing.{parse_hyli_utxo_blob_iff}
use cachecash.Zk.Note.{InputNote}
use cachecash.Zk.Utxo.{Utxo, output_commitments}

module _ (hash_merge : List ℕ → ℕ) where
  -- `nullifier_commitments`.
  unfoldable pub nullifier_of : InputNote → ℕ
  nullifier_of n = hash_merge (n.note.psi ∷ n.secret_key ∷ [])

  unfoldable pub nullifier_commitments : Utxo → ℕ × ℕ
  unfolding nullifier_of
  nullifier_commitments u = (nullifier_of u.input_notes.0, nullifier_of u.input_notes.1)

  module _ (to_be_bytes : ℕ → Bytes) where
    -- `expected_blob`: the output commitments, then the nullifiers, each copied behind the last.
    unfoldable pub expected_blob : Utxo → Bytes
    unfolding nullifier_commitments
    expected_blob u =
        to_be_bytes (output_commitments hash_merge u).0
        ++ (to_be_bytes (output_commitments hash_merge u).1
            ++ (to_be_bytes (nullifier_commitments u).0 ++ to_be_bytes (nullifier_commitments u).1))

    -- What the contract reads out of the blob.
    abbrev pub blob_commitments : Utxo → SeparatedHyliUtxoBlob
    blob_commitments u = record {
      output_notes = (
        to_be_bytes (output_commitments hash_merge u).0,
        to_be_bytes (output_commitments hash_merge u).1,
      );
      nullifiers =
          (to_be_bytes (nullifier_commitments u).0, to_be_bytes (nullifier_commitments u).1);
    }

    -- The contract's parser reads out of the blob of a transaction the commitments of its output
    -- notes as created notes, and the hashes of psi and secret key of its input notes as
    -- nullifiers, when an element has 32 bytes.
    pub parse-expected_blob :
        (u : Utxo)
        → ((n : ℕ) → length (to_be_bytes n) ≡ 32)
        → parse_hyli_utxo_blob (expected_blob u) ≡ ok (blob_commitments u)
    unfolding expected_blob
    parse-expected_blob u size =
        (parse_hyli_utxo_blob_iff (expected_blob u) (blob_commitments u)).1 (
          record { output0 = size _; output1 = size _; nullifier0 = size _; nullifier1 = size _ },
          refl,
        )

-- `pad_string`: zeros up to the length; a longer text is a panic.
unfoldable pub pad_string : Bytes → ℕ → Option Bytes
pad_string value target_len =
    if leb (length value) target_len
    then some (value ++ replicate (target_len - length value) 0)
    else none

-- A padded text has the length, and starts with the text, when it is not longer than that.
pub pad_string-eq :
    (value : Bytes) (target_len : ℕ)
    → length value ≤ target_len
    → (padded : Bytes) × (pad_string value target_len ≡ some padded)
      × (length padded ≡ target_len)
      × (take (length value) padded ≡ value)
unfolding pad_string
pad_string-eq value target_len fits =
    let zeros : Bytes = replicate (target_len - length value) 0 in
    let count : length zeros ≡ target_len - length value = length-replicate _ 0 in
    (
      value ++ zeros,
      ground (arith, fits),
      omega (arith, fits, length-append value zeros, count),
      take_of_length-append value zeros,
    )
