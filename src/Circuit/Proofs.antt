-- ===== src/Circuit/Proofs.antt =====
-- pkg/barretenberg/src/circuits/hyli_utxo.rs, hyli_smt_incl_proof.rs and utxo.rs: `prove`, with the
-- backend's prover as a parameter, and how the proofs are written to bytes (hyli_utxo.rs,
-- hyli_smt_incl_proof.rs and utxo.rs of pkg/zk-primitives/src). The byte forms of an element are
-- parameters. None is a panic; an error of the backend is passed on.
use cachecash.Prelude.{
  ℕ, ◌*◌, Option, none, some, List, [], ◌∷◌, ◌++◌, Bytes, length, take, drop, leb, ◌==◌,
  if◌then◌else◌, Result, ok, err,
}
use cachecash.Element.Signed.{Arith}
use cachecash.Zk.Utxo.{Utxo, UtxoPublicInput, ◌>>=?◌, fields}
use cachecash.Zk.Aggregate.{UtxoProof, bytes_to_elements, concat_bytes}
use cachecash.Server.Prover.{HyliUtxo, HyliSmtIncl}
use cachecash.Circuit.Inputs.{
  UtxoInput, HyliUtxoInput, HyliSmtInclInput, utxo_input, build_hyli_input_map,
  build_smt_incl_input_map,
}
pub mod RoundTrip

-- `HyliUtxoProof` and `HyliSmtInclProof`.
pub record HyliProof : Type 0 where
  pub proof : Bytes
  pub public_inputs : List ℕ

-- A proof's error is passed on.
unfoldable pub with_proof :
    {E A : Type 0} → Result E Bytes → (Bytes → Option A) → Option (Result E A)
with_proof (err e) next = some (err e)
with_proof (ok bytes) next = next bytes >>=? λ a. some (ok a)

module _ (from_be_bytes : Bytes → ℕ) where
  -- The public inputs, so many words, and the rest; a slice out of bounds panics.
  unfoldable pub split_proof : ℕ → Bytes → Option (List ℕ × Bytes)
  split_proof count bytes =
      if leb (32 * count) (length bytes)
      then (bytes_to_elements from_be_bytes (take (32 * count) bytes) >>=? λ public_inputs.
          some (public_inputs, drop (32 * count) bytes))
      else none

  unfoldable pub hyli_proof : ℕ → Bytes → Option HyliProof
  unfolding split_proof
  hyli_proof count bytes = split_proof count bytes >>=? λ parts.
      some (record { proof = parts.1; public_inputs = parts.0 })

  -- The public inputs of a UTXO transaction, by their places.
  unfoldable pub utxo_public_inputs : List ℕ → Option UtxoPublicInput
  utxo_public_inputs (a ∷ b ∷ c ∷ d ∷ m0 ∷ m1 ∷ m2 ∷ m3 ∷ m4 ∷ _) = some (record {
    input_commitments = (a, b);
    output_commitments = (c, d);
    messages = record { message0 = m0; message1 = m1; message2 = m2; message3 = m3; message4 = m4 };
  })
  utxo_public_inputs _ = none

  -- The proof of a UTXO transaction, which has 456 words behind the nine public inputs.
  unfoldable pub utxo_proof : Bytes → Option UtxoProof
  unfolding split_proof utxo_public_inputs
  utxo_proof bytes = split_proof 9 bytes >>=? λ parts.
      if length (parts.1) == 456 * 32
      then (utxo_public_inputs (parts.0) >>=? λ public_inputs.
          some (record { proof = parts.1; public_inputs = public_inputs }))
      else none

  module _ {E : Type 0} (to_base : ℕ → ℕ) where
    -- `HyliSmtIncl::prove`.
    unfoldable pub prove_smt_incl :
        (HyliSmtInclInput → Result E Bytes) → HyliSmtIncl → Option (Result E HyliProof)
    unfolding with_proof hyli_proof build_smt_incl_input_map
    prove_smt_incl backend v = build_smt_incl_input_map to_base v >>=? λ inputs.
        with_proof (backend inputs) (hyli_proof 705)

    module _ (hash_merge : List ℕ → ℕ) (U : Arith) where
      -- `Utxo::prove`.
      unfoldable pub prove_utxo : (UtxoInput → Result E Bytes) → Utxo → Option (Result E UtxoProof)
      unfolding with_proof utxo_proof utxo_input
      prove_utxo backend u =
          utxo_input to_base hash_merge U u >>=? λ inputs. with_proof (backend inputs) utxo_proof

      -- `HyliUtxo::prove`.
      unfoldable pub prove_hyli_utxo :
          (ℕ → Bytes) → (HyliUtxoInput → Result E Bytes) → HyliUtxo → Option (Result E HyliProof)
      unfolding with_proof hyli_proof build_hyli_input_map
      prove_hyli_utxo to_be_bytes backend v =
          build_hyli_input_map to_base hash_merge U to_be_bytes v >>=? λ inputs.
          with_proof (backend inputs) (hyli_proof 713)

module _ (to_be_bytes : ℕ → Bytes) where
  -- `HyliUtxoProof::to_bytes` and `HyliSmtInclProof::to_bytes`.
  unfoldable pub hyli_to_bytes : HyliProof → Bytes
  unfolding concat_bytes
  hyli_to_bytes p = concat_bytes to_be_bytes p.public_inputs ++ p.proof

  -- `UtxoProof::to_bytes`.
  unfoldable pub utxo_to_bytes : UtxoProof → Bytes
  unfolding concat_bytes
  utxo_to_bytes p = concat_bytes to_be_bytes (fields p.public_inputs) ++ p.proof
