-- ===== src/Circuit/Aggregation/Refused.antt =====
-- The proofs of UTXO transactions against the arrays of the aggregation (utxo.rs and agg_utxo.rs of
-- pkg/barretenberg/src/circuits).
use cachecash.Prelude.{
  ℕ, ◌≡◌, ◌⊎◌, inl, inr, refl, sym, ap, ◌∙◌, Option, none, some, Bytes, List, length, ◌==◌, ok, err,
  Result, Bool-cases, if◌then◌else◌, ==_iff,
}
use cachecash.Element.Signed.{Arith}
use cachecash.Zk.Utxo.{Utxo, ◌>>=?◌}
use cachecash.Zk.Aggregate.{
  UtxoProof, UtxoProofBundleWithMerkleProofs, AggUtxo, bytes_to_elements, chunks,
}
use cachecash.Circuit.Inputs.{UtxoInput, utxo_input}
use cachecash.Circuit.Proofs.{with_proof, split_proof, utxo_proof, utxo_public_inputs, prove_utxo}
use cachecash.Circuit.Aggregation.{
  Key, AggUtxoInput, to_array, proof_fields, agg_utxo_proof_input, agg_utxo_input, prove_agg_utxo,
}

>>=?-eq-some {ℓ κ} :
    {A : Type ℓ} {B : Type κ} (m : Option A) (next : A → Option B) {b : B}
    → m >>=? next ≡ some b
    → (a : A) × (m ≡ some a) × (next a ≡ some b)
>>=?-eq-some none next h = absurd (cc h)
>>=?-eq-some (some a) next h = (a, refl, h)

-- A chain of three steps that may panic stops where one of them does.
three-none {ℓ κ} :
    {A : Type ℓ} {B : Type κ} (x y z : Option A) (next : A → A → A → Option B)
    → (x ≡ none) ⊎ ((y ≡ none) ⊎ (z ≡ none))
    → (x >>=? λ first. y >>=? λ second. z >>=? λ third. next first second third) ≡ none
three-none none y z next stops = refl
three-none (some a) none z next stops = refl
three-none (some a) (some b) none next stops = refl
three-none (some a) (some b) (some c) next (inl e) = absurd (cc e)
three-none (some a) (some b) (some c) next (inr (inl e)) = absurd (cc e)
three-none (some a) (some b) (some c) next (inr (inr e)) = absurd (cc e)

with_proof-ok :
    {E A : Type 0} (r : Result E Bytes) (next : Bytes → Option A) (a : A)
    → with_proof r next ≡ some (ok a)
    → (bytes : Bytes) × (r ≡ ok bytes) × (next bytes ≡ some a)
unfolding with_proof
with_proof-ok (err e) next a h = absurd (cc h)
with_proof-ok (ok bytes) next a h =
    let (a', found, same) = >>=?-eq-some (next bytes) _ h in
    let one : a' ≡ a = cc same in (bytes, refl, found ∙ ap some one)

-- One of the three transactions of an aggregation has the proof.
abbrev pub Aggregates : AggUtxo → UtxoProof → Type 0
Aggregates a p =
    (a.proof_0.utxo_proof ≡ p) ⊎ ((a.proof_1.utxo_proof ≡ p) ⊎ (a.proof_2.utxo_proof ≡ p))

module _ (from_be_bytes : Bytes → ℕ) (to_base : ℕ → ℕ) where
  -- A proof that is long enough, or none.
  sized_proof :
      (parts : List ℕ × Bytes) (p : UtxoProof)
      → (if length parts.1 == 14_592
          then (utxo_public_inputs from_be_bytes parts.0 >>=? λ public_inputs.
              some (record { proof = parts.1; public_inputs = public_inputs }))
          else none)
        ≡ some p
      → length p.proof ≡ 14_592
  sized_proof (inputs, proof) p h = elim (Bool-cases (length proof == 14_592)) [
    | inl sized ↦
        let (found, same, made) =
          >>=?-eq-some (utxo_public_inputs from_be_bytes inputs) _ (rw sized at h) in
        let is : record { proof = proof; public_inputs = found } ≡ p = cc made in
        sym (ap (λ (q : UtxoProof). length (q.proof)) is) ∙ (==_iff _ _).0 sized
    | inr not_sized ↦ absurd (cc (h, not_sized))
  ]

  -- A proof of a transaction has 456 words.
  utxo_proof-size :
      (bytes : Bytes) (p : UtxoProof)
      → utxo_proof from_be_bytes bytes ≡ some p
      → length p.proof ≡ 14_592
  unfolding utxo_proof
  utxo_proof-size bytes p h =
      let (parts, split, rest) = >>=?-eq-some (split_proof from_be_bytes 9 bytes) _ h in
      sized_proof parts p rest

  -- And its fields do not fill the array of the aggregation.
  proof_fields-none :
      (proof : Bytes) → length proof ≡ 14_592 → proof_fields from_be_bytes to_base proof ≡ none
  unfolding proof_fields bytes_to_elements to_array chunks
  proof_fields-none proof size = rw size refl

  module _ (hash_merge : List ℕ → ℕ) (U : Arith) (to_be_bytes : ℕ → Bytes) where
    bundle-none :
        (b : UtxoProofBundleWithMerkleProofs) (p : UtxoProof)
        → length p.proof ≡ 14_592
        → b.utxo_proof ≡ p
        → agg_utxo_proof_input from_be_bytes to_base hash_merge to_be_bytes b ≡ none
    unfolding agg_utxo_proof_input
    bundle-none b p size is =
        let same : length b.utxo_proof.proof ≡ 14_592 =
          ap (λ (q : UtxoProof). length (q.proof)) is ∙ size in
        rw (proof_fields-none (b.utxo_proof.proof) same) refl

    agg_utxo_input-none :
        (key : Key) (a : AggUtxo) (p : UtxoProof)
        → length p.proof ≡ 14_592
        → Aggregates a p
        → agg_utxo_input from_be_bytes to_base hash_merge to_be_bytes key a ≡ none
    unfolding agg_utxo_input
    agg_utxo_input-none key a p size one = three-none _ _ _ _ (elim one [
      | inl first ↦ inl (bundle-none (a.proof_0) p size first)
      | inr (inl second) ↦ inr (inl (bundle-none (a.proof_1) p size second))
      | inr (inr third) ↦ inr (inr (bundle-none (a.proof_2) p size third))
    ])

    -- No proof that `Utxo::prove` returns can be aggregated: it has 456 words, and the conversion to
    -- the inputs of `AggUtxo::prove` stops at the array of 508, at whichever of the three places the
    -- proof stands.
    pub prove_agg_utxo-refused :
        {E : Type 0} (backend : UtxoInput → Result E Bytes) (u : Utxo) (p : UtxoProof) (key : Key)
        (a : AggUtxo) (next : AggUtxoInput → Result E Bytes)
        → prove_utxo from_be_bytes to_base hash_merge U backend u ≡ some (ok p)
        → Aggregates a p
        → prove_agg_utxo from_be_bytes to_base hash_merge key to_be_bytes next a ≡ none
    unfolding prove_utxo prove_agg_utxo
    prove_agg_utxo-refused backend u p key a next proved one =
        let (inputs, made, given) = >>=?-eq-some (utxo_input to_base hash_merge U u) _ proved in
        let (bytes, answered, parsed) =
          with_proof-ok (backend inputs) (utxo_proof from_be_bytes) p given in
        let size = utxo_proof-size bytes p parsed in rw (agg_utxo_input-none key a p size one) refl
