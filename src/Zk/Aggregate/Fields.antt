-- ===== src/Zk/Aggregate/Fields.antt =====
-- The elements of the aggregated public inputs come back from their bytes (agg_utxo.rs, agg_agg.rs
-- and util.rs of pkg/zk-primitives/src).
use cachecash.Prelude.{
  ℕ, ◌*◌, ◌/◌, ◌%◌, ◌≡◌, refl, sym, ap, ◌∙◌, some, List, [], ◌∷◌, ◌++◌, map, Bytes, length,
  length-append, take, drop, take_of_length-append, drop_of_length-append, ◌==◌, arith, true,
}
use cachecash.Zk.Aggregate.{
  AggUtxoPublicInput, AggAggPublicInput, concat_bytes, agg_utxo_to_bytes, agg_agg_to_bytes, chunks,
  bytes_to_elements,
}

module _ (to_be_bytes : ℕ → Bytes) (from_be_bytes : Bytes → ℕ)
    (size : (n : ℕ) → length (to_be_bytes n) ≡ 32)
    (back : (n : ℕ) → from_be_bytes (to_be_bytes n) ≡ n) where
  length-concat_bytes :
      (elements : List ℕ) → length (concat_bytes to_be_bytes elements) ≡ 32 * length elements
  unfolding concat_bytes
  length-concat_bytes [] = refl
  length-concat_bytes (e ∷ elements) = omega (
    arith,
    length-append (to_be_bytes e) (concat_bytes to_be_bytes elements),
    size e,
    length-concat_bytes elements,
  )

  take_word : (e : ℕ) (rest : Bytes) → take 32 (to_be_bytes e ++ rest) ≡ to_be_bytes e
  take_word e rest =
      ap (λ n. take n (to_be_bytes e ++ rest)) (sym (size e))
      ∙ take_of_length-append (to_be_bytes e) rest

  drop_word : (e : ℕ) (rest : Bytes) → drop 32 (to_be_bytes e ++ rest) ≡ rest
  drop_word e rest =
      ap (λ n. drop n (to_be_bytes e ++ rest)) (sym (size e))
      ∙ drop_of_length-append (to_be_bytes e) rest

  chunks-concat_bytes :
      (elements : List ℕ)
      → map from_be_bytes (chunks (length elements) (concat_bytes to_be_bytes elements)) ≡ elements
  unfolding chunks concat_bytes
  chunks-concat_bytes [] = refl
  chunks-concat_bytes (e ∷ elements) =
      rw
        (
          take_word e (concat_bytes to_be_bytes elements),
          drop_word e (concat_bytes to_be_bytes elements),
          back e,
          chunks-concat_bytes elements,
        )
        refl

  bytes_to_elements-concat_bytes :
      (elements : List ℕ)
      → bytes_to_elements from_be_bytes (concat_bytes to_be_bytes elements) ≡ some elements
  unfolding bytes_to_elements
  bytes_to_elements-concat_bytes elements =
      let n = length elements in
      let whole : ((32 * n) % 32 == 0) ≡ true = ground arith in
      let count : (32 * n) / 32 ≡ n = omega arith in
      rw (length-concat_bytes elements, whole, count, chunks-concat_bytes elements) refl

  agg_agg-concat :
      (p : AggAggPublicInput)
      → agg_agg_to_bytes to_be_bytes p
        ≡ concat_bytes to_be_bytes (p.old_root ∷ p.new_root ∷ p.commit_hash ∷ p.messages)
  unfolding agg_agg_to_bytes concat_bytes
  agg_agg-concat p = refl

  -- The elements of both kinds of aggregated public inputs come back from their bytes in the order
  -- of the bytes: for three transactions the messages, the two roots and the hash, for two such
  -- proofs the two roots, the hash and the messages. An element has 32 bytes and comes back from
  -- them.
  pub bytes_to_elements-to_bytes :
      (p : AggUtxoPublicInput) (q : AggAggPublicInput)
      → (bytes_to_elements from_be_bytes (agg_utxo_to_bytes to_be_bytes p)
          ≡ some (p.messages ++ p.old_root ∷ p.new_root ∷ p.commit_hash ∷ []))
        × (bytes_to_elements from_be_bytes (agg_agg_to_bytes to_be_bytes q)
            ≡ some (q.old_root ∷ q.new_root ∷ q.commit_hash ∷ q.messages))
  unfolding agg_utxo_to_bytes
  bytes_to_elements-to_bytes p q = (
    bytes_to_elements-concat_bytes (p.messages ++ p.old_root ∷ p.new_root ∷ p.commit_hash ∷ []),
    ap (bytes_to_elements from_be_bytes) (agg_agg-concat q)
        ∙ bytes_to_elements-concat_bytes (q.old_root ∷ q.new_root ∷ q.commit_hash ∷ q.messages),
  )
