-- ===== src/Circuit/Proofs/RoundTrip.antt =====
-- The bytes of a proof are those that the backend gave (pkg/barretenberg/src/circuits).
use cachecash.Prelude.{
  ℕ, zero, suc, ◌+◌, ◌*◌, ◌/◌, ◌%◌, ◌≤◌, ◌≡◌, refl, ap, ◌∙◌, true, some, List, [], ◌∷◌, ◌++◌, map,
  Bytes, All, length, length-map, length-take, take, drop, take-append-drop, take_of_length-le, leb,
  ◌==◌, arith,
}
use cachecash.Zk.Aggregate.{bytes_to_elements, chunks, concat_bytes}
use cachecash.Circuit.Proofs.{HyliProof, split_proof, hyli_proof, hyli_to_bytes}

take_any {ℓ} : {A : Type ℓ} (n k : ℕ) → take {A = A} n [] ≡ take k []
take_any zero zero = refl
take_any zero (suc k) = refl
take_any (suc n) zero = refl
take_any (suc n) (suc k) = refl

take-add {ℓ} :
    {A : Type ℓ} (m n : ℕ) (xs : List A) → take m xs ++ take n (drop m xs) ≡ take (m + n) xs
take-add zero n xs = ap (λ k. take k xs) (omega arith)
take-add (suc m) n [] = take_any n (suc m + n)
take-add (suc m) n (x ∷ xs) =
    let one : suc (m + n) ≡ suc m + n = omega arith in
    ap (◌∷◌ x) (take-add m n xs) ∙ ap (λ k. take k (x ∷ xs)) one

pub length-chunks : (n : ℕ) (bytes : Bytes) → length (chunks n bytes) ≡ n
unfolding chunks
length-chunks zero bytes = refl
length-chunks (suc n) bytes = omega (arith, length-chunks n (drop 32 bytes))

module _ (to_be_bytes : ℕ → Bytes) (from_be_bytes : Bytes → ℕ) where
  -- The words come back from their elements.
  abbrev pub ComeBack : List Bytes → Type 0
  ComeBack words = All (λ w. to_be_bytes (from_be_bytes w) ≡ w) words

  concat-chunks :
      (n : ℕ) (bytes : Bytes)
      → ComeBack (chunks n bytes)
      → concat_bytes to_be_bytes (map from_be_bytes (chunks n bytes)) ≡ take (32 * n) bytes
  unfolding concat_bytes chunks
  concat-chunks zero bytes back = refl
  concat-chunks (suc n) bytes back =
      let more : 32 + 32 * n ≡ 32 * suc n = omega arith in
      rw (back.0, concat-chunks n (drop 32 bytes) (back.1))
        (take-add 32 (32 * n) bytes ∙ ap (λ k. take k bytes) more)

  -- The parts of a proof that is long enough.
  split_proof-parts :
      (count : ℕ) (bytes : Bytes)
      → 32 * count ≤ length bytes
      → split_proof from_be_bytes count bytes
        ≡ some (map from_be_bytes (chunks count (take (32 * count) bytes)), drop (32 * count) bytes)
  unfolding split_proof bytes_to_elements
  split_proof-parts count bytes long =
      let n = 32 * count in
      let long_enough : leb n (length bytes) ≡ true = ground arith in
      let size : length (take n bytes) ≡ n = omega (arith, length-take n bytes) in
      let whole : (n % 32 == 0) ≡ true = ground arith in
      let words : n / 32 ≡ count = omega arith in rw (long_enough, size, whole, words) refl

  -- A proof that has the words of its public inputs is taken apart, into so many public inputs and
  -- the rest, and its bytes are those that the backend gave, when the words of the public inputs
  -- come back from their elements.
  pub hyli_to_bytes-hyli_proof :
      (count : ℕ) (bytes : Bytes)
      → 32 * count ≤ length bytes
      → ComeBack (chunks count (take (32 * count) bytes))
      → (p : HyliProof) × (hyli_proof from_be_bytes count bytes ≡ some p)
        × (length p.public_inputs ≡ count)
        × (hyli_to_bytes to_be_bytes p ≡ bytes)
  unfolding hyli_proof hyli_to_bytes
  hyli_to_bytes-hyli_proof count bytes long back =
      let n = 32 * count in
      let inputs = take n bytes in
      let full : take n inputs ≡ inputs =
        take_of_length-le n inputs (omega (arith, length-take n bytes)) in
      (
        record { proof = drop n bytes; public_inputs = map from_be_bytes (chunks count inputs) },
        rw (split_proof-parts count bytes long) refl,
        length-map from_be_bytes (chunks count inputs) ∙ length-chunks count inputs,
        ap (λ front. front ++ drop n bytes) (concat-chunks count inputs back ∙ full)
            ∙ take-append-drop n bytes,
      )
