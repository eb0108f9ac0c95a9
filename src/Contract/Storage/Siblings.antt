-- ===== src/Contract/Storage/Siblings.antt =====
-- The siblings that contracts/hyli-utxo-state/src/zk/smt.rs gives the circuit.
use cachecash.Prelude.{
  ℕ, zero, suc, ◌+◌, ◌≤◌, ◌≡◌, refl, ap, ◌∙◌, Bool, true, false, some, List, [], ◌∷◌, length, take,
  map, All, ok, arith,
}
use cachecash.Contract.Smt.{H256, SparseMerkleTree}
use cachecash.Contract.Storage.{fill_siblings, bits_from, h256_to_field, build_siblings}

abbrev pub ones : List Bool → ℕ
ones [] = 0
ones (true ∷ bits) = suc (ones bits)
ones (false ∷ bits) = ones bits

-- The entries where the bits are set, and those where they are clear.
abbrev pub at_set : List Bool → List ℕ → List ℕ
at_set [] siblings = []
at_set (bit ∷ bits) [] = []
at_set (true ∷ bits) (s ∷ siblings) = s ∷ at_set bits siblings
at_set (false ∷ bits) (s ∷ siblings) = at_set bits siblings

abbrev pub at_clear : List Bool → List ℕ → List ℕ
at_clear [] siblings = []
at_clear (bit ∷ bits) [] = []
at_clear (true ∷ bits) (s ∷ siblings) = at_clear bits siblings
at_clear (false ∷ bits) (s ∷ siblings) = s ∷ at_clear bits siblings

module _ {Node : Type 0} (to_field : Node → ℕ) where
  -- Siblings that were filled in after the bits.
  pub record IsFilled (bits : List Bool) (path : List Node) (siblings : List ℕ) : Type 0 where
    pub size : length siblings ≡ length bits
    pub set : at_set bits siblings ≡ map to_field (take (ones bits) path)
    pub clear : All (λ s. s ≡ 0) (at_clear bits siblings)

  pub fill_siblings-IsFilled :
      (bits : List Bool) (path : List Node)
      → ones bits ≤ length path
      → (siblings : List ℕ) × (fill_siblings to_field bits path ≡ some siblings)
        × IsFilled bits path siblings
  unfolding fill_siblings
  fill_siblings-IsFilled [] path enough = ([], refl, record { size = refl; set = refl; clear = tt })
  fill_siblings-IsFilled (false ∷ bits) path enough =
      let (rest, same, filled) = fill_siblings-IsFilled bits path enough in
      (
        0 ∷ rest,
        rw (same, fill_siblings) refl,
        record { size = ap suc (filled.size); set = filled.set; clear = (refl, filled.clear) },
      )
  fill_siblings-IsFilled (true ∷ bits) [] enough = absurd (omega (arith, enough))
  fill_siblings-IsFilled (true ∷ bits) (node ∷ path) enough =
      let (rest, same, filled) = fill_siblings-IsFilled bits path (omega (arith, enough)) in
      (
        to_field node ∷ rest,
        rw (same, fill_siblings) refl,
        record {
          size = ap suc (filled.size);
          set = ap (◌∷◌ (to_field node)) (filled.set);
          clear = filled.clear;
        },
      )

length-bits_from : (get_bit : ℕ → Bool) (h n : ℕ) → length (bits_from get_bit h n) ≡ n
unfolding bits_from
length-bits_from get_bit h zero = refl
length-bits_from get_bit h (suc n) = ap suc (length-bits_from get_bit (h + 1) n)

module _ (C : SparseMerkleTree) {Node : Type 0} (get_bit : C.MerkleProof → ℕ → Bool)
    (merkle_path : C.MerkleProof → List Node) (hash : Node → H256) (modulus : ℕ) where
  -- The siblings of a commitment are 256: where the bitmap of its proof is set they are the hashes
  -- of the path as field elements, in order, and elsewhere they are zero. The tree gives a proof
  -- whose path has a node for each set bit.
  pub build_siblings-IsFilled :
      (tree : C.Tree) (commitment : H256) (proof : C.MerkleProof)
      → C.prove tree (commitment ∷ []) ≡ ok proof
      → ones (bits_from (get_bit proof) 0 256) ≤ length (merkle_path proof)
      → (siblings : List ℕ) × (build_siblings C get_bit merkle_path hash modulus tree commitment
          ≡ some siblings)
        × (length siblings ≡ 256)
        × IsFilled
            (λ (node : Node). h256_to_field modulus (hash node))
            (bits_from (get_bit proof) 0 256)
            (merkle_path proof)
            siblings
  unfolding build_siblings
  build_siblings-IsFilled tree commitment proof proved enough =
      let bits = bits_from (get_bit proof) 0 256 in
      let (siblings, same, filled) =
        fill_siblings-IsFilled (λ (node : Node). h256_to_field modulus (hash node)) bits
          (merkle_path proof) enough in
      (
        siblings,
        rw (proved, build_siblings) same,
        filled.size ∙ length-bits_from (get_bit proof) 0 256,
        filled,
      )
