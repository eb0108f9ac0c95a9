-- ===== src/Zk/Path.antt =====
-- pkg/hash/src/path.rs, pkg/element/src/lsb.rs and pkg/zk-primitives/src/merkle_path.rs. The hash
-- of two elements is the parameter `merge`. A path has at most 256 siblings, the bits of an
-- element.
use cachecash.Prelude.{
  ℕ, zero, suc, ◌-◌, ◌%◌, ◌/◌, ◌≡◌, ◌≢◌, refl, ap, ◌∙◌, Bool, true, false, Option, none, some, List,
  [], ◌∷◌, length, replicate, ◌==◌, if◌then◌else◌, arith,
}

-- `least_significant_bits`: the bits of an element from the lowest on.
unfoldable pub least_significant_bits : ℕ → ℕ → List Bool
least_significant_bits element zero = []
least_significant_bits element (suc depth) =
    (element % 2 == 1) ∷ least_significant_bits (element / 2) depth

length-least_significant_bits :
    (element depth : ℕ) → length (least_significant_bits element depth) ≡ depth
unfolding least_significant_bits
length-least_significant_bits element zero = refl
length-least_significant_bits element (suc depth) =
    ap suc (length-least_significant_bits (element / 2) depth)

-- `zip`.
abbrev pub zip : List ℕ → List Bool → List (ℕ × Bool)
zip (x ∷ xs) (b ∷ bs) = (x, b) ∷ zip xs bs
zip _ _ = []

module _ (merge : ℕ → ℕ → ℕ) where
  -- One level up: a bit that is not set has the element on the left.
  unfoldable pub step : Bool → ℕ → ℕ → ℕ
  step false leaf sibling = merge leaf sibling
  step true leaf sibling = merge sibling leaf

  unfoldable pub compute_merkle_root_from_iter : ℕ → List (ℕ × Bool) → ℕ
  unfolding step
  compute_merkle_root_from_iter leaf [] = leaf
  compute_merkle_root_from_iter leaf ((sibling, bit) ∷ siblings) =
      compute_merkle_root_from_iter (step bit leaf sibling) siblings

  -- The hashes on the way up, behind the first.
  unfoldable pub path_from : ℕ → List (ℕ × Bool) → List ℕ
  unfolding step
  path_from hash [] = []
  path_from hash ((sibling, bit) ∷ siblings) =
      step bit hash sibling ∷ path_from (step bit hash sibling) siblings

  -- `empty_tree_root`; a depth of zero is a panic.
  unfoldable pub empty_tree_root : ℕ → Option ℕ
  unfolding compute_merkle_root_from_iter
  empty_tree_root zero = none
  empty_tree_root (suc n) = some (compute_merkle_root_from_iter 0 (replicate n (0, false)))

  -- The definition that the comment of `empty_tree_root` gives.
  abbrev pub documented_empty_root : ℕ → ℕ
  documented_empty_root zero = 0
  documented_empty_root (suc n) = let below = documented_empty_root n in merge below below

  unfoldable pub compute_merkle_root : ℕ → ℕ → List ℕ → ℕ
  unfolding compute_merkle_root_from_iter
  compute_merkle_root leaf path_element siblings =
      compute_merkle_root_from_iter leaf
        (zip siblings (least_significant_bits path_element (length siblings)))

  unfoldable pub compute_null_root : ℕ → List ℕ → ℕ
  unfolding compute_merkle_root_from_iter
  compute_null_root leaf siblings =
      compute_merkle_root_from_iter 0 (zip siblings (least_significant_bits leaf (length siblings)))

  unfoldable pub compute_merkle_path_for_leaf : ℕ → List ℕ → List ℕ
  unfolding path_from
  compute_merkle_path_for_leaf leaf siblings =
      leaf ∷ path_from leaf (zip siblings (least_significant_bits leaf (length siblings)))

  -- `MerklePath::new` at a depth, and its methods.
  unfoldable pub new_path : ℕ → List ℕ → Option (List ℕ)
  new_path depth siblings = if length siblings == (depth - 1) then some siblings else none

  unfoldable pub compute_before_root : List ℕ → ℕ → ℕ
  unfolding compute_merkle_root
  compute_before_root siblings hash = compute_merkle_root hash hash siblings

  unfoldable pub compute_after_root : List ℕ → ℕ → ℕ
  unfolding compute_null_root
  compute_after_root siblings hash = compute_null_root hash siblings

  unfoldable pub apply_leaf : List ℕ → ℕ → List ℕ
  unfolding compute_merkle_path_for_leaf
  apply_leaf siblings leaf = compute_merkle_path_for_leaf leaf siblings

  -- The last entry of a path, from its first on.
  abbrev pub last_of : ℕ → List ℕ → ℕ
  last_of x [] = x
  last_of x (y ∷ ys) = last_of y ys

  last-path_from :
      (hash : ℕ) (siblings : List (ℕ × Bool))
      → last_of hash (path_from hash siblings) ≡ compute_merkle_root_from_iter hash siblings
  unfolding path_from compute_merkle_root_from_iter
  last-path_from hash [] = refl
  last-path_from hash ((sibling, bit) ∷ siblings) = last-path_from (step bit hash sibling) siblings

  length-path_from :
      (hash : ℕ) (siblings : List (ℕ × Bool)) → length (path_from hash siblings) ≡ length siblings
  unfolding path_from
  length-path_from hash [] = refl
  length-path_from hash ((sibling, bit) ∷ siblings) =
      ap suc (length-path_from (step bit hash sibling) siblings)

  length-zip :
      (xs : List ℕ) (bs : List Bool) → length bs ≡ length xs → length (zip xs bs) ≡ length xs
  length-zip [] bs h = refl
  length-zip (x ∷ xs) [] h = absurd (omega (arith, h))
  length-zip (x ∷ xs) (b ∷ bs) h = ap suc (length-zip xs bs (omega (arith, h)))

  -- The path of a leaf starts with the leaf, has one entry more than there are siblings, and ends
  -- in the root that `compute_before_root` computes.
  pub apply_leaf-IsPath :
      (siblings : List ℕ) (leaf : ℕ)
      → (way : List ℕ) × (apply_leaf siblings leaf ≡ leaf ∷ way)
        × (length way ≡ length siblings)
        × (last_of leaf way ≡ compute_before_root siblings leaf)
  unfolding apply_leaf compute_merkle_path_for_leaf compute_before_root compute_merkle_root
  apply_leaf-IsPath siblings leaf =
      let pairs = zip siblings (least_significant_bits leaf (length siblings)) in
      (
        path_from leaf pairs,
        refl,
        length-path_from leaf pairs
            ∙ length-zip siblings _ (length-least_significant_bits leaf (length siblings)),
        last-path_from leaf pairs,
      )

  -- `empty_tree_root` merges with the null hash at each level: for three levels it is another
  -- value than the documented one whenever the hash keeps the two pairs apart.
  pub empty_tree_root-differs :
      merge (merge 0 0) 0 ≢ merge (merge 0 0) (merge 0 0)
      → empty_tree_root 3 ≢ some (documented_empty_root 2)
  unfolding empty_tree_root compute_merkle_root_from_iter step
  empty_tree_root-differs apart same = apart (cc same)
