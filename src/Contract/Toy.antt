-- ===== src/Contract/Toy.antt =====
-- A small instance of the parameters of the contract's model: a tree that is the function from
-- keys to values, with the value at one key for its root, and a decoder that passes bytes on.
use cachecash.Prelude.{
  ℕ, ◌≡◌, ◌≢◌, refl, sym, ap, ◌∙◌, none, some, List, [], ◌∷◌, ◌++◌, map, bytes_eq, bytes_eq→eq,
  replicate, drop, if◌then◌else◌, ok, Bool-cases, inl, inr,
}
use cachecash.Contract.Smt.{H256, h256_zero, SparseMerkleTree, SmtLaws, value_or_zero, update_each}
use cachecash.Contract.ZkVm.{Sdk}

-- The word of a small number.
abbrev pub word : ℕ → H256
word n = replicate 31 0 ++ n ∷ []

abbrev pub write_all : (H256 → H256) → List (H256 × H256) → H256 → H256
write_all t [] = t
write_all t ((k, v) ∷ es) = write_all (λ j. if bytes_eq k j then v else t j) es

abbrev pub toy_tree : SparseMerkleTree
toy_tree = record {
  Tree = H256 → H256;
  MerkleProof = H256 → H256;
  StoreError = Unit;
  new = λ k. h256_zero;
  tree_root = λ t. t (word 3);
  leaf = λ t k. if bytes_eq (t k) h256_zero then none else some (t k);
  update = λ t k v. ok (λ j. if bytes_eq k j then v else t j);
  prove = λ t ks. ok t;
  recompute = λ p es. ok (write_all p es (word 3));
}

abbrev pub toy_sdk : Sdk
toy_sdk = record {
  parse_calldata =
      λ calldata. ok (record { callees_blobs = map (λ b. b.1) (drop 2 calldata.blobs) });
  structured_parameters = λ payload. some payload;
}

update_each-write_all :
    (t : H256 → H256) (es : List (H256 × H256)) → update_each toy_tree t es ≡ ok (write_all t es)
unfolding update_each
update_each-write_all t [] = refl
update_each-write_all t ((k, v) ∷ es) =
    update_each-write_all (λ j. if bytes_eq k j then v else t j) es

value_or_zero-toy : (t : H256 → H256) (k : H256) → value_or_zero toy_tree t k ≡ t k
unfolding value_or_zero
value_or_zero-toy t k = elim (Bool-cases (bytes_eq (t k) h256_zero)) [
  | inl z ↦ rw (z, value_or_zero) (sym (bytes_eq→eq (t k) h256_zero z))
  | inr n ↦ rw (n, value_or_zero) refl
]

-- Writing the values that are there changes nothing.
write_all-current :
    (t p : H256 → H256) (ks : List H256) (j : H256)
    → ((i : H256) → p i ≡ t i)
    → write_all p (map (λ k. (k, value_or_zero toy_tree t k)) ks) j ≡ t j
write_all-current t p [] j h = h j
write_all-current t p (k ∷ ks) j h =
    write_all-current t (λ i. if bytes_eq k i then value_or_zero toy_tree t k else p i) ks j same
  where
    same : (i : H256) → (if bytes_eq k i then value_or_zero toy_tree t k else p i) ≡ t i
    same i = elim (Bool-cases (bytes_eq k i)) [
      | inl q ↦ rw q (value_or_zero-toy t k ∙ ap t (bytes_eq→eq k i q))
      | inr q ↦ rw q (h i)
    ]

leaf_of_nonzero :
    (v : H256) → v ≢ h256_zero → (if bytes_eq v h256_zero then none else some v) ≡ some v
leaf_of_nonzero v h = elim (Bool-cases (bytes_eq v h256_zero)) [
  | inl z ↦ absurd (h (bytes_eq→eq v h256_zero z))
  | inr n ↦ rw n refl
]

toy_leaf-update :
    (t : H256 → H256) (k v j : H256)
    → v ≢ h256_zero
    → toy_tree.leaf (λ i. if bytes_eq k i then v else t i) j
      ≡ (if bytes_eq k j then some v else toy_tree.leaf t j)
toy_leaf-update t k v j h = elim (Bool-cases (bytes_eq k j)) [
  | inl q ↦ rw q (leaf_of_nonzero v h)
  | inr q ↦ rw q refl
]

pub toy_laws : SmtLaws toy_tree
toy_laws = record {
  leaf-update = λ t t' k v j nonzero u.
      let same : (λ (i : H256). if bytes_eq k i then v else t i) ≡ t' = cc u in
      rw (sym same) (toy_leaf-update t k v j nonzero);
  recompute_current = λ t ks p nonempty distinct q.
      let same : t ≡ p = cc q in
      rw (sym same) (ap ok (write_all-current t t ks (word 3) (λ i. refl)));
  recompute_updated = λ t t' es p nonempty distinct q u.
      let same : t ≡ p = cc q in
      let last : write_all t es ≡ t' = cc (u, update_each-write_all t es) in
      rw (sym same, sym last) refl;
}
