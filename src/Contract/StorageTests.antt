-- ===== src/Contract/StorageTests.antt =====
-- The theorem on the bytes of a tree at a tree of two leaves, with an association list for the
-- crate's store and the value at one key for its root.
use cachecash.Prelude.{
  ◌≡◌, ◌≢◌, refl, subst, ok_inj, ap, bytes_eq_iff, false, Option, none, some, [], ◌∷◌, ◌++◌, Bytes,
  bytes_eq, length, ok, if◌then◌else◌, arith,
}
use cachecash.Prelude.Assoc.{HashMap, lookup, insert, lookup-insert}
use cachecash.Contract.Smt.{H256, h256_zero, SparseMerkleTree}
use cachecash.Contract.Toy.{word}
use cachecash.Contract.Storage.{LeafStore, serialize, deserialize}
use cachecash.Contract.Storage.RoundTrip.{AreStored, deserialize-serialize}

abbrev or_zero : Option H256 → H256
or_zero none = h256_zero
or_zero (some v) = v

abbrev map_tree : SparseMerkleTree
map_tree = record {
  Tree = HashMap H256;
  MerkleProof = Unit;
  StoreError = Unit;
  new = [];
  tree_root = λ t. or_zero (lookup (word 3) t);
  leaf = λ t k. lookup k t;
  update = λ t k v. ok (insert k v t);
  prove = λ t ks. ok tt;
  recompute = λ p es. ok h256_zero;
}

absent : (k : H256) → map_tree.leaf map_tree.new k ≡ none
unfolding lookup
absent k = refl

abbrev map_store : LeafStore map_tree
map_store = record {
  leaves = λ t. t;
  lookup-leaves = λ t k. refl;
  leaf-new = absent;
  updates = λ t k v. (insert k v t, refl);
  leaf_after = λ t t' k v j nonzero u.
      subst (λ m. lookup j m ≡ (if bytes_eq k j then some v else lookup j t)) (ok_inj u)
        (lookup-insert k j v t);
  root_of_leaves = λ t t' same. ap or_zero (same (word 3));
}

abbrev two_leaves : HashMap H256
two_leaves = (word 1, word 5) ∷ (word 3, word 7) ∷ []

differs : (v w : Bytes) → bytes_eq v w ≡ false → v ≢ w
differs v w apart e = absurd (cc (apart, (bytes_eq_iff v w).1 e))

two_leaves-AreStored : AreStored two_leaves
unfolding bytes_eq
two_leaves-AreStored = (
  (
    record { key_size = refl; value_size = refl; nonzero = differs _ _ refl },
    (record { key_size = refl; value_size = refl; nonzero = differs _ _ refl }, tt),
  ),
  (refl, (refl, tt)),
)

root_size : length (map_tree.tree_root two_leaves) ≡ 32
unfolding lookup bytes_eq
root_size = refl

deserialize-serialize_example :
    (t' : HashMap H256) × (deserialize map_tree (serialize map_tree map_store two_leaves ++ 9 ∷ [])
      ≡ ok (t', 9 ∷ []))
    × (map_tree.tree_root t' ≡ map_tree.tree_root two_leaves)
    × ((j : H256) → lookup j t' ≡ lookup j two_leaves)
deserialize-serialize_example =
    deserialize-serialize map_tree map_store two_leaves (9 ∷ []) root_size two_leaves-AreStored
      (omega arith)
