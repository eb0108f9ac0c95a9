-- ===== src/Contract/Storage.antt =====
-- contracts/hyli-utxo-state/src/zk/smt.rs: how a tree is written to bytes and read back, and the
-- siblings that the circuit gets. The map of leaves that the crate's store keeps, as the list that
-- its iterator gives, and a proof's bitmap and path are parameters beside `SparseMerkleTree`. The
-- length is written as a 32-bit number, the lowest byte first, as Borsh documents.
use cachecash.Prelude.{
  ℕ, zero, suc, ◌+◌, ◌*◌, ◌/◌, ◌%◌, ◌^◌, ◌≡◌, ◌≢◌, Bool, true, false, Option, none, some, List, [],
  ◌∷◌, ◌++◌, Bytes, bytes_eq, length, leb, take, drop, if◌then◌else◌, Result, ok, err, ◌>>=◌, ◌>>◌,
  guard, map_err, All, map, replicate,
}
use cachecash.Prelude.Assoc.{HashMap, lookup}
use cachecash.Contract.Smt.{H256, h256_zero, SparseMerkleTree, IsDistinct, update_leaf}
pub mod RoundTrip
pub mod Siblings

pub data IoError : Type 0 where
  unexpected_eof rebuilding root_mismatch : IoError

-- The leaves of the store and what its documentation says of them: the map's entries are the
-- leaves, a new tree has none, an update succeeds in the default store and sets one leaf, and the
-- root is determined by the leaves.
pub record LeafStore (C : SparseMerkleTree) : Type 0 where
  pub leaves : C.Tree → HashMap H256
  pub lookup-leaves : (t : C.Tree) (k : H256) → lookup k (leaves t) ≡ C.leaf t k
  pub leaf-new : (k : H256) → C.leaf C.new k ≡ none
  pub updates : (t : C.Tree) (k v : H256) → (t' : C.Tree) × (C.update t k v ≡ ok t')
  pub leaf_after :
      (t t' : C.Tree) (k v j : H256)
      → v ≢ h256_zero
      → C.update t k v ≡ ok t'
      → C.leaf t' j ≡ (if bytes_eq k j then some v else C.leaf t j)
  pub root_of_leaves :
      (t t' : C.Tree) → ((k : H256) → C.leaf t k ≡ C.leaf t' k) → C.tree_root t ≡ C.tree_root t'

-- `u32::serialize`, with the number cut to 32 bits as by `as u32`.
unfoldable pub write_u32 : ℕ → Bytes
write_u32 n = n % 256 ∷ (n / 256) % 256 ∷ (n / 65_536) % 256 ∷ (n / 16_777_216) % 256 ∷ []

unfoldable pub value_u32 : Bytes → ℕ
value_u32 (a ∷ b ∷ c ∷ d ∷ _) = a + (256 * b + (65_536 * c + 16_777_216 * d))
value_u32 _ = 0

-- `read_exact`: so many bytes, and what is left.
unfoldable pub read_exact : ℕ → Bytes → Result IoError (Bytes × Bytes)
read_exact n bytes =
    if leb n (length bytes) then ok (take n bytes, drop n bytes) else err unexpected_eof

unfoldable pub read_u32 : Bytes → Result IoError (ℕ × Bytes)
unfolding read_exact value_u32
read_u32 bytes = do (word, rest) ← read_exact 4 bytes; ok (value_u32 word, rest)

-- The entries of the map, each key before its value.
unfoldable pub write_leaves : HashMap H256 → Bytes
write_leaves [] = []
write_leaves ((key, value) ∷ entries) = key ++ (value ++ write_leaves entries)

module _ (C : SparseMerkleTree) where
  -- The loop of `deserialize_reader`.
  unfoldable pub read_leaves : ℕ → C.Tree → Bytes → Result IoError (C.Tree × Bytes)
  unfolding read_exact
  read_leaves zero tree bytes = ok (tree, bytes)
  read_leaves (suc n) tree bytes = do
    (key, after_key) ← read_exact 32 bytes
    (value, after_value) ← read_exact 32 after_key
    tree' ← map_err (λ _. rebuilding) (update_leaf C tree key value)
    read_leaves n tree' after_value

  -- `SMT::serialize`.
  unfoldable pub serialize : LeafStore C → C.Tree → Bytes
  unfolding write_u32 write_leaves
  serialize L tree =
      C.tree_root tree ++ (write_u32 (length (L.leaves tree)) ++ write_leaves (L.leaves tree))

  -- `SMT::deserialize_reader`, with the bytes that are left.
  unfoldable pub deserialize : Bytes → Result IoError (C.Tree × Bytes)
  unfolding read_exact read_u32 read_leaves
  deserialize bytes = do
    (expected_root, after_root) ← read_exact 32 bytes
    (len, after_len) ← read_u32 after_root
    (tree, rest) ← read_leaves len C.new after_len
    guard (bytes_eq (C.tree_root tree) expected_root) root_mismatch
    ok (tree, rest)

-- The loop of `build_siblings` over the bits of the bitmap: zero where a bit is clear, and the next
-- hash of the path, as a field element, where it is set; none when the path is too short.
unfoldable pub fill_siblings : {H : Type 0} → (H → ℕ) → List Bool → List H → Option (List ℕ)
fill_siblings to_field [] path = some []
fill_siblings to_field (false ∷ bits) path = elim (fill_siblings to_field bits path) [
  | none ↦ none
  | some siblings ↦ some (0 ∷ siblings)
]
fill_siblings to_field (true ∷ bits) [] = none
fill_siblings to_field (true ∷ bits) (node ∷ path) = elim (fill_siblings to_field bits path) [
  | none ↦ none
  | some siblings ↦ some (to_field node ∷ siblings)
]

-- `h256_to_field`: the bytes of a hash are its number with the lowest byte first.
unfoldable pub le_value : Bytes → ℕ
le_value [] = 0
le_value (b ∷ bytes) = b + 256 * le_value bytes

unfoldable pub h256_to_field : ℕ → H256 → ℕ
unfolding le_value
h256_to_field modulus h = le_value h % modulus

-- The bits of a bitmap from one height on, for so many heights.
unfoldable pub bits_from : (ℕ → Bool) → ℕ → ℕ → List Bool
bits_from get_bit h zero = []
bits_from get_bit h (suc n) = get_bit h ∷ bits_from get_bit (h + 1) n

-- `build_siblings`; the bitmap and the path of a proof, the hash of a node of the path, and the
-- modulus of the field are parameters, and none is the panic of `unwrap` or of an index.
unfoldable pub build_siblings :
    (C : SparseMerkleTree) {Node : Type 0} (get_bit : C.MerkleProof → ℕ → Bool)
    (merkle_path : C.MerkleProof → List Node) (hash : Node → H256) (modulus : ℕ)
    → C.Tree
    → H256
    → Option (List ℕ)
unfolding fill_siblings h256_to_field bits_from
build_siblings C get_bit merkle_path hash modulus tree commitment =
    elim (C.prove tree (commitment ∷ [])) [
      | err e ↦ none
      | ok proof ↦
          fill_siblings (λ node. h256_to_field modulus (hash node))
            (bits_from (get_bit proof) 0 256) (merkle_path proof)
    ]
