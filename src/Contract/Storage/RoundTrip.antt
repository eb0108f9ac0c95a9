-- ===== src/Contract/Storage/RoundTrip.antt =====
-- A tree of contracts/hyli-utxo-state/src/zk/smt.rs comes back from its bytes.
use cachecash.Prelude.{
  ℕ, ◌+◌, ◌*◌, ◌/◌, ◌%◌, ◌^◌, ◌<◌, ◌≡◌, ◌≢◌, refl, sym, ap, ◌∙◌, true, false, Option, none, some,
  [], ◌∷◌, ◌++◌, Bytes, bytes_eq, bytes_eq_refl, bytes_eq_iff, length, length-append, leb,
  take_of_length-append, drop_of_length-append, ok, arith, append_assoc, Bool-cases, inl, inr, map,
  All,
}
use cachecash.Prelude.Assoc.{HashMap, lookup}
use cachecash.Contract.Smt.{H256, h256_zero, SparseMerkleTree, IsDistinct, contains, update_leaf}
use cachecash.Contract.Storage.{
  LeafStore, write_u32, value_u32, read_exact, read_u32, write_leaves, read_leaves, serialize,
  deserialize,
}

-- Entries as the store of the crate holds them: 32 bytes each, no value zero, no key twice.
pub record IsEntry (e : H256 × H256) : Type 0 where
  pub key_size : length e.0 ≡ 32
  pub value_size : length e.1 ≡ 32
  pub nonzero : e.1 ≢ h256_zero

abbrev pub AreStored : HashMap H256 → Type 0
AreStored entries = All IsEntry entries × IsDistinct (map (λ e. e.0) entries)

read_exact-append :
    (n : ℕ) (word rest : Bytes) → length word ≡ n → read_exact n (word ++ rest) ≡ ok (word, rest)
unfolding read_exact
read_exact-append n word rest h =
    let fits : leb (length word) (length (word ++ rest)) ≡ true =
      ground (arith, length-append word rest) in
    rw (sym h) (rw (fits, take_of_length-append word rest, drop_of_length-append word rest) refl)

value_of_bytes :
    (n : ℕ)
    → n < 2 ^ 32
    → n % 256
        + (256 * ((n / 256) % 256)
            + (65_536 * ((n / 65_536) % 256) + 16_777_216 * ((n / 16_777_216) % 256)))
      ≡ n
value_of_bytes n h = omega arith

read_u32-write_u32 :
    (n : ℕ) (rest : Bytes) → n < 2 ^ 32 → read_u32 (write_u32 n ++ rest) ≡ ok (n, rest)
unfolding read_u32 write_u32 value_u32
read_u32-write_u32 n rest h =
    rw (read_exact-append 4 (write_u32 n) rest refl, value_of_bytes n h) refl

-- What a key stands for after entries were written to a tree.
abbrev or_before : Option H256 → Option H256 → Option H256
or_before none before = before
or_before (some v) before = some v

absent :
    (k j : H256) (entries : HashMap H256)
    → contains k (map (λ e. e.0) entries) ≡ false
    → bytes_eq k j ≡ true
    → lookup j entries ≡ none
unfolding lookup
absent k j [] c e = refl
absent k j ((i, w) ∷ entries) c e =
    ground (arith, bytes_eq_iff i j, bytes_eq_iff i k, bytes_eq_iff k j, absent k j entries)

split_entry :
    (k v : H256) (entries : HashMap H256) (rest : Bytes)
    → write_leaves ((k, v) ∷ entries) ++ rest ≡ k ++ (v ++ (write_leaves entries ++ rest))
unfolding write_leaves
split_entry k v entries rest =
    append_assoc k (v ++ write_leaves entries) rest
    ∙ ap (λ r. k ++ r) (append_assoc v (write_leaves entries) rest)

module _ (C : SparseMerkleTree) (L : LeafStore C) where
  -- A tree that the entries were written to.
  abbrev Wrote : C.Tree → HashMap H256 → C.Tree → Type 0
  Wrote t entries t' = (j : H256) → C.leaf t' j ≡ or_before (lookup j entries) (C.leaf t j)

  Wrote-one :
      (k v : H256) (entries : HashMap H256) (t t1 t' : C.Tree)
      → contains k (map (λ e. e.0) entries) ≡ false
      → v ≢ h256_zero
      → C.update t k v ≡ ok t1
      → Wrote t1 entries t'
      → Wrote t ((k, v) ∷ entries) t'
  unfolding lookup
  Wrote-one k v entries t t1 t' fresh nonzero updated wrote j = elim (Bool-cases (bytes_eq k j)) [
    | inl same ↦
        rw (wrote j, absent k j entries fresh same, L.leaf_after t t1 k v j nonzero updated, same)
          refl
    | inr apart ↦ rw (wrote j, L.leaf_after t t1 k v j nonzero updated, apart) refl
  ]

  read_one :
      (k v : H256) (entries : HashMap H256) (t t1 : C.Tree) (rest : Bytes)
      → IsEntry (k, v)
      → C.update t k v ≡ ok t1
      → read_leaves C (length ((k, v) ∷ entries)) t (write_leaves ((k, v) ∷ entries) ++ rest)
        ≡ read_leaves C (length entries) t1 (write_leaves entries ++ rest)
  unfolding read_leaves update_leaf
  read_one k v entries t t1 rest entry updated =
      rw
        (
          split_entry k v entries rest,
          read_exact-append 32 k (v ++ (write_leaves entries ++ rest)) (entry.key_size),
          read_exact-append 32 v (write_leaves entries ++ rest) (entry.value_size),
          updated,
        )
        refl

  read_leaves-write_leaves :
      (entries : HashMap H256) (t : C.Tree) (rest : Bytes)
      → AreStored entries
      → (t' : C.Tree) × (read_leaves C (length entries) t (write_leaves entries ++ rest)
          ≡ ok (t', rest))
        × Wrote t entries t'
  unfolding read_leaves write_leaves lookup
  read_leaves-write_leaves [] t rest stored = (t, refl, λ j. refl)
  read_leaves-write_leaves ((k, v) ∷ entries) t rest stored =
      let (t1, updated) = L.updates t k v in
      let (t', same, wrote) = read_leaves-write_leaves entries t1 rest (stored.0.1, stored.1.1) in
      (
        t',
        read_one k v entries t t1 rest (stored.0.0) updated ∙ same,
        Wrote-one k v entries t t1 t' (stored.1.0) (stored.0.0.nonzero) updated wrote,
      )

  -- A tree written to new leaves has those leaves.
  leaves_back :
      (t t' : C.Tree) → Wrote C.new (L.leaves t) t' → (j : H256) → C.leaf t' j ≡ C.leaf t j
  leaves_back t t' wrote j = wrote j ∙ back (lookup j (L.leaves t)) (L.lookup-leaves t j)
    where
      back : (o : Option H256) → o ≡ C.leaf t j → or_before o (C.leaf C.new j) ≡ C.leaf t j
      back none e = L.leaf-new j ∙ e
      back (some v) e = e

  -- `deserialize_reader` reads from the bytes of a tree, with more bytes behind them, a tree with
  -- the same leaves and the same root, and leaves those further bytes. The tree has fewer than 2^32
  -- leaves, its root and its leaves are words of 32 bytes, no leaf is zero, and no key is there
  -- twice.
  pub deserialize-serialize :
      (t : C.Tree) (rest : Bytes)
      → length (C.tree_root t) ≡ 32
      → AreStored (L.leaves t)
      → length (L.leaves t) < 2 ^ 32
      → (t' : C.Tree) × (deserialize C (serialize C L t ++ rest) ≡ ok (t', rest))
        × (C.tree_root t' ≡ C.tree_root t)
        × ((j : H256) → C.leaf t' j ≡ C.leaf t j)
  unfolding deserialize serialize
  deserialize-serialize t rest root_size stored few =
      let entries = L.leaves t in
      let count = write_u32 (length entries) in
      let (t', read, wrote) = read_leaves-write_leaves entries (C.new) rest stored in
      let same_leaves = leaves_back t t' wrote in
      let same_root : C.tree_root t' ≡ C.tree_root t = L.root_of_leaves t' t same_leaves in
      let layout : (C.tree_root t ++ (count ++ write_leaves entries)) ++ rest
          ≡ C.tree_root t ++ (count ++ (write_leaves entries ++ rest)) =
        append_assoc (C.tree_root t) (count ++ write_leaves entries) rest
        ∙ ap (λ r. C.tree_root t ++ r) (append_assoc count (write_leaves entries) rest) in
      (
        t',
        rw
            (
              layout,
              read_exact-append 32 (C.tree_root t) (count ++ (write_leaves entries ++ rest))
                  root_size,
              read_u32-write_u32 (length entries) (write_leaves entries ++ rest) few,
              read,
              same_root,
              bytes_eq_refl (C.tree_root t),
            )
            refl,
        same_root,
        same_leaves,
      )
