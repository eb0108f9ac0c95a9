-- ===== src/Contract/Recording.antt =====
-- `record_created` and `record_nullified` of contracts/hyli-utxo-state/src/state.rs: what a
-- successful call has written to a tree.
pub mod Created
pub mod Nullified
use cachecash.Prelude.{
  ℕ, suc, ◌≡◌, ◌≢◌, refl, Bool, true, false, not, Option, none, some, List, [], ◌∷◌, map, bytes_eq,
  bytes_eq_iff, bytes_eq→eq, eq→bytes_eq, bytes_eq_refl, is_some, if◌then◌else◌, Result, ok, err,
  ◌>>=◌, All, inl, inr, Bool-cases, Result-cases, arith, ◌⊎◌, filter,
}
use cachecash.Contract.Smt.{
  H256, h256_zero, SparseMerkleTree, SmtLaws, contains, IsDistinct, smt_contains, update_leaf,
  update_each,
}
use cachecash.Contract.Blob.{note_exists, insert_failed, already_nullified, nullify_failed}
use cachecash.Contract.State.{
  padding_nullifier, keep_key, filter_keys, HyliUtxoState, record_created, record_nullified_from,
  record_nullified,
}

-- How `filter_keys` goes through its list.
pub filter_keys-cons :
    (k : H256) (ks : List H256) (n : Bool)
    → filter_keys (k ∷ ks) n ≡ (if keep_key n k then k ∷ filter_keys ks n else filter_keys ks n)
unfolding filter_keys
filter_keys-cons k ks n = refl

-- The word as its own value: what the source writes for a commitment or a nullifier.
abbrev pub as_leaf : H256 → H256 × H256
as_leaf k = (k, k)

module _ (C : SparseMerkleTree) where
  open C use {Tree, leaf}

  -- None of the words is a leaf of the tree.
  abbrev pub AreAbsent : Tree → List H256 → Type 0
  AreAbsent t = All (λ k. leaf t k ≡ none)

  -- What a successful recording of the words has done to a tree.
  pub record Records (t t' : Tree) (ks : List H256) : Type 0 where
    pub written : update_each C t (map as_leaf ks) ≡ ok t'
    pub distinct : IsDistinct ks
    pub absent : AreAbsent t ks

  module _ (L : SmtLaws C) where
    -- What is absent after a write was absent before, and is not the word written.
    absent_before :
        (t t' : Tree) (k j : H256)
        → k ≢ h256_zero
        → C.update t k k ≡ ok t'
        → leaf t' j ≡ none
        → (leaf t j ≡ none) × (bytes_eq k j ≡ false)
    absent_before t t' k j nz u a = ground (arith, L.leaf-update t t' k k j nz u)

    absent_before_all :
        (t t' : Tree) (k : H256) (ks : List H256)
        → k ≢ h256_zero
        → C.update t k k ≡ ok t'
        → AreAbsent t' ks
        → AreAbsent t ks × (contains k ks ≡ false)
    absent_before_all t t' k [] nz u a = (tt, refl)
    absent_before_all t t' k (j ∷ ks) nz u a = ground (
      arith,
      absent_before t t' k j nz u a.0,
      absent_before_all t t' k ks nz u a.1,
      bytes_eq_iff j k,
      bytes_eq_iff k j,
    )

    pub Records-cons :
        (t t1 t' : Tree) (k : H256) (ks : List H256)
        → k ≢ h256_zero
        → leaf t k ≡ none
        → C.update t k k ≡ ok t1
        → Records t1 t' ks
        → Records t t' (k ∷ ks)
    unfolding update_each
    Records-cons t t1 t' k ks nz a u r =
        let (before, fresh) = absent_before_all t t1 k ks nz u r.absent in
        record { written = rw u r.written; distinct = (fresh, r.distinct); absent = (a, before) }

    pub absent_of_not-contains :
        (t : Tree) (k : H256) → smt_contains C t k ≡ false → leaf t k ≡ none
    unfolding smt_contains
    absent_of_not-contains t k h = ground arith
