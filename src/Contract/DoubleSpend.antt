-- ===== src/Contract/DoubleSpend.antt =====
-- No note is created twice and no nullifier is used twice, over any run of the full state
-- (state.rs of the contract, hyli_utxo_state_client.rs of the server).
use cachecash.Prelude.{
  ◌≡◌, refl, Bool, true, false, List, [], ◌∷◌, map, bytes_eq→eq, ok, inl, inr, Result-cases, arith,
  bytes_eq_iff,
}
use cachecash.Contract.Smt.{
  H256, h256_zero, SparseMerkleTree, SmtLaws, contains, smt_contains, update_each,
}
use cachecash.Contract.Blob.{SeparatedHyliUtxoBlob}
use cachecash.Contract.State.{filter_keys, keep_key}
use cachecash.Contract.ZkVm.{Calldata}
use cachecash.Contract.Executor.{HyliUtxoStateExecutor, both, update_from_blob}
use cachecash.Contract.Recording.{Records, AreAbsent, as_leaf}
use cachecash.Contract.Applied.{update_from_blob-Applied}
use cachecash.Contract.Growth.{
  Keeps, Grows, Grows-refl, Grows-trans, update-Keeps, update_from_blob-Grows,
}

module _ (C : SparseMerkleTree) where
  open C use {Tree}

  -- The states that further transactions lead to, those that fail included.
  pub data Reach (e : HyliUtxoStateExecutor C) : HyliUtxoStateExecutor C → Type 0 where
    here : Reach e e
    next :
        {e' : HyliUtxoStateExecutor C}
        → Reach e e'
        → (calldata : Calldata) → Reach e (update_from_blob C e' calldata).0

  not-contains_of_absent :
      (t : Tree) (ks : List H256) (k : H256)
      → AreAbsent C t ks
      → smt_contains C t k ≡ true
      → contains k ks ≡ false
  unfolding smt_contains
  not-contains_of_absent t [] k a h = refl
  not-contains_of_absent t (j ∷ ks) k a h =
      ground (arith, not-contains_of_absent t ks k a.1, bytes_eq_iff j k)

  module _ (L : SmtLaws C) where
    Reach-Grows : {e e' : HyliUtxoStateExecutor C} → Reach e e' → Grows C e.state e'.state
    Reach-Grows {e} here = Grows-refl C e.state
    Reach-Grows (next {e' = m} r calldata) =
        Grows-trans C (Reach-Grows r) (update_from_blob-Grows C L m calldata)

    nothing_written : (t t' : Tree) → update_each C t [] ≡ ok t' → t' ≡ t
    unfolding update_each
    nothing_written t t' u = cc

    -- Writing words that are not zero leaves each of them in the tree.
    contains-update_each :
        (t t' : Tree) (ks : List H256) (k : H256)
        → contains h256_zero ks ≡ false
        → update_each C t (map as_leaf ks) ≡ ok t'
        → Keeps C t t' × (contains k ks ≡ true → smt_contains C t' k ≡ true)
    unfolding update_each
    contains-update_each t t' [] k z u = (λ j h. rw (nothing_written t t' u) h, λ h. cc)
    contains-update_each t t' (j ∷ ks) k z u = elim (Result-cases (C.update t j j)) [
      | inl (t1, w) ↦
          let (first, self) = update-Keeps C L t t1 j (ground arith) w in
          let (keeps, there) = contains-update_each t1 t' ks k (ground arith) (ground arith) in
          (λ i p. keeps i (first i p), λ p. ground (arith, keeps j self, there, bytes_eq→eq j k))
      | inr (e, w) ↦ absurd (ground arith)
    ]

    contains_zero-filter_keys :
        (ks : List H256) (n : Bool) → contains h256_zero (filter_keys ks n) ≡ false
    unfolding filter_keys keep_key
    contains_zero-filter_keys [] n = refl
    contains_zero-filter_keys (k ∷ ks) n = ground (arith, contains_zero-filter_keys ks n)

    -- What a successful call has recorded is in the tree after it.
    Records-contains :
        {t t' : Tree} (cs : List H256) (n : Bool) (k : H256)
        → Records C t t' (filter_keys cs n)
        → contains k (filter_keys cs n) ≡ true
        → smt_contains C t' k ≡ true
    Records-contains {t} {t'} cs n k r =
        (contains-update_each t t' (filter_keys cs n) k (contains_zero-filter_keys cs n)
          r.written).1

    -- After a transaction that the full state accepted, and any further transactions, no
    -- transaction is accepted that has one of its nullifiers again, but for the two words that
    -- `filter_keys` drops.
    pub no_double_spend :
        (e e' : HyliUtxoStateExecutor C) (calldata calldata' : Calldata)
        {parsed parsed' : SeparatedHyliUtxoBlob} (n : H256)
        → (update_from_blob C e calldata).1 ≡ ok parsed
        → contains n (filter_keys (both parsed.nullifiers) true) ≡ true
        → Reach (update_from_blob C e calldata).0 e'
        → (update_from_blob C e' calldata').1 ≡ ok parsed'
        → contains n (filter_keys (both parsed'.nullifiers) true) ≡ false
    no_double_spend e e' calldata calldata' {parsed} {parsed'} n u c r u' =
        let (_, a) = update_from_blob-Applied C L e calldata u in
        let (_, a') = update_from_blob-Applied C L e' calldata' u' in
        not-contains_of_absent e'.state.nullified_tree _ n a'.nullifiers.absent (
          (Reach-Grows r).nullifiers n
            (Records-contains (both parsed.nullifiers) true n a.nullifiers c))

    -- In the same way no note commitment other than zero is created twice.
    pub no_double_creation :
        (e e' : HyliUtxoStateExecutor C) (calldata calldata' : Calldata)
        {parsed parsed' : SeparatedHyliUtxoBlob} (k : H256)
        → (update_from_blob C e calldata).1 ≡ ok parsed
        → contains k (filter_keys (both parsed.output_notes) false) ≡ true
        → Reach (update_from_blob C e calldata).0 e'
        → (update_from_blob C e' calldata').1 ≡ ok parsed'
        → contains k (filter_keys (both parsed'.output_notes) false) ≡ false
    no_double_creation e e' calldata calldata' {parsed} {parsed'} k u c r u' =
        let (_, a) = update_from_blob-Applied C L e calldata u in
        let (_, a') = update_from_blob-Applied C L e' calldata' u' in
        not-contains_of_absent e'.state.notes_tree _ k a'.notes.absent
          ((Reach-Grows r).notes k (Records-contains (both parsed.output_notes) false k a.notes c))
