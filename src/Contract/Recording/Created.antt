-- ===== src/Contract/Recording/Created.antt =====
-- A successful `record_created` has written the notes that `filter_keys` keeps.
use cachecash.Prelude.{
  ◌≡◌, refl, true, false, not, List, [], ◌∷◌, bytes_eq, eq→bytes_eq, ok, err, inl, inr, Bool-cases,
  Result-cases, arith,
}
use cachecash.Contract.Smt.{
  H256, h256_zero, SparseMerkleTree, SmtLaws, smt_contains, update_leaf, update_each,
}
use cachecash.Contract.Blob.{note_exists, insert_failed}
use cachecash.Contract.State.{keep_key, filter_keys, HyliUtxoState, record_created}
use cachecash.Contract.Recording.{Records, Records-cons, absent_of_not-contains, filter_keys-cons}

keep_key_created : (k : H256) → keep_key false k ≡ not (bytes_eq k h256_zero)
unfolding keep_key
keep_key_created k = ground arith

module _ (C : SparseMerkleTree) where
  open C use {Tree, leaf}

  -- The steps of `record_created`, one for each way through its body.
  module _ (s : HyliUtxoState C) (c : H256) (cs : List H256) where
    pub skip_zero :
        bytes_eq c h256_zero ≡ true → record_created C s (c ∷ cs) ≡ record_created C s cs
    unfolding record_created
    skip_zero z = ground arith

    pub stop_at_present :
        bytes_eq c h256_zero ≡ false
        → smt_contains C s.notes_tree c ≡ true
        → record_created C s (c ∷ cs) ≡ (s, err note_exists)
    unfolding record_created
    stop_at_present z p = ground arith

    pub stop_at_failure :
        {e : C.StoreError}
        → bytes_eq c h256_zero ≡ false
        → smt_contains C s.notes_tree c ≡ false
        → C.update s.notes_tree c c ≡ err e
        → record_created C s (c ∷ cs) ≡ (s, err insert_failed)
    unfolding record_created update_leaf
    stop_at_failure z p u = ground arith

    pub write_note :
        {t : Tree}
        → bytes_eq c h256_zero ≡ false
        → smt_contains C s.notes_tree c ≡ false
        → C.update s.notes_tree c c ≡ ok t
        → record_created C s (c ∷ cs) ≡ record_created C (record s { notes_tree = t }) cs
    unfolding record_created update_leaf
    write_note z p u = ground arith

  -- What a successful call has done: the notes are recorded, and the rest of the state is as before.
  pub record Creates (s s' : HyliUtxoState C) (ks : List H256) : Type 0 where
    pub records : Records C s.notes_tree s'.notes_tree ks
    pub nullified_same : s'.nullified_tree ≡ s.nullified_tree
    pub roots_same : s'.roots ≡ s.roots

  module _ (L : SmtLaws C) where
    Creates-nil : (s : HyliUtxoState C) → Creates s (record_created C s []).0 (filter_keys [] false)
    unfolding record_created filter_keys update_each
    Creates-nil s = record {
      records = record { written = refl; distinct = tt; absent = tt };
      nullified_same = refl;
      roots_same = refl;
    }

    Creates-cons :
        (s : HyliUtxoState C) (t : Tree) (c : H256) (ks : List H256) {s' : HyliUtxoState C}
        → bytes_eq c h256_zero ≡ false
        → smt_contains C s.notes_tree c ≡ false
        → C.update s.notes_tree c c ≡ ok t
        → Creates (record s { notes_tree = t }) s' ks
        → Creates s s' (c ∷ ks)
    Creates-cons s t c ks {s'} z p u r = record {
      records =
          Records-cons C L s.notes_tree t s'.notes_tree c ks (λ e. cc (eq→bytes_eq c h256_zero e))
            (absent_of_not-contains C L s.notes_tree c p) u r.records;
      nullified_same = r.nullified_same;
      roots_same = r.roots_same;
    }

    -- A call that returns ok has written exactly the words that `filter_keys` keeps, each new.
    pub record_created-Creates :
        (s : HyliUtxoState C) (cs : List H256)
        → (record_created C s cs).1 ≡ ok tt
        → Creates s (record_created C s cs).0 (filter_keys cs false)
    record_created-Creates s [] h = Creates-nil s
    record_created-Creates s (c ∷ cs) h = elim (Bool-cases (bytes_eq c h256_zero)) [
      | inl zero ↦
          rw (skip_zero s c cs zero, filter_keys-cons c cs false, keep_key_created c, zero)
            (record_created-Creates s cs (rw (skip_zero s c cs zero) at h))
      | inr nonzero ↦ elim (Bool-cases (smt_contains C s.notes_tree c)) [
        | inl present ↦ cc (rw (stop_at_present s c cs nonzero present) at h)
        | inr fresh ↦ elim (Result-cases (C.update s.notes_tree c c)) [
          | inl (t, u) ↦
              let e = write_note s c cs nonzero fresh u in
              rw (e, filter_keys-cons c cs false, keep_key_created c, nonzero)
                (Creates-cons s t c (filter_keys cs false) nonzero fresh u
                  (record_created-Creates (record s { notes_tree = t }) cs (rw e at h)))
          | inr (e, u) ↦ cc (rw (stop_at_failure s c cs nonzero fresh u) at h)
        ]
      ]
    ]
