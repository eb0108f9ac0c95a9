-- ===== src/Contract/Recording/Nullified.antt =====
-- A successful `record_nullified` has written the nullifiers that `filter_keys` keeps.
use cachecash.Prelude.{
  ◌||◌, ℕ, suc, ◌≡◌, ◌≢◌, refl, Bool, true, false, not, List, [], ◌∷◌, bytes_eq, eq→bytes_eq, ok,
  err, inl, inr, Bool-cases, Result-cases, arith,
}
use cachecash.Contract.Smt.{
  H256, h256_zero, SparseMerkleTree, SmtLaws, smt_contains, update_leaf, update_each,
}
use cachecash.Contract.Blob.{already_nullified, nullify_failed}
use cachecash.Contract.State.{
  padding_nullifier, keep_key, filter_keys, HyliUtxoState, record_nullified_from, record_nullified,
}
use cachecash.Contract.Recording.{Records, Records-cons, absent_of_not-contains, filter_keys-cons}

-- The two words that `record_nullified` passes over.
abbrev pub is_skipped : H256 → Bool
is_skipped k = bytes_eq k h256_zero || bytes_eq k padding_nullifier

keep_key_nullified : (k : H256) → keep_key true k ≡ not (is_skipped k)
unfolding keep_key
keep_key_nullified k = ground arith

module _ (C : SparseMerkleTree) where
  open C use {Tree, leaf}

  -- The steps of the loop, one for each way through its body.
  module _ (i : ℕ) (s : HyliUtxoState C) (c : H256) (cs : List H256) where
    pub skip :
        is_skipped c ≡ true
        → record_nullified_from C i s (c ∷ cs) ≡ record_nullified_from C (suc i) s cs
    unfolding record_nullified_from
    skip z = ground arith

    pub stop_at_present :
        is_skipped c ≡ false
        → smt_contains C s.nullified_tree c ≡ true
        → record_nullified_from C i s (c ∷ cs) ≡ (s, err (already_nullified i))
    unfolding record_nullified_from
    stop_at_present z p = ground arith

    pub stop_at_failure :
        {e : C.StoreError}
        → is_skipped c ≡ false
        → smt_contains C s.nullified_tree c ≡ false
        → C.update s.nullified_tree c c ≡ err e
        → record_nullified_from C i s (c ∷ cs) ≡ (s, err nullify_failed)
    unfolding record_nullified_from update_leaf
    stop_at_failure z p u = ground arith

    pub write_nullifier :
        {t : Tree}
        → is_skipped c ≡ false
        → smt_contains C s.nullified_tree c ≡ false
        → C.update s.nullified_tree c c ≡ ok t
        → record_nullified_from C i s (c ∷ cs)
          ≡ record_nullified_from C (suc i) (record s { nullified_tree = t }) cs
    unfolding record_nullified_from update_leaf
    write_nullifier z p u = ground arith

  -- What a successful call has done: the nullifiers are recorded, the rest of the state is as before.
  pub record Nullifies (s s' : HyliUtxoState C) (ks : List H256) : Type 0 where
    pub records : Records C s.nullified_tree s'.nullified_tree ks
    pub notes_same : s'.notes_tree ≡ s.notes_tree
    pub roots_same : s'.roots ≡ s.roots

  module _ (L : SmtLaws C) where
    Nullifies-nil :
        (i : ℕ) (s : HyliUtxoState C)
        → Nullifies s (record_nullified_from C i s []).0 (filter_keys [] true)
    unfolding record_nullified_from filter_keys update_each
    Nullifies-nil i s = record {
      records = record { written = refl; distinct = tt; absent = tt };
      notes_same = refl;
      roots_same = refl;
    }

    nonzero_of_kept : (c : H256) → is_skipped c ≡ false → c ≢ h256_zero
    nonzero_of_kept c z = λ e. ground (arith, eq→bytes_eq c h256_zero e)

    Nullifies-cons :
        (s : HyliUtxoState C) (t : Tree) (c : H256) (ks : List H256) {s' : HyliUtxoState C}
        → is_skipped c ≡ false
        → smt_contains C s.nullified_tree c ≡ false
        → C.update s.nullified_tree c c ≡ ok t
        → Nullifies (record s { nullified_tree = t }) s' ks
        → Nullifies s s' (c ∷ ks)
    Nullifies-cons s t c ks {s'} z p u r = record {
      records =
          Records-cons C L s.nullified_tree t s'.nullified_tree c ks (nonzero_of_kept c z)
            (absent_of_not-contains C L s.nullified_tree c p) u r.records;
      notes_same = r.notes_same;
      roots_same = r.roots_same;
    }

    loop-Nullifies :
        (i : ℕ) (s : HyliUtxoState C) (cs : List H256)
        → (record_nullified_from C i s cs).1 ≡ ok tt
        → Nullifies s (record_nullified_from C i s cs).0 (filter_keys cs true)
    loop-Nullifies i s [] h = Nullifies-nil i s
    loop-Nullifies i s (c ∷ cs) h = elim (Bool-cases (is_skipped c)) [
      | inl skipped ↦
          let e = skip i s c cs skipped in
          rw (e, filter_keys-cons c cs true, keep_key_nullified c, skipped)
            (loop-Nullifies (suc i) s cs (rw e at h))
      | inr kept ↦ elim (Bool-cases (smt_contains C s.nullified_tree c)) [
        | inl present ↦ cc (rw (stop_at_present i s c cs kept present) at h)
        | inr fresh ↦ elim (Result-cases (C.update s.nullified_tree c c)) [
          | inl (t, u) ↦
              let e = write_nullifier i s c cs kept fresh u in
              rw (e, filter_keys-cons c cs true, keep_key_nullified c, kept)
                (Nullifies-cons s t c (filter_keys cs true) kept fresh u
                  (loop-Nullifies (suc i) (record s { nullified_tree = t }) cs (rw e at h)))
          | inr (e, u) ↦ cc (rw (stop_at_failure i s c cs kept fresh u) at h)
        ]
      ]
    ]

    -- A call that returns ok has written exactly the words that `filter_keys` keeps, each new.
    pub record_nullified-Nullifies :
        (s : HyliUtxoState C) (cs : List H256)
        → (record_nullified C s cs).1 ≡ ok tt
        → Nullifies s (record_nullified C s cs).0 (filter_keys cs true)
    unfolding record_nullified
    record_nullified-Nullifies s cs h = loop-Nullifies 0 s cs h
