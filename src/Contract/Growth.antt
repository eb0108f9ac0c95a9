-- ===== src/Contract/Growth.antt =====
-- Whatever a transaction does to the full state, also one that fails half way, no leaf is lost
-- (state.rs of the contract, hyli_utxo_state_client.rs of the server).
use cachecash.Prelude.{
  ℕ, suc, ◌≡◌, ◌⊎◌, true, false, List, [], ◌∷◌, bytes_eq, bytes_eq_iff, ok, inl, inr, Bool-cases,
  Result-cases, arith, eq→bytes_eq,
}
use cachecash.Contract.Smt.{H256, h256_zero, SparseMerkleTree, SmtLaws, smt_contains}
use cachecash.Contract.State.{
  HyliUtxoState, update_roots, record_created, record_nullified_from, record_nullified,
}
use cachecash.Contract.ZkVm.{Calldata}
use cachecash.Contract.Executor.{
  HyliUtxoStateExecutor, apply_commitments, utxo_commitments, both, update_from_blob,
}
use cachecash.Contract.Recording.Created
use cachecash.Contract.Recording.Nullified

module _ (C : SparseMerkleTree) where
  open C use {Tree}

  -- Every leaf of the first tree is one of the second.
  abbrev pub Keeps : Tree → Tree → Type 0
  Keeps t t' = (k : H256) → smt_contains C t k ≡ true → smt_contains C t' k ≡ true

  pub record Grows (s s' : HyliUtxoState C) : Type 0 where
    pub notes : Keeps s.notes_tree s'.notes_tree
    pub nullifiers : Keeps s.nullified_tree s'.nullified_tree

  pub Grows-refl : (s : HyliUtxoState C) → Grows s s
  Grows-refl s = record { notes = λ k h. h; nullifiers = λ k h. h }

  pub Grows-trans : {s t u : HyliUtxoState C} → Grows s t → Grows t u → Grows s u
  Grows-trans g h = record {
    notes = λ k p. h.notes k (g.notes k p);
    nullifiers = λ k p. h.nullifiers k (g.nullifiers k p);
  }

  module _ (L : SmtLaws C) where
    pub update-Keeps :
        (t t' : Tree) (c : H256)
        → bytes_eq c h256_zero ≡ false
        → C.update t c c ≡ ok t'
        → Keeps t t' × (smt_contains C t' c ≡ true)
    unfolding smt_contains
    update-Keeps t t' c z u =
        let law = λ (j : H256). L.leaf-update t t' c c j (λ e. cc (eq→bytes_eq c h256_zero e)) u in
        (λ k p. ground (arith, law k), ground (arith, law c, bytes_eq_iff c c))

    created_nil-Grows : (s : HyliUtxoState C) → Grows s (record_created C s []).0
    unfolding record_created
    created_nil-Grows s = Grows-refl s

    nullified_nil-Grows : (i : ℕ) (s : HyliUtxoState C) → Grows s (record_nullified_from C i s []).0
    unfolding record_nullified_from
    nullified_nil-Grows i s = Grows-refl s

    note-Grows :
        (s : HyliUtxoState C) (t : Tree) (c : H256)
        → bytes_eq c h256_zero ≡ false
        → C.update s.notes_tree c c ≡ ok t
        → Grows s (record s { notes_tree = t })
    note-Grows s t c z u = record {
      notes = (update-Keeps s.notes_tree t c z u).0;
      nullifiers = λ k h. h;
    }

    nullifier-Grows :
        (s : HyliUtxoState C) (t : Tree) (c : H256)
        → bytes_eq c h256_zero ≡ false
        → C.update s.nullified_tree c c ≡ ok t
        → Grows s (record s { nullified_tree = t })
    nullifier-Grows s t c z u = record {
      notes = λ k h. h;
      nullifiers = (update-Keeps s.nullified_tree t c z u).0;
    }

    record_created-Grows :
        (s : HyliUtxoState C) (cs : List H256) → Grows s (record_created C s cs).0
    record_created-Grows s [] = created_nil-Grows s
    record_created-Grows s (c ∷ cs) = elim (Bool-cases (bytes_eq c h256_zero)) [
      | inl zero ↦ rw (Created.skip_zero C s c cs zero) (record_created-Grows s cs)
      | inr nonzero ↦ elim (Bool-cases (smt_contains C s.notes_tree c)) [
        | inl present ↦ rw (Created.stop_at_present C s c cs nonzero present) (Grows-refl s)
        | inr fresh ↦ elim (Result-cases (C.update s.notes_tree c c)) [
          | inl (t, u) ↦ rw (Created.write_note C s c cs nonzero fresh u) (
              Grows-trans (note-Grows s t c nonzero u)
                (record_created-Grows (record s { notes_tree = t }) cs))
          | inr (e, u) ↦ rw (Created.stop_at_failure C s c cs nonzero fresh u) (Grows-refl s)
        ]
      ]
    ]

    nonzero_of_kept : (c : H256) → Nullified.is_skipped c ≡ false → bytes_eq c h256_zero ≡ false
    nonzero_of_kept c z = ground arith

    record_nullified-Grows :
        (i : ℕ) (s : HyliUtxoState C) (cs : List H256) → Grows s (record_nullified_from C i s cs).0
    record_nullified-Grows i s [] = nullified_nil-Grows i s
    record_nullified-Grows i s (c ∷ cs) = elim (Bool-cases (Nullified.is_skipped c)) [
      | inl skipped ↦ rw (Nullified.skip C i s c cs skipped) (record_nullified-Grows (suc i) s cs)
      | inr kept ↦ elim (Bool-cases (smt_contains C s.nullified_tree c)) [
        | inl present ↦ rw (Nullified.stop_at_present C i s c cs kept present) (Grows-refl s)
        | inr fresh ↦ elim (Result-cases (C.update s.nullified_tree c c)) [
          | inl (t, u) ↦ rw (Nullified.write_nullifier C i s c cs kept fresh u) (
              Grows-trans (nullifier-Grows s t c (nonzero_of_kept c kept) u)
                (record_nullified-Grows (suc i) (record s { nullified_tree = t }) cs))
          | inr (e, u) ↦ rw (Nullified.stop_at_failure C i s c cs kept fresh u) (Grows-refl s)
        ]
      ]
    ]

    update_roots-Grows : (s : HyliUtxoState C) → Grows s (update_roots C s)
    unfolding update_roots
    update_roots-Grows s = record { notes = λ k h. h; nullifiers = λ k h. h }

    -- The ways through `apply_commitments`.
    apply_commitments-cases :
        (e : HyliUtxoStateExecutor C) (ns cs : List H256)
        → let s1 = (record_nullified C e.state ns).0 in
          let s2 = (record_created C s1 cs).0 in
          let after = (apply_commitments C e ns cs).0 in
          (after.state ≡ s1) ⊎ ((after.state ≡ s2) ⊎ (after.state ≡ update_roots C s2))
    unfolding apply_commitments
    apply_commitments-cases e ns cs = ground arith

    apply_commitments-Grows :
        (e : HyliUtxoStateExecutor C) (ns cs : List H256)
        → Grows e.state (apply_commitments C e ns cs).0.state
    unfolding record_nullified
    apply_commitments-Grows e ns cs =
        let first = record_nullified-Grows 0 e.state ns in
        let second =
          Grows-trans first (record_created-Grows (record_nullified_from C 0 e.state ns).0 cs) in
        elim (apply_commitments-cases e ns cs) [
          | inl q ↦ rw q first
          | inr (inl q) ↦ rw q second
          | inr (inr q) ↦ rw q (Grows-trans second (update_roots-Grows _))
        ]

    -- The ways through `update_from_blob`.
    update_from_blob-cases :
        (e : HyliUtxoStateExecutor C) (calldata : Calldata)
        → ((update_from_blob C e calldata).0 ≡ e)
          ⊎ ((ns : List H256) × (cs : List H256) × ((update_from_blob C e calldata).0
                ≡ (apply_commitments C e ns cs).0))
    unfolding update_from_blob
    update_from_blob-cases e calldata = elim (Result-cases (utxo_commitments e.config calldata)) [
      | inl (p, q) ↦ inr (both p.nullifiers, both p.output_notes, ground arith)
      | inr (m, q) ↦ inl (ground arith)
    ]

    pub update_from_blob-Grows :
        (e : HyliUtxoStateExecutor C) (calldata : Calldata)
        → Grows e.state (update_from_blob C e calldata).0.state
    update_from_blob-Grows e calldata = elim (update_from_blob-cases e calldata) [
      | inl q ↦ rw q (Grows-refl e.state)
      | inr (ns, cs, q) ↦ rw q (apply_commitments-Grows e ns cs)
    ]
