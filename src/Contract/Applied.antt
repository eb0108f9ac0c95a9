-- ===== src/Contract/Applied.antt =====
-- `apply_commitments` and `update_from_blob` of server/src/hyli_utxo_state_client.rs: what a
-- successful call has done to the two trees.
use cachecash.Prelude.{◌≡◌, refl, true, false, List, ok, arith}
use cachecash.Contract.Smt.{H256, SparseMerkleTree, SmtLaws}
use cachecash.Contract.Blob.{SeparatedHyliUtxoBlob}
use cachecash.Contract.State.{
  filter_keys, HyliUtxoState, update_roots, record_created, record_nullified,
}
use cachecash.Contract.ZkVm.{Calldata}
use cachecash.Contract.Executor.{
  HyliUtxoStateExecutor, apply_commitments, utxo_commitments, both, update_from_blob,
}
use cachecash.Contract.Recording.{Records}
use cachecash.Contract.Recording.Created.{Creates, record_created-Creates}
use cachecash.Contract.Recording.Nullified.{Nullifies, record_nullified-Nullifies}

module _ (C : SparseMerkleTree) where
  -- Both trees hold the words that are kept, and none of these was there before.
  pub record Applied (s s' : HyliUtxoState C) (nullified created : List H256) : Type 0 where
    pub nullifiers : Records C s.nullified_tree s'.nullified_tree (filter_keys nullified true)
    pub notes : Records C s.notes_tree s'.notes_tree (filter_keys created false)

  -- The states between the three parts of `apply_commitments`.
  apply_commitments-parts :
      (e : HyliUtxoStateExecutor C) (ns cs : List H256)
      → (apply_commitments C e ns cs).1 ≡ ok tt
      → let s1 = (record_nullified C e.state ns).0 in
        ((record_nullified C e.state ns).1 ≡ ok tt)
        × ((record_created C s1 cs).1 ≡ ok tt)
        × ((apply_commitments C e ns cs).0
            ≡ record e { state = update_roots C (record_created C s1 cs).0 })
  unfolding apply_commitments
  apply_commitments-parts e ns cs h = ground arith

  update_roots-trees :
      (s : HyliUtxoState C)
      → ((update_roots C s).notes_tree ≡ s.notes_tree)
        × ((update_roots C s).nullified_tree ≡ s.nullified_tree)
  unfolding update_roots
  update_roots-trees s = (refl, refl)

  module _ (L : SmtLaws C) where
    chain-Applied :
        (s s1 s2 : HyliUtxoState C) (ns cs : List H256)
        → Nullifies C s s1 (filter_keys ns true)
        → Creates C s1 s2 (filter_keys cs false)
        → Applied s (update_roots C s2) ns cs
    unfolding update_roots
    chain-Applied s s1 s2 ns cs n c = record {
      nullifiers = rw c.nullified_same n.records;
      notes = rw (← n.notes_same) c.records;
    }

    pub apply_commitments-Applied :
        (e : HyliUtxoStateExecutor C) (ns cs : List H256)
        → (apply_commitments C e ns cs).1 ≡ ok tt
        → Applied e.state (apply_commitments C e ns cs).0.state ns cs
    apply_commitments-Applied e ns cs h =
        let (n, c, e_eq) = apply_commitments-parts e ns cs h in
        rw e_eq (
          chain-Applied _ _ _ ns cs (record_nullified-Nullifies C L e.state ns n)
            (record_created-Creates C L _ cs c))

  -- A successful `update_from_blob` has parsed the UTXO blob and applied what it holds.
  update_from_blob-parts :
      (e : HyliUtxoStateExecutor C) (calldata : Calldata) {parsed : SeparatedHyliUtxoBlob}
      → (update_from_blob C e calldata).1 ≡ ok parsed
      → (utxo_commitments e.config calldata ≡ ok parsed)
        × ((apply_commitments C e (both parsed.nullifiers) (both parsed.output_notes)).1 ≡ ok tt)
        × ((update_from_blob C e calldata).0
            ≡ (apply_commitments C e (both parsed.nullifiers) (both parsed.output_notes)).0)
  unfolding update_from_blob
  update_from_blob-parts e calldata h = ground arith

  pub update_from_blob-Applied :
      (L : SmtLaws C) (e : HyliUtxoStateExecutor C) (calldata : Calldata)
      {parsed : SeparatedHyliUtxoBlob}
      → (update_from_blob C e calldata).1 ≡ ok parsed
      → (utxo_commitments e.config calldata ≡ ok parsed)
        × Applied e.state
            (update_from_blob C e calldata).0.state
            (both parsed.nullifiers)
            (both parsed.output_notes)
  update_from_blob-Applied L e calldata h =
      let (found, applied, e_eq) = update_from_blob-parts e calldata h in
      (found, rw e_eq (apply_commitments-Applied L e _ _ applied))
