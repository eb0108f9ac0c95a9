-- ===== src/Contract/Tests.antt =====
-- Each theorem on the contract at a concrete transaction: it creates the note 3, with zero for the
-- second, and uses the nullifier 5, with the padding for the second.
use cachecash.Prelude.{
  arith, ltb, ◌||◌, ◌&&◌, ◌≡◌, refl, bytes_eq, true, false, List, [], ◌∷◌, ◌++◌, replicate, Bytes,
  ok, ◌↔◌,
}
use cachecash.Contract.Smt.{
  H256, h256_zero, contains, smt_contains, update_leaf, merkle_proof, value_or_zero,
}
use cachecash.Contract.Blob.{
  SeparatedHyliUtxoBlob, SmtInclBlob, parse_hyli_utxo_blob, parse_hyli_smt_incl_blob,
}
use cachecash.Contract.State.{
  max_roots, ContractConfig, padding_nullifier, filter_keys, HyliUtxoZkVmState, update_roots,
  record_nullified, record_created, merkle, current_root_hash, build_witness, to_zkvm_state, resize,
  commitment,
}
use cachecash.Contract.ZkVm.{
  Blob, Calldata, ExecutionContext, find_blob, remove_first, contains_root, check_withdraw_callees,
  commit, check_noir_blobs,
}
use cachecash.Contract.Batch.{
  HyliUtxoZkVmBatch, from_state, on_success, execute_batch, advance_step,
}
use cachecash.Contract.Executor.{
  HyliUtxoStateExecutor, both, utxo_commitments, apply_commitments, update_from_blob, zkvm_witness,
  build_commitment_metadata,
}
use cachecash.Contract.Refinement.{execute-refines-update_from_blob}
use cachecash.Contract.DoubleSpend.{here, no_double_spend, no_double_creation}
use cachecash.Contract.Roots.{IsWindow, update_roots-IsWindow}
use cachecash.Contract.Fifo.{settle, merge_all, traverse, settle-merge_all}
use cachecash.Contract.Checks.{Checked, check_noir_blobs-Checked}
use cachecash.Contract.Parsing.{IsSized, utxo_layout, parse_hyli_utxo_blob_iff, IsSmtLayout}
use cachecash.Contract.KnownRoots.{zero_root, contains_root-to_zkvm_state}
use cachecash.Contract.Toy.{word, toy_tree, toy_sdk, toy_laws}

abbrev config : ContractConfig
config = record {
  utxo_contract_name = 1 ∷ [];
  smt_incl_proof_contract_name = 2 ∷ [];
  smt_contract_name = 3 ∷ [];
}

abbrev commitments : SeparatedHyliUtxoBlob
commitments = record {
  output_notes = (word 3, h256_zero);
  nullifiers = (word 5, padding_nullifier);
}

abbrev other_commitments : SeparatedHyliUtxoBlob
other_commitments = record {
  output_notes = (word 4, h256_zero);
  nullifiers = (word 6, padding_nullifier);
}

abbrev smt_blob : Blob
smt_blob = record { contract_name = 2 ∷ []; payload = word 5 ++ (padding_nullifier ++ h256_zero) }

-- A transaction with this UTXO payload.
abbrev with_payload : Bytes → Calldata
with_payload payload = record {
  identity = [];
  blobs =
      (0, record { contract_name = 1 ∷ []; payload = payload })
      ∷ (1, record { contract_name = 4 ∷ []; payload = [] })
      ∷ (2, smt_blob)
      ∷ [];
  index = 1;
}

abbrev transaction : Calldata
transaction = with_payload (word 3 ++ (h256_zero ++ (word 5 ++ padding_nullifier)))

abbrev other_transaction : Calldata
other_transaction = with_payload (word 4 ++ (h256_zero ++ (word 6 ++ padding_nullifier)))

abbrev context : ExecutionContext
context = record { callees_blobs = smt_blob ∷ [] }

abbrev start : HyliUtxoStateExecutor toy_tree
start = record {
  state = record { notes_tree = λ k. h256_zero; nullified_tree = λ k. h256_zero; roots = [] };
  config = config;
}

abbrev witness : HyliUtxoZkVmState (H256 → H256)
witness = record {
  created_notes = record {
    values = record { key = word 3; value = h256_zero } ∷ [];
    proof = merkle (λ k. h256_zero);
  };
  nullified_notes = record {
    values = record { key = word 5; value = h256_zero } ∷ [];
    proof = merkle (λ k. h256_zero);
  };
  config = config;
  roots = replicate 1000 (replicate 8 0);
}

abbrev batch : HyliUtxoZkVmBatch toy_tree
batch = record { current = witness; remaining = [] }

accepted : (update_from_blob toy_tree start transaction).1 ≡ ok commitments
unfolding update_from_blob utxo_commitments find_blob bytes_eq parse_hyli_utxo_blob
    apply_commitments record_nullified smt_contains update_leaf record_created
accepted = refl

also_accepted :
    (update_from_blob toy_tree (update_from_blob toy_tree start transaction).0 other_transaction).1
    ≡ ok other_commitments
unfolding update_from_blob utxo_commitments find_blob bytes_eq parse_hyli_utxo_blob
    apply_commitments record_nullified smt_contains update_leaf record_created update_roots
also_accepted = refl

built : build_commitment_metadata toy_tree start transaction ≡ ok batch
unfolding build_commitment_metadata utxo_commitments find_blob bytes_eq parse_hyli_utxo_blob
    zkvm_witness to_zkvm_state build_witness filter_keys merkle_proof value_or_zero resize
    from_state
built = refl

checks :
    check_noir_blobs toy_tree toy_sdk witness transaction context
    ≡ ok (record { callees_blobs = [] })
unfolding check_noir_blobs find_blob bytes_eq parse_hyli_utxo_blob remove_first
    parse_hyli_smt_incl_blob contains_root check_withdraw_callees
checks = refl

spent : contains (word 5) (filter_keys (both commitments.nullifiers) true) ≡ true
unfolding filter_keys bytes_eq
spent = refl

created : contains (word 3) (filter_keys (both commitments.output_notes) false) ≡ true
unfolding filter_keys bytes_eq
created = refl

execute-refines-update_from_blob_example :
    (commit toy_tree witness ≡ ok (commitment toy_tree start.state))
    × ((b' : HyliUtxoZkVmBatch toy_tree) × (execute_batch toy_tree toy_sdk batch transaction
          ≡ ok (b', record { callees_blobs = [] }))
        × (on_success toy_tree b'
            ≡ ok (
              commitment toy_tree (update_from_blob toy_tree start transaction).0.state,
              advance_step toy_tree b',
            )))
execute-refines-update_from_blob_example =
    execute-refines-update_from_blob toy_tree toy_laws toy_sdk start transaction built accepted refl
      checks

no_double_spend_example :
    contains (word 5) (filter_keys (both other_commitments.nullifiers) true) ≡ false
no_double_spend_example =
    no_double_spend toy_tree toy_laws start (update_from_blob toy_tree start transaction).0
      transaction other_transaction (word 5) accepted spent here also_accepted

no_double_creation_example :
    contains (word 3) (filter_keys (both other_commitments.output_notes) false) ≡ false
no_double_creation_example =
    no_double_creation toy_tree toy_laws start (update_from_blob toy_tree start transaction).0
      transaction other_transaction (word 3) accepted created here also_accepted

parse_hyli_utxo_blob_iff_example :
    (parse_hyli_utxo_blob (utxo_layout commitments) ≡ ok commitments)
    ↔ (IsSized commitments × (utxo_layout commitments ≡ utxo_layout commitments))
parse_hyli_utxo_blob_iff_example = parse_hyli_utxo_blob_iff (utxo_layout commitments) commitments

abbrev inclusion : SmtInclBlob
inclusion = record {
  nullifier0 = word 5;
  nullifier1 = padding_nullifier;
  notes_root_fingerprint = replicate 8 0;
}

inclusion-IsSmtLayout : IsSmtLayout smt_blob.payload inclusion (replicate 24 0)
inclusion-IsSmtLayout = record {
  nullifier0 = refl;
  nullifier1 = refl;
  fingerprint = refl;
  rest_size = refl;
  layout = refl;
}

update_roots-IsWindow_example :
    IsWindow toy_tree (update_roots toy_tree start.state) (replicate 8 0 ∷ [])
update_roots-IsWindow_example = update_roots-IsWindow toy_tree start.state [] refl

-- The same witness for another note, so that the order of the commitments shows.
abbrev later : HyliUtxoZkVmState (H256 → H256)
later = record witness {
  created_notes = record { values = []; proof = current_root_hash (word 9) };
}

settle-merge_all_example :
    settle toy_tree 2 (merge_all toy_tree (from_state toy_tree witness) (later ∷ []))
    ≡ traverse (commit toy_tree) (witness ∷ later ∷ [])
settle-merge_all_example = settle-merge_all toy_tree witness (later ∷ [])

check_noir_blobs-Checked_example :
    Checked toy_tree toy_sdk witness transaction (smt_blob ∷ []) × (◌≡◌ {A = List Blob} [] [])
check_noir_blobs-Checked_example =
    check_noir_blobs-Checked toy_tree toy_sdk witness transaction context
      (record { callees_blobs = [] }) checks

made :
    to_zkvm_state toy_tree start.state config
      (both commitments.output_notes)
      (both commitments.nullifiers)
    ≡ ok witness
unfolding bytes_eq to_zkvm_state build_witness filter_keys merkle_proof value_or_zero resize
made = refl

contains_root-to_zkvm_state_example :
    contains_root zero_root witness.roots
    ≡ (contains_root zero_root [] || (bytes_eq zero_root zero_root && ltb 0 max_roots))
contains_root-to_zkvm_state_example =
    contains_root-to_zkvm_state toy_tree start.state config (both commitments.output_notes)
      (both commitments.nullifiers) zero_root (omega arith) made
