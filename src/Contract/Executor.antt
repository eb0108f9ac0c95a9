-- ===== src/Contract/Executor.antt =====
-- server/src/hyli_utxo_state_client.rs: `HyliUtxoStateExecutor`, which keeps the full state beside
-- the chain and builds the witnesses for the zkVM.
use cachecash.Prelude.{
  ℕ, Bool, true, false, Option, none, some, List, [], ◌∷◌, Bytes, ◌==◌, if◌then◌else◌, Result, ok,
  err, ◌>>=◌, ok_or,
}
use cachecash.Contract.Smt.{H256, SparseMerkleTree}
use cachecash.Contract.Blob.{Error, utxo_blob_missing, SeparatedHyliUtxoBlob, parse_hyli_utxo_blob}
use cachecash.Contract.State.{
  ContractConfig, HyliUtxoZkVmState, HyliUtxoState, default_state, update_roots, record_created,
  record_nullified, to_zkvm_state, commitment,
}
use cachecash.Contract.ZkVm.{Blob, Calldata, find_blob}
use cachecash.Contract.Batch.{HyliUtxoZkVmBatch, from_state, extend_with}

-- The errors of `handle`: its own, and those of the contract's state.
pub data HandleError : Type 0 where
  state_blob_missing register_blob_missing not_an_action : HandleError
  state_error : Error → HandleError

-- The two decoders of the SDK that `handle` tries on a blob.
pub record Decoders : Type 0 where
  pub is_state_action : Bytes → Bool
  pub is_register_action : Bytes → Bool

-- `calldata.blobs.get(&index)`.
unfoldable pub get_blob : ℕ → List (ℕ × Blob) → Option Blob
get_blob i [] = none
get_blob i ((j, b) ∷ bs) = let rest = get_blob i bs in if j == i then some b else rest

-- `&[a, b]`.
abbrev pub both : H256 × H256 → List H256
both (a, b) = a ∷ b ∷ []

-- The commitments of the UTXO blob in the calldata.
unfoldable pub utxo_commitments : ContractConfig → Calldata → Result Error SeparatedHyliUtxoBlob
utxo_commitments config calldata = do
  blob ← ok_or (find_blob config.utxo_contract_name calldata.blobs) utxo_blob_missing
  parse_hyli_utxo_blob blob.payload

module _ (C : SparseMerkleTree) where
  open C use {MerkleProof}

  pub record HyliUtxoStateExecutor : Type 0 where
    pub state : HyliUtxoState C
    pub config : ContractConfig

  -- `new`, and `construct_state` behind its decoding of the configuration.
  unfoldable pub new_executor : ContractConfig → HyliUtxoStateExecutor
  new_executor config = record { state = default_state C; config = config }

  -- `zkvm_witness`.
  unfoldable pub zkvm_witness :
      HyliUtxoStateExecutor → List H256 → List H256 → Result Error (HyliUtxoZkVmState MerkleProof)
  zkvm_witness e created_note_keys nullified_keys =
      to_zkvm_state C e.state e.config created_note_keys nullified_keys

  -- The nullifiers first, then the created notes, then the new root. An empty list is passed over.
  unfoldable pub apply_commitments :
      HyliUtxoStateExecutor
      → List H256
      → List H256
      → HyliUtxoStateExecutor × Result Error (Unit {0})
  apply_commitments e nullified created =
      let (s1, r1) = record_nullified C e.state nullified in
      elim r1 [
        | err m ↦ (record e { state = s1 }, err m)
        | ok _ ↦
            let (s2, r2) = record_created C s1 created in
            elim r2 [
              | err m ↦ (record e { state = s2 }, err m)
              | ok _ ↦ (record e { state = update_roots C s2 }, ok tt)
            ]
      ]

  unfoldable pub update_from_blob :
      HyliUtxoStateExecutor → Calldata → HyliUtxoStateExecutor × Result Error SeparatedHyliUtxoBlob
  update_from_blob e calldata = elim (utxo_commitments e.config calldata) [
    | err m ↦ (e, err m)
    | ok parsed ↦
        let (e', r) = apply_commitments e (both parsed.nullifiers) (both parsed.output_notes) in
        elim r [ err m ↦ (e', err m) | ok _ ↦ (e', ok parsed) ]
  ]

  unfoldable pub build_commitment_metadata :
      HyliUtxoStateExecutor → Calldata → Result Error (HyliUtxoZkVmBatch C)
  build_commitment_metadata e calldata = do
    parsed ← utxo_commitments e.config calldata
    witness ← zkvm_witness e (both parsed.output_notes) (both parsed.nullifiers)
    ok (from_state C witness)

  -- `merge_commitment_metadata` between its decoding and encoding.
  unfoldable pub merge_commitment_metadata :
      HyliUtxoZkVmBatch C → HyliUtxoZkVmBatch C → HyliUtxoZkVmBatch C
  merge_commitment_metadata initial next = extend_with C initial next

  -- `handle`: the commitments before and after, from which the SDK makes the output.
  unfoldable pub handle :
      Decoders
      → HyliUtxoStateExecutor
      → Calldata
      → HyliUtxoStateExecutor × Result HandleError (Bytes × Bytes)
  handle D e calldata = elim (get_blob calldata.index calldata.blobs) [
    | none ↦ (e, err state_blob_missing)
    | some state_blob ↦ elim (D.is_state_action state_blob.payload) [
      | false ↦ elim (get_blob 0 calldata.blobs) [
        | none ↦ (e, err register_blob_missing)
        | some first ↦ elim (D.is_register_action first.payload) [
          | false ↦ (e, err not_an_action)
          | true ↦ (e, ok (commitment C e.state, commitment C e.state))
        ]
      ]
      | true ↦
          let (e', r) = update_from_blob e calldata in
          elim r [
            | err m ↦ (e', err (state_error m))
            | ok _ ↦ (e', ok (commitment C e.state, commitment C e'.state))
          ]
    ]
  ]

  -- `handle_transaction_success`: the new notes root for the bus, or nothing on an error.
  unfoldable pub handle_transaction_success :
      Decoders → HyliUtxoStateExecutor → Calldata → HyliUtxoStateExecutor × Option H256
  handle_transaction_success D e calldata =
      let (e', r) = handle D e calldata in
      elim r [ err _ ↦ (e', none) | ok _ ↦ (e', some (C.tree_root e'.state.notes_tree)) ]
