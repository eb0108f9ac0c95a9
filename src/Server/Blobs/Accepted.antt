-- ===== src/Server/Blobs/Accepted.antt =====
-- The contract's checks on the transaction that server/src/api.rs builds.
use cachecash.Prelude.{
  ℕ, ◌≡◌, refl, true, false, Option, none, some, List, [], ◌∷◌, ◌++◌, Bytes, bytes_eq, ok,
  bytes_eq_refl,
}
use cachecash.Contract.Smt.{SparseMerkleTree}
use cachecash.Contract.Blob.{
  SeparatedHyliUtxoBlob, SmtInclBlob, parse_hyli_utxo_blob, parse_hyli_smt_incl_blob,
}
use cachecash.Contract.State.{HyliUtxoZkVmState}
use cachecash.Contract.ZkVm.{
  Blob, Calldata, Sdk, find_blob, remove_first, contains_root, without_first,
  check_withdraw_callees, check_noir_blobs,
}
use cachecash.Server.Blobs

pub find_second :
    (name : Bytes) (a b : Blob) (rest : List (ℕ × Blob))
    → bytes_eq a.contract_name name ≡ false
    → b.contract_name ≡ name
    → find_blob name ((0, a) ∷ (1, b) ∷ rest) ≡ some b
unfolding find_blob
find_second name a b rest other same =
    let same' : bytes_eq b.contract_name name ≡ true = rw same (bytes_eq_refl name) in
    rw (other, same') refl

pub remove_head :
    (name : Bytes) (b : Blob) (rest : List Blob)
    → b.contract_name ≡ name
    → remove_first name (b ∷ rest) ≡ some (b, rest)
unfolding remove_first
remove_head name b rest same =
    let same' : bytes_eq b.contract_name name ≡ true = rw same (bytes_eq_refl name) in
    rw (same', remove_first) refl

pub no_callee : (name : Bytes) → check_withdraw_callees name [] ≡ ok []
unfolding check_withdraw_callees without_first remove_first
no_callee name = refl

-- A withdrawal asks for a transfer of the tree contract.
abbrev pub WithdrawsFrom : Blobs.RouterCtx → Option Blobs.TokenTransferRequest → Bytes → Type 0
WithdrawsFrom state none tree = Unit
WithdrawsFrom state (some t) tree =
    bytes_eq t.sender state.utxo_state_contract_name ≡ true → t.token_contract ≡ tree

module _ (C : SparseMerkleTree) (S : Sdk) where
  pub passes :
      (s : HyliUtxoZkVmState C.MerkleProof) (calldata : Calldata) (utxo_blob smt_blob : Blob)
      (others : List Blob) (payload : Bytes) (smt : SmtInclBlob) (utxo : SeparatedHyliUtxoBlob)
      → find_blob s.config.utxo_contract_name calldata.blobs ≡ some utxo_blob
      → remove_first s.config.smt_incl_proof_contract_name (smt_blob ∷ others)
        ≡ some (smt_blob, others)
      → S.structured_parameters smt_blob.payload ≡ some payload
      → parse_hyli_smt_incl_blob payload ≡ ok smt
      → contains_root smt.notes_root_fingerprint s.roots ≡ true
      → parse_hyli_utxo_blob utxo_blob.payload ≡ ok utxo
      → bytes_eq utxo.nullifiers.0 smt.nullifier0 ≡ true
      → bytes_eq utxo.nullifiers.1 smt.nullifier1 ≡ true
      → check_withdraw_callees s.config.smt_contract_name others ≡ ok []
      → check_noir_blobs C S s calldata (record { callees_blobs = smt_blob ∷ others })
        ≡ ok (record { callees_blobs = [] })
  unfolding check_noir_blobs
  passes s calldata ub sb others payload smt utxo e1 e2 e3 e4 e5 e6 e7 e8 e9 =
      rw (e1, e2, e3, e4, e5, e6, e7, e8, e9) refl

module _ (X : Blobs.External) (state : Blobs.RouterCtx) where
  abbrev structured : Option ℕ → Option (List ℕ) → Bytes → Blobs.StructuredBlobData
  structured caller callees parameters = record {
    caller = caller;
    callees = callees;
    parameters = parameters;
  }

  -- The blob of the inclusion proof.
  abbrev incl_blob : Bytes → Blob
  incl_blob raw = record {
    contract_name = state.smt_incl_proof_contract_name;
    payload = X.encode_vec (structured (some 0) none raw);
  }

  -- The transaction with an inclusion payload, the indexes of the callees and the caller of the token
  -- blob; behind its state blob stand the others.
  abbrev others_of : Blobs.CreateBlobRequest → Bytes → Option ℕ → List Blob
  others_of request raw token_caller =
      record { contract_name = state.utxo_contract_name; payload = request.blob_data }
      ∷ incl_blob raw
      ∷ Blobs.token_blobs X state (request.token_transfer) token_caller

  abbrev transaction_of :
      Blobs.CreateBlobRequest → Bytes → List ℕ × Option ℕ → Blobs.BlobTransaction
  transaction_of request raw (callees, token_caller) = record {
    identity = Blobs.transfer_prefix ++ state.utxo_contract_name;
    blobs =
        record {
          contract_name = state.utxo_state_contract_name;
          payload = X.encode_array (structured none (some callees) Blobs.hyli_utxo_state_action);
        }
        ∷ others_of request raw token_caller;
  }

  abbrev topology : Blobs.CreateBlobRequest → List ℕ × Option ℕ
  topology request =
      Blobs.withdraw_topology (state.utxo_state_contract_name) (request.token_transfer)
