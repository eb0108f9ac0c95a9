-- ===== src/Server/Commands/Refused.antt =====
-- The transfers of server/src/app.rs that carry no inclusion blob, against the contract's checks.
use cachecash.Prelude.{◌≡◌, false, Option, none, some, Bytes, ok, err, get_elem?}
use cachecash.Contract.Smt.{SparseMerkleTree}
use cachecash.Contract.Blob.{smt_blob_missing}
use cachecash.Contract.State.{HyliUtxoZkVmState}
use cachecash.Contract.ZkVm.{Blob, ExecutionContext, Sdk, check_noir_blobs}
use cachecash.Zk.Note.{Note}
use cachecash.Server.Blobs
use cachecash.Server.Blobs.Callees.{state_calldata, is_called}

module _ (X : Blobs.External) (C : SparseMerkleTree) (S : Sdk)
    (read : Bytes → Option Blobs.StructuredBlobData) where
  -- The SDK parses the calldata of a transaction, and the contract refuses it for want of the
  -- inclusion blob.
  abbrev pub LacksInclusion : HyliUtxoZkVmState C.MerkleProof → Blobs.BlobTransaction → Type 0
  LacksInclusion s tx =
      (ctx : ExecutionContext) × (S.parse_calldata (state_calldata tx) ≡ ok ctx)
      × (check_noir_blobs C S s (state_calldata tx) ctx ≡ err smt_blob_missing)

  -- The second blob of a transaction does not read as one that the first blob calls.
  abbrev pub IsSecondUncalled : Blobs.BlobTransaction → Type 0
  IsSecondUncalled tx = elim (get_elem? tx.blobs 1) [
    | none ↦ Unit
    | some b ↦ is_called read 0 b.payload ≡ false
  ]
