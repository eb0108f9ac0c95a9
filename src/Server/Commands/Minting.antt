-- ===== src/Server/Commands/Minting.antt =====
-- The mint transactions of server/src/app.rs: the contract's checks on them, and their jobs; and
-- what the contract says to the transfers of the same file.
use cachecash.Prelude.{ℕ, ◌≡◌, false, Option, none, some, List, ◌∷◌, ◌++◌, Bytes, length, take}
use cachecash.Contract.Smt.{SparseMerkleTree}
use cachecash.Contract.Blob.{SeparatedHyliUtxoBlob, SmtInclBlob}
use cachecash.Contract.ZkVm.{Blob, Sdk}
use cachecash.Zk.Note.{Note}
use cachecash.Zk.Utxo.{Utxo, output_commitments}
use cachecash.Zk.HyliUtxo.{nullifier_of}
use cachecash.Server.Blobs
use cachecash.Server.Blobs.Callees.{IsDeployed, is_called}
use cachecash.Server.Faucet.{Deposit, optional_blob, deposit_blobs, secp256k1, wallet}

module _ (X : Blobs.External) (size : (n : ℕ) → length (X.to_be_bytes n) ≡ 32) where
  -- What the contract reads out of the UTXO blob of a mint.
  abbrev minted : Utxo → SeparatedHyliUtxoBlob
  minted u = record {
    output_notes = (
      X.to_be_bytes ((output_commitments (X.hash_merge) u).0),
      X.to_be_bytes ((output_commitments (X.hash_merge) u).1),
    );
    nullifiers = (
      X.to_be_bytes (nullifier_of (X.hash_merge) (u.input_notes.0)),
      X.to_be_bytes (nullifier_of (X.hash_merge) (u.input_notes.1)),
    );
  }

  -- What it reads out of the inclusion payload, with a notes root.
  abbrev included : Utxo → ℕ → SmtInclBlob
  included u root = record {
    nullifier0 = (minted u).nullifiers.0;
    nullifier1 = (minted u).nullifiers.1;
    notes_root_fingerprint = take 8 (X.to_be_bytes root);
  }

  module _ (C : SparseMerkleTree) (S : Sdk) (read : Bytes → Option Blobs.StructuredBlobData) where
    -- A blob of the wallet does not read as one that the state blob calls.
    abbrev pub IsUncalled : Option Bytes → Type 0
    IsUncalled none = Unit
    IsUncalled (some payload) = is_called read 0 payload ≡ false

    module _ (names : Blobs.RouterCtx) (utxo incl : Bytes)
        (d : IsDeployed read X S names utxo incl) where
      -- The blobs behind the inclusion blob.
      abbrev more_blobs : Deposit → List Blob
      more_blobs deposit =
          optional_blob secp256k1 (deposit.secp256k1_blob)
          ++ (optional_blob wallet (deposit.wallet_blob)
              ++ deposit_blobs X names (deposit.wallet_account) (deposit.token_deposit))

      abbrev incl_blob : Bytes → Blob
      incl_blob payload = record {
        contract_name = names.smt_incl_proof_contract_name;
        payload = X.encode_vec (record { caller = some 0; callees = none; parameters = payload });
      }

      -- The blobs behind the state blob.
      abbrev behind_state : Bytes → Bytes → Deposit → List Blob
      behind_state blob_bytes payload deposit =
          record { contract_name = names.utxo_contract_name; payload = blob_bytes }
          ∷ incl_blob payload
          ∷ more_blobs deposit
