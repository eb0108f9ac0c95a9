-- ===== src/Server/Faucet.antt =====
-- server/src/app.rs: the transactions of the faucet, and the handlers of its commands. A handler
-- gives the state, the node's calls and the jobs for the provers in their order, and its result; a
-- job that cannot be sent is only logged. What `Blobs.External` and `Transfer.Node` hold are
-- parameters, and so is whether the bus takes a job.
use cachecash.Prelude.{ℕ, ◌+◌, ◌%◌, ◌^◌, Option, none, some, List, [], ◌∷◌, ◌++◌, Bytes, take, drop}
use cachecash.Contract.ZkVm.{Blob}
use cachecash.Zk.Note.{Note, InputNote, new_with_psi, padding_note}
use cachecash.Zk.Utxo.{Utxo, new_mint, new_send, input_commitments, output_commitments}
use cachecash.Zk.HyliUtxo.{nullifier_of}
use cachecash.Server.Blobs
use cachecash.Server.Prover
use cachecash.Server.Transfer

-- The state of `FaucetApp`, with its contract names.
pub record FaucetApp : Type 0 where
  pub notes_root : ℕ
  pub nullifier_root : ℕ
  pub note_index : ℕ
  pub names : Blobs.RouterCtx

-- The optional parts of a deposit: the token contract with the amount, and the wallet's blobs.
pub record Deposit : Type 0 where
  pub token_deposit : Option (Bytes × ℕ)
  pub wallet_account : Option Bytes
  pub secp256k1_blob : Option Bytes
  pub wallet_blob : Option Bytes

-- What a handler does besides: a call of the node, or a job for a prover.
pub data Event : Type 0 where
  node_call : Transfer.NodeCall → Event
  utxo_job : Prover.HyliUtxoProofJob → Event
  smt_incl_job : Prover.SmtInclProofJob → Event

-- The errors of the handlers.
pub data AppError : Type 0 where
  dispatch_failed blob_not_found bus_failed proof_failed : AppError
  blob_length : ℕ → AppError

-- "@wallet", "faucet@", "secp256k1" and "wallet".
abbrev pub at_wallet : Bytes
at_wallet = 64 ∷ 119 ∷ 97 ∷ 108 ∷ 108 ∷ 101 ∷ 116 ∷ []

abbrev pub faucet_at : Bytes
faucet_at = 102 ∷ 97 ∷ 117 ∷ 99 ∷ 101 ∷ 116 ∷ 64 ∷ []

abbrev pub secp256k1 : Bytes
secp256k1 = 115 ∷ 101 ∷ 99 ∷ 112 ∷ 50 ∷ 53 ∷ 54 ∷ 107 ∷ 49 ∷ []

abbrev pub wallet : Bytes
wallet = 119 ∷ 97 ∷ 108 ∷ 108 ∷ 101 ∷ 116 ∷ []

-- `build_note`, with the random number for psi.
unfoldable pub build_note : ℕ → ℕ → ℕ → ℕ → Note
unfolding new_with_psi
build_note usdc recipient_address amount psi = new_with_psi usdc recipient_address amount psi

-- A blob for a contract if there is data.
unfoldable pub optional_blob : Bytes → Option Bytes → List Blob
optional_blob name none = []
optional_blob name (some payload) = record { contract_name = name; payload = payload } ∷ []

-- `Identity` of a transaction: the wallet's, or the faucet's own.
unfoldable pub identity_of : Blobs.RouterCtx → Option Bytes → Bytes
identity_of names (some account) = account ++ at_wallet
identity_of names none = faucet_at ++ names.utxo_contract_name

module _ (X : Blobs.External) where
  -- The bytes of the created notes' commitments, then those of the nullifiers.
  unfoldable pub mint_bytes : Utxo → Bytes
  mint_bytes u =
      X.to_be_bytes (output_commitments X.hash_merge u).0
      ++ (X.to_be_bytes (output_commitments X.hash_merge u).1
          ++ (X.to_be_bytes (nullifier_of X.hash_merge u.input_notes.0)
              ++ X.to_be_bytes (nullifier_of X.hash_merge u.input_notes.1)))

  -- The transfer of the deposited tokens to the state contract.
  unfoldable pub deposit_blobs : Blobs.RouterCtx → Option Bytes → Option (Bytes × ℕ) → List Blob
  unfolding identity_of
  deposit_blobs names wallet_account none = []
  deposit_blobs names wallet_account (some (token_contract, amount)) =
      X.token_transfer token_contract (identity_of names wallet_account)
        names.utxo_state_contract_name amount none
      ∷ []

  -- `build_transaction`. The vector `state_commitments` that it fills is not used.
  unfoldable pub build_transaction :
      FaucetApp → Note → Deposit → FaucetApp × (Blobs.BlobTransaction × Utxo)
  unfolding mint_bytes deposit_blobs optional_blob identity_of new_mint
  build_transaction app note deposit =
      let utxo = new_mint (note, padding_note) in
      let blob_bytes = mint_bytes utxo in
      let incl_proof_bytes = take 64 (drop 64 blob_bytes) ++ X.to_be_bytes app.notes_root in
      (
        record app {
          nullifier_root = nullifier_of X.hash_merge utxo.input_notes.1;
          note_index = (app.note_index + 1) % 2 ^ 64;
        },
        (
          record {
            identity = identity_of app.names deposit.wallet_account;
            blobs =
                Blobs.first_blobs X app.names
                  (X.encode_array (record {
                    caller = none;
                    callees = some (2 ∷ []);
                    parameters = Blobs.hyli_utxo_state_action;
                  }))
                  blob_bytes
                  (X.encode_vec
                    (record { caller = some 0; callees = none; parameters = incl_proof_bytes }))
                ++ (optional_blob secp256k1 deposit.secp256k1_blob
                    ++ (optional_blob wallet deposit.wallet_blob
                        ++ deposit_blobs app.names deposit.wallet_account deposit.token_deposit));
          },
          utxo,
        ),
      )

  -- The two blobs of a transfer: the state blob, with no callees, and the UTXO blob.
  unfoldable pub transfer_blobs : Blobs.RouterCtx → Bytes → Blobs.BlobTransaction
  transfer_blobs names blob = record {
    identity = Blobs.transfer_prefix ++ names.utxo_contract_name;
    blobs =
        record {
          contract_name = names.utxo_state_contract_name;
          payload =
              X.encode_array (record {
                caller = none;
                callees = none;
                parameters = Blobs.hyli_utxo_state_action;
              });
        }
        ∷ record { contract_name = names.utxo_contract_name; payload = blob }
        ∷ [];
  }

  -- `build_proved_transfer_blob`; the nullifiers that it cuts out of the blob are not used.
  unfoldable pub build_proved_transfer_blob : FaucetApp → Bytes → Blobs.BlobTransaction
  unfolding transfer_blobs
  build_proved_transfer_blob app blob = transfer_blobs app.names blob

  -- `build_transfer_transaction`: the commitments of the input notes, then the nullifiers.
  unfoldable pub build_transfer_transaction :
      FaucetApp → InputNote × InputNote → Note × Note → Blobs.BlobTransaction × Utxo
  unfolding transfer_blobs new_send
  build_transfer_transaction app input_notes output_notes =
      let utxo = new_send input_notes output_notes in
      (
        transfer_blobs app.names (
            X.to_be_bytes (input_commitments X.hash_merge utxo).0
            ++ (X.to_be_bytes (input_commitments X.hash_merge utxo).1
                ++ (X.to_be_bytes (nullifier_of X.hash_merge (input_notes.0))
                    ++ X.to_be_bytes (nullifier_of X.hash_merge (input_notes.1))))),
        utxo,
      )
