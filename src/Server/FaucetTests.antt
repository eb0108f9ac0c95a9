-- ===== src/Server/FaucetTests.antt =====
-- The theorems on the faucet of server/src/app.rs at a mint of 42, with small stand-ins for the SDK
-- and the node.
use cachecash.Prelude.{
  ℕ, ◌≡◌, refl, true, none, some, [], ◌∷◌, ◌++◌, Bytes, bytes_eq, ok, replicate, length,
  length-append, arith,
}
use cachecash.Contract.Toy.{word}
use cachecash.Zk.Note.{Note, padding_note, padding_input}
use cachecash.Zk.Utxo.{new_mint}
use cachecash.Server.Blobs
use cachecash.Server.Transfer
use cachecash.Server.TransferTests.{node}
use cachecash.Server.ToySdk.{sdk_codec, names}
use cachecash.Server.Faucet.{
  FaucetApp, Deposit, node_call, utxo_job, smt_incl_job, mint_bytes, build_transaction,
  build_proved_transfer_blob, build_transfer_transaction,
}
use cachecash.Server.Commands.{process_mint}
use cachecash.Server.Commands.Jobs.{
  AreDistinct, mint_utxo_job, mint_incl_job, incl_payload, process_mint-jobs,
}

abbrev faucet_app : FaucetApp
faucet_app = record { notes_root = 0; nullifier_root = 0; note_index = 5; names = names }

abbrev minted_note : Note
minted_note = record { kind = 2; contract = 4; address = 5; psi = 6; value = 42 }

-- A deposit of 42 tokens with a wallet.
abbrev deposit : Deposit
deposit = record {
  token_deposit = some (3 ∷ [], 42);
  wallet_account = some (7 ∷ []);
  secp256k1_blob = some (8 ∷ []);
  wallet_blob = none;
}

size_of_word : (n : ℕ) → length (word n) ≡ 32
size_of_word n = refl

abbrev minted_bytes : Bytes
minted_bytes = mint_bytes sdk_codec (new_mint (minted_note, padding_note))

abbrev deposited : Blobs.BlobTransaction
deposited = (build_transaction sdk_codec faucet_app minted_note deposit).1.0

abbrev proved : Blobs.BlobTransaction
proved = build_proved_transfer_blob sdk_codec faucet_app (word 1)

abbrev transferred : Blobs.BlobTransaction
transferred =
    (build_transfer_transaction sdk_codec faucet_app (padding_input, padding_input)
      (minted_note, padding_note)).0

-- A codec with fourteen bytes before the parameters, as for a caller and no callees.
abbrev headed : Blobs.External
headed = record sdk_codec { encode_vec = λ d. replicate 14 0 ++ d.parameters }

distinct : AreDistinct names
unfolding bytes_eq
distinct = record { state_utxo = refl; state_incl = refl; utxo_incl = refl }

headed_size :
    (parameters : Bytes) → length parameters ≡ 96 → length (replicate 14 0 ++ parameters) ≡ 110
headed_size parameters h = omega (arith, length-append (replicate 14 0) parameters, h)

process_mint-jobs_example :
    let (app', (tx, utxo)) = build_transaction headed faucet_app minted_note deposit in
    process_mint headed node (λ e. true) faucet_app minted_note deposit ≡ (
      app',
      (
        node_call (Transfer.send_tx_blob tx)
            ∷ utxo_job (mint_utxo_job tx (7 ∷ []) utxo (mint_bytes headed utxo))
            ∷ smt_incl_job
                (mint_incl_job tx (7 ∷ []) (incl_payload headed size_of_word faucet_app utxo))
            ∷ [],
        ok tt,
      ),
    )
process_mint-jobs_example =
    process_mint-jobs headed size_of_word headed_size node (λ e. true) faucet_app minted_note
      deposit (7 ∷ []) distinct (λ e. refl) refl
