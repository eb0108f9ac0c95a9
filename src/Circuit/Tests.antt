-- ===== src/Circuit/Tests.antt =====
-- The theorems on the inputs of the circuits at a mint and at a transfer of the faucet, with a
-- number in the last of 32 bytes and numbers for the 256-bit arithmetic.
use cachecash.Prelude.{
  ℕ, AreBytes, AreBytes-replicate, ◌+◌, ◌-◌, ◌*◌, ◌/◌, ◌≡◌, ◌⊎◌, refl, some, none, List, [], ◌∷◌,
  ◌++◌, Bytes, length, replicate, ok, arith, bytes_eq, take,
}
use cachecash.Element.Signed.{Arith, ArithLaws}
use cachecash.Contract.Toy.{word}
use cachecash.Zk.Aggregate.{chunks}
use cachecash.Zk.HyliUtxo.{nullifier_of}
use cachecash.Zk.Note.{commitment, Note, padding_note, padding_input}
use cachecash.Zk.Utxo.{Utxo, input_commitments}
use cachecash.Server.Blobs
use cachecash.Server.Faucet.{
  FaucetApp, Deposit, mint_bytes, build_transaction, build_transfer_transaction, transfer_blobs,
  identity_of,
}
use cachecash.Server.Commands.{utxo_proof_job}
use cachecash.Server.Commands.Jobs.{AreDistinct, mint_utxo_job}
use cachecash.Server.Prover.{HyliUtxo, HyliUtxoProofJob, build_hyli_utxo}
use cachecash.Server.Transfer.{find_indexed}
use cachecash.Server.ToySdk.{sdk_codec, names}
use cachecash.Circuit.TxHash.{hex_text}
use cachecash.Circuit.Inputs.{HyliUtxoInput, utxo_input}
use cachecash.Circuit.Building.{IsReady, Shows}
use cachecash.Circuit.Faucet.{inputs_of, SameCommitments, mint_utxo_job-shown, transfer_job-stopped}
use cachecash.Circuit.Proofs.{HyliProof, hyli_proof, hyli_to_bytes}
use cachecash.Circuit.Proofs.RoundTrip.{ComeBack, hyli_to_bytes-hyli_proof}

abbrev exact : Arith
exact = record {
  add = λ a b. some (a + b);
  sub = λ a b. some (a - b);
  mul = λ a b. some (a * b);
  div = λ a b. some (a / b);
}

exact_laws : ArithLaws exact
exact_laws = record {
  add_exact = λ a b h. refl;
  sub_exact = λ a b h. refl;
  mul_exact = λ a b h. refl;
  div_exact = λ a b h. refl;
}

abbrev sum : List ℕ → ℕ
sum [] = 0
sum (n ∷ ns) = n + sum ns

abbrev summing : Blobs.External
summing = record sdk_codec { hash_merge = sum }

abbrev faucet_app : FaucetApp
faucet_app = record { notes_root = 0; nullifier_root = 0; note_index = 5; names = names }

abbrev paid_note : Note
paid_note = record { kind = 2; contract = 4; address = 5; psi = 6; value = 42 }

abbrev deposit : Deposit
deposit = record {
  token_deposit = none;
  wallet_account = some (7 ∷ []);
  secp256k1_blob = none;
  wallet_blob = none;
}

abbrev tx_hash : Bytes
tx_hash = replicate 32 7

tx_hash-AreBytes : AreBytes tx_hash
tx_hash-AreBytes = AreBytes-replicate 32 7 (omega arith)

abbrev mint_job : HyliUtxoProofJob
mint_job =
    mint_utxo_job (build_transaction summing faucet_app paid_note deposit).1.0 tx_hash
      (build_transaction summing faucet_app paid_note deposit).1.1
      (mint_bytes summing (build_transaction summing faucet_app paid_note deposit).1.1)

mint_job-IsReady : IsReady (1 ∷ []) mint_job
unfolding build_transaction identity_of
mint_job-IsReady = record {
  identity_fits = omega arith;
  name_fits = omega arith;
  hash_size = refl;
  hash_bytes = tx_hash-AreBytes;
}

mint_utxo_job-shown_example :
    (h : HyliUtxo) × (build_hyli_utxo hex_text (1 ∷ []) mint_job ≡ ok h)
    × (i : HyliUtxoInput) × (inputs_of summing exact (λ n. n) h ≡ some i)
    × Shows
        (1 ∷ [])
        mint_job
        mint_job.blob
        (utxo_input (λ n. n) summing.hash_merge exact mint_job.utxo)
        i
mint_utxo_job-shown_example =
    mint_utxo_job-shown summing (λ n. refl) exact exact_laws (λ n. n) hex_text (λ bytes small. refl)
      (1 ∷ []) faucet_app paid_note deposit tx_hash mint_job-IsReady (omega arith)

distinct : AreDistinct names
unfolding bytes_eq
distinct = record { state_utxo = refl; state_incl = refl; utxo_incl = refl }

-- A transfer of the paid note to a note of another address.
abbrev sent : Utxo
sent =
    (build_transfer_transaction summing faucet_app
      (record { note = paid_note; secret_key = 8 }, padding_input)
      (record paid_note { address = 9 }, padding_note)).1

abbrev sent_job : HyliUtxoProofJob
sent_job = record {
  tx_hash = tx_hash;
  identity = Blobs.transfer_prefix ++ 1 ∷ [];
  utxo = sent;
  blob = word 59 ++ (word 0 ++ (word 14 ++ word 0));
  tx_blob_count = 2;
  blob_index = 1;
}

sent_job-made :
    utxo_proof_job faucet_app
      (build_transfer_transaction summing faucet_app
        (record { note = paid_note; secret_key = 8 }, padding_input)
        (record paid_note { address = 9 }, padding_note)).0
      tx_hash
      sent
    ≡ ok sent_job
unfolding utxo_proof_job build_transfer_transaction transfer_blobs find_indexed bytes_eq
    input_commitments nullifier_of commitment
sent_job-made = refl

sent_job-IsReady : IsReady (1 ∷ []) sent_job
sent_job-IsReady = record {
  identity_fits = omega arith;
  name_fits = omega arith;
  hash_size = refl;
  hash_bytes = tx_hash-AreBytes;
}

transfer_job-stopped_example :
    (h : HyliUtxo) × (build_hyli_utxo hex_text (1 ∷ []) sent_job ≡ ok h)
    × (SameCommitments summing sent ⊎ (inputs_of summing exact (λ n. n) h ≡ none))
transfer_job-stopped_example =
    transfer_job-stopped summing (λ n. refl) exact exact_laws (λ n. n) hex_text
      (λ bytes small. refl) (1 ∷ []) faucet_app
      (record { note = paid_note; secret_key = 8 }, padding_input)
      (record paid_note { address = 9 }, padding_note) tx_hash sent_job distinct sent_job-made
      sent_job-IsReady

abbrev from_last : Bytes → ℕ
from_last [] = 0
from_last (b ∷ []) = b
from_last (b ∷ c ∷ bytes) = from_last (c ∷ bytes)

abbrev backend_bytes : Bytes
backend_bytes = word 5 ++ (word 6 ++ 9 ∷ 8 ∷ [])

words_back : ComeBack word from_last (chunks 2 (take 64 backend_bytes))
unfolding chunks
words_back = (refl, (refl, tt))

hyli_to_bytes-hyli_proof_example :
    (p : HyliProof) × (hyli_proof from_last 2 backend_bytes ≡ some p)
    × (length p.public_inputs ≡ 2)
    × (hyli_to_bytes word p ≡ backend_bytes)
hyli_to_bytes-hyli_proof_example =
    hyli_to_bytes-hyli_proof word from_last 2 backend_bytes (omega arith) words_back
