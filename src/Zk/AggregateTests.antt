-- ===== src/Zk/AggregateTests.antt =====
-- The theorems on aggregated transactions at a burn, a mint and a transfer.
use cachecash.Prelude.{ℕ, ◌-◌, ◌≤◌, ◌≡◌, refl, some, [], ◌∷◌, ◌++◌, Bytes, length, replicate}
use cachecash.Zk.Utxo.{UtxoKind, UtxoPublicInput, kind_of_inputs}
use cachecash.Zk.Aggregate.{UtxoProofBundleWithMerkleProofs, AggUtxo, merged_messages}
use cachecash.Zk.Aggregate.Merging.{shown_by, merged_messages-eq}

abbrev in_last : ℕ → Bytes
in_last n = replicate 31 0 ++ n ∷ []

-- Public inputs whose first message is the kind.
abbrev inputs : ℕ → UtxoPublicInput
inputs kind = record {
  input_commitments = (1, 2);
  output_commitments = (3, 4);
  messages = record { message0 = kind; message1 = 11; message2 = 12; message3 = 13; message4 = 14 };
}

abbrev bundle : ℕ → UtxoProofBundleWithMerkleProofs
bundle kind = record {
  utxo_proof = record { proof = []; public_inputs = inputs kind };
  input_merkle_paths = ([], []);
  output_merkle_paths = ([], []);
}

abbrev three_transactions : AggUtxo
three_transactions = record {
  proof_0 = bundle 3;
  proof_1 = bundle 2;
  proof_2 = bundle 1;
  old_root = 20;
  new_root = 21;
}

merged_messages-eq_example :
    (k0 : UtxoKind) × (k1 : UtxoKind) × (k2 : UtxoKind) × (kind_of_inputs in_last (inputs 3)
      ≡ some k0)
    × (kind_of_inputs in_last (inputs 2) ≡ some k1)
    × (kind_of_inputs in_last (inputs 1) ≡ some k2)
    × (length (shown_by in_last (λ n. refl) three_transactions k0 k1 k2) ≤ 15)
    × (merged_messages in_last three_transactions
        ≡ some (
            shown_by in_last (λ n. refl) three_transactions k0 k1 k2
            ++ replicate
                (15 - length (shown_by in_last (λ n. refl) three_transactions k0 k1 k2))
                0))
merged_messages-eq_example = merged_messages-eq in_last (λ n. refl) three_transactions
