-- ===== src/Circuit/Faucet.antt =====
-- The jobs of the faucet (server/src/app.rs) against the assertions of the prover
-- (pkg/barretenberg/src/circuits/hyli_utxo.rs).
use cachecash.Prelude.{
  AreBytes, ℕ, ◌+◌, ◌^◌, ◌<◌, ◌≡◌, ◌⊎◌, inl, inr, refl, sym, ap, subst, ◌∙◌, Option, none, some,
  List, ◌++◌, Bytes, bytes_eq_refl, length, take, drop, take_of_length-append,
  drop_of_length-append, ok, ok_inj, arith,
}
use cachecash.Element.Signed.{Arith, ArithLaws}
use cachecash.Zk.Note.{Note, InputNote, padding_note}
use cachecash.Zk.Utxo.{
  Utxo, new_mint, new_send, messages, input_value, output_value, input_commitments,
  output_commitments,
}
use cachecash.Zk.HyliUtxo.{expected_blob, nullifier_of, nullifier_commitments}
use cachecash.Server.Blobs
use cachecash.Server.Faucet.{
  FaucetApp, Deposit, mint_bytes, build_transaction, build_transfer_transaction, transfer_blobs,
}
use cachecash.Server.Prover.{HyliUtxo, HyliUtxoProofJob, build_hyli_utxo}
use cachecash.Server.Commands.{utxo_proof_job}
use cachecash.Server.Commands.Jobs.{
  AreDistinct, mint_utxo_job, found_second, utxo_job_of, four_words,
}
use cachecash.Circuit.TxHash.{hex_text}
use cachecash.Circuit.Inputs.{UtxoInput, HyliUtxoInput, utxo_input, build_hyli_input_map}
use cachecash.Circuit.Building.{IsReady, Shows, build_hyli_input_map-cases}

module _ (hash_merge : List ℕ → ℕ) (U : Arith) (L : ArithLaws U) (to_base : ℕ → ℕ) where
  -- The inputs of a mint can be computed.
  mint_input :
      (note : Note)
      → note.value < 2 ^ 256
      → (utxo : UtxoInput) × (utxo_input to_base hash_merge U (new_mint (note, padding_note))
          ≡ some utxo)
  unfolding utxo_input messages input_value output_value new_mint
  mint_input note small =
      let outs = L.add_exact (note.value) 0 (omega (arith, small)) in
      let ins = L.add_exact 0 0 (omega arith) in
      let diff = L.sub_exact (note.value + 0) 0 (omega arith) in
      rw (outs, ins, diff, utxo_input, messages, input_value, output_value) (_, refl)

  -- And those of a transfer.
  send_input :
      (input_notes : InputNote × InputNote) (output_notes : Note × Note)
      → (utxo : UtxoInput) × (utxo_input to_base hash_merge U (new_send input_notes output_notes)
          ≡ some utxo)
  unfolding utxo_input messages new_send
  send_input input_notes output_notes = (_, refl)

module _ (X : Blobs.External) where
  abbrev pub expected : Utxo → Bytes
  expected u = expected_blob X.hash_merge X.to_be_bytes u

  -- The blob of a transfer of the faucet: the commitments of the input notes and the nullifiers.
  abbrev transfer_payload : Utxo → Bytes
  transfer_payload u =
      X.to_be_bytes (input_commitments X.hash_merge u).0
      ++ (X.to_be_bytes (input_commitments X.hash_merge u).1
          ++ (X.to_be_bytes (nullifier_of X.hash_merge (u.input_notes.0))
              ++ X.to_be_bytes (nullifier_of X.hash_merge (u.input_notes.1))))

  -- The commitments of the input notes are, as words, those of the output notes.
  abbrev pub SameCommitments : Utxo → Type 0
  SameCommitments u =
      (X.to_be_bytes (input_commitments X.hash_merge u).0
        ≡ X.to_be_bytes (output_commitments X.hash_merge u).0)
      × (X.to_be_bytes (input_commitments X.hash_merge u).1
          ≡ X.to_be_bytes (output_commitments X.hash_merge u).1)

  -- The inputs that the prover makes of a job.
  abbrev pub inputs_of : Arith → (ℕ → ℕ) → HyliUtxo → Option HyliUtxoInput
  inputs_of U to_base h = build_hyli_input_map to_base X.hash_merge U X.to_be_bytes h

module _ (X : Blobs.External) (size : (n : ℕ) → length (X.to_be_bytes n) ≡ 32) (U : Arith)
    (L : ArithLaws U) (to_base : ℕ → ℕ) (hex_encode : Bytes → Bytes)
    (hex : (bytes : Bytes) → AreBytes bytes → hex_encode bytes ≡ hex_text bytes) where
  mint_bytes-expected : (u : Utxo) → mint_bytes X u ≡ expected X u
  unfolding mint_bytes expected_blob nullifier_commitments
  mint_bytes-expected u = refl

  -- The job of a mint or a deposit becomes the inputs of a proof, which show the blob of the
  -- transaction, its hash, its identity and its notes: the prover stops at no assertion. The
  -- identity has at most 255 bytes, the contract name at most 256, the hash 32, and the value is
  -- below 2^256.
  pub mint_utxo_job-shown :
      (contract_name : Bytes) (app : FaucetApp) (note : Note) (deposit : Deposit) (tx_hash : Bytes)
      → let (app', (tx, u)) = build_transaction X app note deposit in
        let job = mint_utxo_job tx tx_hash u (mint_bytes X u) in
        IsReady contract_name job
        → note.value < 2 ^ 256
        → (h : HyliUtxo) × (build_hyli_utxo hex_encode contract_name job ≡ ok h)
          × (i : HyliUtxoInput) × (inputs_of X U to_base h ≡ some i)
          × Shows contract_name job (mint_bytes X u) (utxo_input to_base X.hash_merge U u) i
  unfolding build_transaction
  mint_utxo_job-shown contract_name app note deposit tx_hash ready small =
      let (app', (tx, u)) = build_transaction X app note deposit in
      let job = mint_utxo_job tx tx_hash u (mint_bytes X u) in
      let (utxo, has) = mint_input (X.hash_merge) U L to_base note small in
      let (h, built, cases) =
        build_hyli_input_map-cases hex_encode hex to_base (X.hash_merge) U (X.to_be_bytes)
          contract_name job utxo ready has in
      elim cases [
        | inl (same, i, made, shows) ↦ (
          h,
          built,
          i,
          made,
          subst (λ b. Shows contract_name job b (utxo_input to_base (X.hash_merge) U u) i)
              (sym (mint_bytes-expected u)) shows,
        )
        | inr (apart, stopped) ↦ absurd (apart (mint_bytes-expected u))
      ]

  first_word :
      (a b rest rest' : Bytes) (m n : ℕ)
      → a ≡ X.to_be_bytes m
      → b ≡ X.to_be_bytes n
      → a ++ rest ≡ b ++ rest'
      → (a ≡ b) × (rest ≡ rest')
  first_word a b rest rest' m n ea eb same =
      let ha : length a ≡ 32 = ap length ea ∙ size m in
      let hb : length b ≡ 32 = ap length eb ∙ size n in
      let ta : take 32 (a ++ rest) ≡ a = rw (sym ha) (take_of_length-append a rest) in
      let tb : take 32 (b ++ rest') ≡ b = rw (sym hb) (take_of_length-append b rest') in
      let da : drop 32 (a ++ rest) ≡ rest = rw (sym ha) (drop_of_length-append a rest) in
      let db : drop 32 (b ++ rest') ≡ rest' = rw (sym hb) (drop_of_length-append b rest') in
      (sym ta ∙ (ap (take 32) same ∙ tb), sym da ∙ (ap (drop 32) same ∙ db))

  transfer-SameCommitments : (u : Utxo) → transfer_payload X u ≡ expected X u → SameCommitments X u
  unfolding expected_blob nullifier_commitments
  transfer-SameCommitments u same =
      let (first, rest) = first_word _ _ _ _ _ _ refl refl same in
      let (second, more) = first_word _ _ _ _ _ _ refl refl rest in (first, second)

  -- The job of a transfer command, for its transaction.
  transfer_job :
      (app : FaucetApp) (input_notes : InputNote × InputNote) (output_notes : Note × Note)
      (tx_hash : Bytes)
      → AreDistinct app.names
      → let (tx, u) = build_transfer_transaction X app input_notes output_notes in
        utxo_proof_job app tx tx_hash u ≡ ok (mint_utxo_job tx tx_hash u (transfer_payload X u))
  unfolding build_transfer_transaction transfer_blobs new_send
  transfer_job app input_notes output_notes tx_hash d =
      let (tx, u) = build_transfer_transaction X app input_notes output_notes in
      utxo_job_of app tx tx_hash u 1 _
        (found_second (app.names.utxo_contract_name) _ _ _ (d.state_utxo) (bytes_eq_refl _))
        (four_words _ _ _ _ (size _) (size _) (size _) (size _))

  -- The job of a transfer command is built with the commitments of the input notes in its blob, and
  -- the prover stops at its assertion, unless these are as words those of the output notes, which
  -- it asserts.
  pub transfer_job-stopped :
      (contract_name : Bytes) (app : FaucetApp) (input_notes : InputNote × InputNote)
      (output_notes : Note × Note) (tx_hash : Bytes) (job : HyliUtxoProofJob)
      → AreDistinct app.names
      → let (tx, u) = build_transfer_transaction X app input_notes output_notes in
        utxo_proof_job app tx tx_hash u ≡ ok job
        → IsReady contract_name job
        → (h : HyliUtxo) × (build_hyli_utxo hex_encode contract_name job ≡ ok h)
          × (SameCommitments X u ⊎ (inputs_of X U to_base h ≡ none))
  unfolding build_transfer_transaction transfer_blobs
  transfer_job-stopped contract_name app input_notes output_notes tx_hash job d made ready =
      let u = new_send input_notes output_notes in
      let (tx, u') = build_transfer_transaction X app input_notes output_notes in
      let is : mint_utxo_job tx tx_hash u (transfer_payload X u) ≡ job =
        ok_inj (sym (transfer_job app input_notes output_notes tx_hash d) ∙ made) in
      let (utxo, has) = send_input (X.hash_merge) U L to_base input_notes output_notes in
      let has' : utxo_input to_base (X.hash_merge) U (job.utxo) ≡ some utxo =
        ap (λ (j : HyliUtxoProofJob). utxo_input to_base (X.hash_merge) U (j.utxo)) (sym is)
        ∙ has in
      let (h, built, cases) =
        build_hyli_input_map-cases hex_encode hex to_base (X.hash_merge) U (X.to_be_bytes)
          contract_name job utxo ready has' in
      elim cases [
        | inl (same, i, done, shows) ↦
            let equal : transfer_payload X u ≡ expected X u =
              ap (λ (j : HyliUtxoProofJob). j.blob) is
              ∙ (same ∙ ap (λ (j : HyliUtxoProofJob). expected X (j.utxo)) (sym is)) in
            (h, built, inl (transfer-SameCommitments u equal))
        | inr (apart, stopped) ↦ (h, built, inr stopped)
      ]
