-- ===== src/Circuit/Building.antt =====
-- The inputs of a circuit that server/src/noir_prover.rs leads to for a job, with the assertions of
-- pkg/barretenberg/src/circuits/hyli_utxo.rs.
use cachecash.Prelude.{
  AreBytes, ℕ, ◌-◌, ◌%◌, ◌≤◌, ◌≡◌, ◌≢◌, ◌⊎◌, inl, inr, refl, ap, ◌∙◌, true, false, Option, none,
  some, List, [], ◌∷◌, append-nil, take, Bytes, bytes_eq, bytes_eq_iff, length, replicate, leb, ok,
  Bool-cases, arith,
}
use cachecash.Element.Signed.{Arith}
use cachecash.Zk.HyliUtxo.{expected_blob, pad_string}
use cachecash.Server.Prover.{Call, HyliUtxo, HyliUtxoProofJob, build_hyli_utxo}
use cachecash.Server.Prover.Witnesses.{
  padded, length-padded, expected_call, build_call-fits, expected_call-Carries,
}
use cachecash.Circuit.TxHash.{hex_text, decode_tx_hash_32, decode_tx_hash_32-hex_text}
use cachecash.Circuit.Inputs.{
  HyliOutput, UtxoInput, HyliUtxoInput, hyli_output, has_length, utxo_input, build_hyli_input_map,
}

-- A text that already has the length is not padded.
pad-full : (text : Bytes) (n : ℕ) → length text ≡ n → pad_string text n ≡ some text
unfolding pad_string
pad-full text n full =
    let fits : leb (length text) n ≡ true = ground arith in
    let none_left : n - length text ≡ 0 = omega arith in
    rw (fits, none_left) (ap some (append-nil text))

-- What a job asks to be proved: the texts fit, and the hash has 32 bytes.
pub record IsReady (contract_name : Bytes) (job : HyliUtxoProofJob) : Type 0 where
  pub identity_fits : length job.identity ≤ 255
  pub name_fits : length contract_name ≤ 256
  pub hash_size : length job.tx_hash ≡ 32
  pub hash_bytes : AreBytes job.tx_hash

-- What the inputs show of a job: its blob with its place, its transaction hash, its identity, and
-- the inputs of its transaction.
pub record Shows (contract_name : Bytes) (job : HyliUtxoProofJob) (expected : Bytes)
    (utxo : Option UtxoInput) (input : HyliUtxoInput) : Type 0 where
  pub blob_shown :
      input.hyli_output.blobs
      ≡ record {
        index = job.blob_index;
        contract_name_len = length contract_name % 256;
        contract_name = padded contract_name 256;
        data_len = 128;
        payload = expected;
      }
        ∷ []
  pub hash_shown : input.hyli_output.tx_hash ≡ job.tx_hash
  pub identity_shown : take input.hyli_output.identity_len input.hyli_output.identity ≡ job.identity
  pub count_shown : input.hyli_output.tx_blob_count ≡ job.tx_blob_count
  pub utxo_shown : utxo ≡ some input.utxo

module _ (hex_encode : Bytes → Bytes)
    (hex : (bytes : Bytes) → AreBytes bytes → hex_encode bytes ≡ hex_text bytes) (to_base : ℕ → ℕ)
    (hash_merge : List ℕ → ℕ) (U : Arith) (to_be_bytes : ℕ → Bytes) (contract_name : Bytes) where
  -- The call of a job whose texts fit.
  abbrev call_of : HyliUtxoProofJob → Call
  call_of job =
      expected_call hex_encode 128 contract_name (job.tx_hash) (job.identity) (job.blob)
        (job.tx_blob_count) (job.blob_index)

  abbrev pub input_map : HyliUtxo → Option HyliUtxoInput
  input_map h = build_hyli_input_map to_base hash_merge U to_be_bytes h

  abbrev pub blob_of : HyliUtxoProofJob → Bytes
  blob_of job = expected_blob hash_merge to_be_bytes job.utxo

  abbrev shown_output : HyliUtxoProofJob → HyliOutput
  shown_output job = record {
    version = 2;
    initial_state_len = 4;
    initial_state_max = 4;
    initial_state = replicate 4 0;
    next_state_len = 4;
    next_state_max = 4;
    next_state = replicate 4 0;
    identity_len = length job.identity % 256;
    identity_max = 256;
    identity = padded job.identity 256;
    index = job.blob_index;
    blob_count = 1;
    blob_slots = 1;
    blob_name_max = 256;
    blob_data_max = 128;
    blobs =
        record {
          index = job.blob_index;
          contract_name_len = length contract_name % 256;
          contract_name = padded contract_name 256;
          data_len = 128;
          payload = blob_of job;
        }
        ∷ [];
    tx_blob_count = job.tx_blob_count;
    tx_hash = job.tx_hash;
    success = 1;
    program_outputs_max = 5;
    program_outputs_len = 0;
    program_outputs = replicate 5 0;
  }

  output-full :
      (job : HyliUtxoProofJob)
      → IsReady contract_name job
      → hyli_output (call_of job) (blob_of job) 128 4 4 (job.tx_hash) ≡ some (shown_output job)
  unfolding hyli_output
  output-full job ready =
      rw
        (
          pad-full (padded contract_name 256) 256
              (length-padded contract_name 256 (ready.name_fits)),
          pad-full (padded (job.identity) 256) 256
              (length-padded (job.identity) 256 (omega (arith, ready.identity_fits))),
        )
        refl

  hash_decoded :
      (job : HyliUtxoProofJob)
      → IsReady contract_name job
      → decode_tx_hash_32 (hex_encode job.tx_hash) ≡ some (job.tx_hash)
  hash_decoded job ready =
      ap decode_tx_hash_32 (hex (job.tx_hash) (ready.hash_bytes))
      ∙ decode_tx_hash_32-hex_text (job.tx_hash) (ready.hash_size) (ready.hash_bytes)

  input_map-some :
      (job : HyliUtxoProofJob) (utxo : UtxoInput)
      → IsReady contract_name job
      → utxo_input to_base hash_merge U job.utxo ≡ some utxo
      → bytes_eq job.blob (blob_of job) ≡ true
      → input_map (record { call = call_of job; utxo = job.utxo })
        ≡ some (record { hyli_output = shown_output job; utxo = utxo })
  unfolding build_hyli_input_map has_length
  input_map-some job utxo ready has same =
      rw (hash_decoded job ready, same, output-full job ready, has) refl

  input_map-none :
      (job : HyliUtxoProofJob)
      → IsReady contract_name job
      → bytes_eq job.blob (blob_of job) ≡ false
      → input_map (record { call = call_of job; utxo = job.utxo }) ≡ none
  unfolding build_hyli_input_map has_length
  input_map-none job ready apart = rw (hash_decoded job ready, apart) refl

  -- A job whose texts fit and whose transaction has its messages becomes the inputs of a proof
  -- exactly when its blob is the one that is expected for its transaction: they then show that blob
  -- with its place, the hash, the identity and the transaction of the job. For any other blob the
  -- prover stops at its assertion. The text of a hash is its hexadecimal form.
  pub build_hyli_input_map-cases :
      (job : HyliUtxoProofJob) (utxo : UtxoInput)
      → IsReady contract_name job
      → utxo_input to_base hash_merge U job.utxo ≡ some utxo
      → (h : HyliUtxo) × (build_hyli_utxo hex_encode contract_name job ≡ ok h)
        × (((job.blob ≡ blob_of job)
              × (i : HyliUtxoInput) × (input_map h ≡ some i)
              × Shows contract_name job (blob_of job) (utxo_input to_base hash_merge U job.utxo) i)
            ⊎ ((job.blob ≢ blob_of job) × (input_map h ≡ none)))
  unfolding build_hyli_utxo
  build_hyli_input_map-cases job utxo ready has =
      let fits =
        build_call-fits hex_encode 128 contract_name (job.tx_hash) (job.identity) (job.blob)
          (job.tx_blob_count) (job.blob_index) (ready.identity_fits) (ready.name_fits) in
      let carries =
        expected_call-Carries hex_encode 128 contract_name (job.tx_hash) (job.identity) (job.blob)
          (job.tx_blob_count) (job.blob_index) (ready.identity_fits) (ready.name_fits) in
      (
        record { call = call_of job; utxo = job.utxo },
        rw fits refl,
        elim (Bool-cases (bytes_eq (job.blob) (blob_of job))) [
          | inl same ↦ inl (
            (bytes_eq_iff (job.blob) (blob_of job)).0 same,
            record { hyli_output = shown_output job; utxo = utxo },
            input_map-some job utxo ready has same,
            record {
              blob_shown = refl;
              hash_shown = refl;
              identity_shown = carries.identity_back;
              count_shown = refl;
              utxo_shown = has;
            },
          )
          | inr apart ↦ inr (
            λ e. absurd (cc (apart, (bytes_eq_iff (job.blob) (blob_of job)).1 e)),
            input_map-none job ready apart,
          )
        ],
      )
