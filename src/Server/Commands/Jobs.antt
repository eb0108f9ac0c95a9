-- ===== src/Server/Commands/Jobs.antt =====
-- The jobs that the faucet of server/src/app.rs gives to the provers for a mint.
use cachecash.Prelude.{
  ℕ, ◌≡◌, refl, ap, ◌∙◌, Bool, true, false, none, some, List, [], ◌∷◌, ◌++◌, Bytes, bytes_eq,
  bytes_eq_refl, length, length-append, replicate, ok, arith, ==_iff, take_of_length-le, ltb, not,
  take, drop, length-take, length-drop,
}
use cachecash.Contract.ZkVm.{Blob}
use cachecash.Zk.Note.{Note, padding_input}
use cachecash.Zk.Utxo.{Utxo}
use cachecash.Server.Blobs
use cachecash.Server.Prover
use cachecash.Server.Transfer
use cachecash.Server.Faucet.{
  FaucetApp, Deposit, Event, node_call, utxo_job, smt_incl_job, mint_bytes, build_transaction,
}
use cachecash.Server.Commands.{utxo_proof_job, smt_incl_proof_job, enqueue_both, process_mint}

pub four_words :
    (a b c d : Bytes)
    → length a ≡ 32
    → length b ≡ 32
    → length c ≡ 32
    → length d ≡ 32
    → length (a ++ (b ++ (c ++ d))) ≡ 128
four_words a b c d ha hb hc hd = omega (
  arith,
  length-append a (b ++ (c ++ d)),
  length-append b (c ++ d),
  length-append c d,
  ha,
  hb,
  hc,
  hd,
)

module _ (name : Bytes) (a b : Blob) (rest : List Blob) where
  pub found_second :
      bytes_eq a.contract_name name ≡ false
      → bytes_eq b.contract_name name ≡ true
      → Transfer.find_indexed name 0 (a ∷ b ∷ rest) ≡ some (1, b)
  unfolding Transfer.find_indexed
  found_second other same = rw (other, same) refl

  found_third :
      (c : Blob)
      → bytes_eq a.contract_name name ≡ false
      → bytes_eq b.contract_name name ≡ false
      → bytes_eq c.contract_name name ≡ true
      → Transfer.find_indexed name 0 (a ∷ b ∷ c ∷ rest) ≡ some (2, c)
  unfolding Transfer.find_indexed
  found_third c other another same = rw (other, another, same) refl

-- The three names of a server differ, as far as the search of a blob goes.
pub record AreDistinct (names : Blobs.RouterCtx) : Type 0 where
  pub state_utxo : bytes_eq names.utxo_state_contract_name names.utxo_contract_name ≡ false
  pub state_incl :
      bytes_eq names.utxo_state_contract_name names.smt_incl_proof_contract_name ≡ false
  pub utxo_incl : bytes_eq names.utxo_contract_name names.smt_incl_proof_contract_name ≡ false

pub utxo_job_of :
    (app : FaucetApp) (tx : Blobs.BlobTransaction) (tx_hash : Bytes) (utxo : Utxo) (i : ℕ)
    (blob : Blob)
    → Transfer.find_indexed app.names.utxo_contract_name 0 tx.blobs ≡ some (i, blob)
    → length blob.payload ≡ 128
    → utxo_proof_job app tx tx_hash utxo
      ≡ ok (record {
        tx_hash = tx_hash;
        identity = tx.identity;
        utxo = utxo;
        blob = blob.payload;
        tx_blob_count = length tx.blobs;
        blob_index = i;
      })
unfolding utxo_proof_job
utxo_job_of app tx tx_hash utxo i blob e n =
    let long : not (ltb (length blob.payload) 128) ≡ true = ground (arith, n) in
    rw (e, long, take_of_length-le 128 blob.payload (omega (arith, n))) refl

smt_job_of :
    (app : FaucetApp) (tx : Blobs.BlobTransaction) (tx_hash : Bytes) (i : ℕ) (blob : Blob)
    → Transfer.find_indexed app.names.smt_incl_proof_contract_name 0 tx.blobs ≡ some (i, blob)
    → length blob.payload ≡ 110
    → smt_incl_proof_job app tx tx_hash
      ≡ ok (record {
        tx_hash = tx_hash;
        identity = tx.identity;
        blob = blob.payload;
        tx_blob_count = length tx.blobs;
        blob_index = i;
        input_notes = (padding_input, padding_input);
        siblings_0 = replicate 256 0;
        siblings_1 = replicate 256 0;
      })
unfolding smt_incl_proof_job
smt_job_of app tx tx_hash i blob e n =
    let right = (==_iff (length blob.payload) 110).1 n in rw (e, right) refl

-- The two jobs of a mint transaction, for its UTXO blob and for its inclusion blob.
abbrev pub mint_utxo_job : Blobs.BlobTransaction → Bytes → Utxo → Bytes → Prover.HyliUtxoProofJob
mint_utxo_job tx tx_hash utxo payload = record {
  tx_hash = tx_hash;
  identity = tx.identity;
  utxo = utxo;
  blob = payload;
  tx_blob_count = length tx.blobs;
  blob_index = 1;
}

abbrev pub mint_incl_job : Blobs.BlobTransaction → Bytes → Bytes → Prover.SmtInclProofJob
mint_incl_job tx tx_hash payload = record {
  tx_hash = tx_hash;
  identity = tx.identity;
  blob = payload;
  tx_blob_count = length tx.blobs;
  blob_index = 2;
  input_notes = (padding_input, padding_input);
  siblings_0 = replicate 256 0;
  siblings_1 = replicate 256 0;
}

module _ (X : Blobs.External) (size : (n : ℕ) → length (X.to_be_bytes n) ≡ 32) where
  pub length-mint_bytes : (u : Utxo) → length (mint_bytes X u) ≡ 128
  unfolding mint_bytes
  length-mint_bytes u = four_words _ _ _ _ (size _) (size _) (size _) (size _)

  -- The length of the inclusion payload.
  length-payload :
      (u : Utxo) (root : ℕ) → length (take 64 (drop 64 (mint_bytes X u)) ++ X.to_be_bytes root) ≡ 96
  length-payload u root = omega (
    arith,
    length-append (take 64 (drop 64 (mint_bytes X u))) (X.to_be_bytes root),
    length-take 64 (drop 64 (mint_bytes X u)),
    length-drop 64 (mint_bytes X u),
    length-mint_bytes u,
    size root,
  )

  -- The blob of the inclusion proof, with its payload written out.
  abbrev pub incl_payload : FaucetApp → Utxo → Bytes
  incl_payload app u = X.encode_vec (record {
    caller = some 0;
    callees = none;
    parameters = take 64 (drop 64 (mint_bytes X u)) ++ X.to_be_bytes app.notes_root;
  })

  module _
      (encoded : (parameters : Bytes)
        → length parameters ≡ 96
        → length
            (X.encode_vec (record { caller = some 0; callees = none; parameters = parameters }))
          ≡ 110)
      (N : Transfer.Node) (takes : Event → Bool) where
    answered_jobs :
        (app : FaucetApp) (note : Note) (deposit : Deposit) (tx_hash : Bytes)
        → let (app', (tx, utxo)) = build_transaction X app note deposit in
          N.blob_answer tx ≡ some tx_hash
          → process_mint X N takes app note deposit ≡ (
            app',
            (
              node_call (Transfer.send_tx_blob tx) ∷ enqueue_both X N takes app' tx tx_hash utxo,
              ok tt,
            ),
          )
    unfolding process_mint
    answered_jobs app note deposit tx_hash answered = rw (answered, process_mint) refl

    enqueue_events :
        (app : FaucetApp) (tx : Blobs.BlobTransaction) (tx_hash : Bytes) (utxo : Utxo)
        (job : Prover.HyliUtxoProofJob) (incl : Prover.SmtInclProofJob)
        → ((e : Event) → takes e ≡ true)
        → utxo_proof_job app tx tx_hash utxo ≡ ok job
        → smt_incl_proof_job app tx tx_hash ≡ ok incl
        → enqueue_both X N takes app tx tx_hash utxo ≡ utxo_job job ∷ smt_incl_job incl ∷ []
    unfolding enqueue_both
    enqueue_events app tx tx_hash utxo job incl all first second =
        rw (first, second, all (utxo_job job), all (smt_incl_job incl)) refl

    -- For a mint or a deposit that the node takes, the faucet calls the node with the transaction,
    -- then sends the job for the UTXO proof with the blob at index 1 and the job for the inclusion
    -- proof with the blob at index 2, and nothing else; its state has the next note index. The
    -- names of the contracts differ, an element has 32 bytes, the inclusion payload is encoded in
    -- 110 bytes, and the bus takes the jobs.
    pub process_mint-jobs :
        (app : FaucetApp) (note : Note) (deposit : Deposit) (tx_hash : Bytes)
        → AreDistinct app.names
        → ((e : Event) → takes e ≡ true)
        → let (app', (tx, utxo)) = build_transaction X app note deposit in
          N.blob_answer tx ≡ some tx_hash
          → process_mint X N takes app note deposit ≡ (
            app',
            (
              node_call (Transfer.send_tx_blob tx)
                  ∷ utxo_job (mint_utxo_job tx tx_hash utxo (mint_bytes X utxo))
                  ∷ smt_incl_job (mint_incl_job tx tx_hash (incl_payload app utxo))
                  ∷ [],
              ok tt,
            ),
          )
    unfolding build_transaction Blobs.first_blobs
    process_mint-jobs app note deposit tx_hash d all answered =
        let (app', (tx, u)) = build_transaction X app note deposit in
        answered_jobs app note deposit tx_hash answered
        ∙ ap (λ (jobs : List Event). (app', (node_call (Transfer.send_tx_blob tx) ∷ jobs, ok tt)))
            (enqueue_events app' tx tx_hash u _ _ all
              (utxo_job_of app' tx tx_hash u 1 _
                (found_second (app.names.utxo_contract_name) _ _ _ (d.state_utxo) (bytes_eq_refl _))
                (length-mint_bytes u))
              (smt_job_of app' tx tx_hash 2 _
                (found_third (app.names.smt_incl_proof_contract_name) _ _ _ _ (d.state_incl)
                  (d.utxo_incl) (bytes_eq_refl _))
                (encoded _ (length-payload u (app.notes_root)))))
