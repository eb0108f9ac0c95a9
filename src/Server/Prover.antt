-- ===== src/Server/Prover.antt =====
-- server/src/noir_prover.rs and server/src/smt_incl_prover.rs: the inputs of a proof from its job.
-- The text of a transaction hash in hexadecimal is a parameter.
use cachecash.Prelude.{
  ℕ, ◌-◌, ◌%◌, Bool, true, not, List, ◌++◌, Bytes, length, replicate, ltb, Result, ok, err, ◌>>=◌,
  ◌>>◌, guard, if◌then◌else◌,
}
use cachecash.Zk.Note.{InputNote}
use cachecash.Zk.Utxo.{Utxo}
pub mod Witnesses

-- The messages of `bail!`.
pub data ProverError : Type 0 where
  identity_too_long text_too_long : Bytes → ProverError
  index_out_of_bounds : ℕ → ℕ → ProverError
  not_proved not_split not_submitted : ProverError

-- `pad_right_with_null`: the text, and null characters up to the length.
unfoldable pub pad_right_with_null : Bytes → ℕ → Result ProverError Bytes
pad_right_with_null value target_len =
    if ltb target_len (length value)
    then err (text_too_long value)
    else ok (value ++ replicate (target_len - length value) 0)

-- The fields that `HyliUtxo` and `HyliSmtIncl` share. `as u8` is the remainder by 256.
pub record Call : Type 0 where
  pub version : ℕ
  pub initial_state : Bytes
  pub next_state : Bytes
  pub identity_len : ℕ
  pub identity : Bytes
  pub tx_hash : Bytes
  pub index : ℕ
  pub blob_number : ℕ
  pub blob_index : ℕ
  pub blob_contract_name_len : ℕ
  pub blob_contract_name : Bytes
  pub blob_capacity : ℕ
  pub blob_len : ℕ
  pub blob : Bytes
  pub tx_blob_count : ℕ
  pub success : Bool

pub record HyliUtxoProofJob : Type 0 where
  pub tx_hash : Bytes
  pub identity : Bytes
  pub utxo : Utxo
  pub blob : Bytes
  pub tx_blob_count : ℕ
  pub blob_index : ℕ

pub record SmtInclProofJob : Type 0 where
  pub tx_hash : Bytes
  pub identity : Bytes
  pub blob : Bytes
  pub tx_blob_count : ℕ
  pub blob_index : ℕ
  pub input_notes : InputNote × InputNote
  pub siblings_0 : List ℕ
  pub siblings_1 : List ℕ

pub record HyliUtxo : Type 0 where
  pub call : Call
  pub utxo : Utxo

pub record HyliSmtIncl : Type 0 where
  pub call : Call
  pub input_notes : InputNote × InputNote
  pub siblings_0 : List ℕ
  pub siblings_1 : List ℕ

module _ (hex_encode : Bytes → Bytes) where
  -- The part that `build_hyli_utxo` and `build_hyli_smt_incl` share, for a blob of a length.
  unfoldable pub build_call :
      ℕ
      → Bytes
      → (tx_hash identity blob : Bytes) → (tx_blob_count blob_index : ℕ) → Result ProverError Call
  unfolding pad_right_with_null
  build_call blob_length contract_name tx_hash identity blob tx_blob_count blob_index = do
    guard (not (ltb 255 (length identity))) (identity_too_long identity)
    padded_identity ← pad_right_with_null identity 256
    padded_contract_name ← pad_right_with_null contract_name 256
    ok (record {
      version = 2;
      initial_state = replicate 4 0;
      next_state = replicate 4 0;
      identity_len = length identity % 256;
      identity = padded_identity;
      tx_hash = hex_encode tx_hash;
      index = blob_index;
      blob_number = 1;
      blob_index = blob_index;
      blob_contract_name_len = length contract_name % 256;
      blob_contract_name = padded_contract_name;
      blob_capacity = blob_length;
      blob_len = blob_length;
      blob = blob;
      tx_blob_count = tx_blob_count;
      success = true;
    })

  unfoldable pub build_hyli_utxo : Bytes → HyliUtxoProofJob → Result ProverError HyliUtxo
  unfolding build_call
  build_hyli_utxo contract_name job = do
    call ←
        build_call 128 contract_name job.tx_hash job.identity job.blob job.tx_blob_count
          job.blob_index
    ok (record { call = call; utxo = job.utxo })

  unfoldable pub build_hyli_smt_incl : Bytes → SmtInclProofJob → Result ProverError HyliSmtIncl
  unfolding build_call
  build_hyli_smt_incl contract_name job = do
    call ←
        build_call 110 contract_name job.tx_hash job.identity job.blob job.tx_blob_count
          job.blob_index
    ok (record {
      call = call;
      input_notes = job.input_notes;
      siblings_0 = job.siblings_0;
      siblings_1 = job.siblings_1;
    })
