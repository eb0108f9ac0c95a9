-- ===== src/Server/Prover/Witnesses.antt =====
-- The inputs that server/src/noir_prover.rs and server/src/smt_incl_prover.rs build for a proof, on
-- every branch.
use cachecash.Prelude.{
  subst, ℕ, ◌-◌, ◌%◌, ◌≤◌, ◌<◌, ◌≡◌, ◌⊎◌, inl, inr, refl, true, false, ◌++◌, Bytes, length, take,
  replicate, ltb, Result, ok, err, arith, Bool-cases, length-append, length-replicate,
  take_of_length-append, ltb→lt,
}
use cachecash.Server.Prover.{
  ProverError, identity_too_long, text_too_long, Call, build_call, pad_right_with_null,
}

-- The texts of a call fill their fields, the identity is found again by its length, and the blob
-- stands in the call with its place among the blobs.
pub record Carries (identity contract_name blob : Bytes) (tx_blob_count blob_index : ℕ)
    (call : Call) : Type 0 where
  pub identity_size : length call.identity ≡ 256
  pub identity_back : take call.identity_len call.identity ≡ identity
  pub name_size : length call.blob_contract_name ≡ 256
  pub name_back : take (length contract_name) call.blob_contract_name ≡ contract_name
  pub payload : call.blob ≡ blob
  pub count : call.tx_blob_count ≡ tx_blob_count
  pub place : call.blob_index ≡ blob_index

le_of_ltb : (a b : ℕ) → ltb a b ≡ false → b ≤ a
le_of_ltb a b h = ground arith

unfoldable pub padded : Bytes → ℕ → Bytes
padded text n = text ++ replicate (n - length text) 0

pad-fits :
    (text : Bytes) (n : ℕ)
    → ltb n (length text) ≡ false
    → pad_right_with_null text n ≡ ok (padded text n)
unfolding pad_right_with_null padded
pad-fits text n fits = rw fits refl

pad-refuses :
    (text : Bytes) (n : ℕ)
    → ltb n (length text) ≡ true
    → pad_right_with_null text n ≡ err (text_too_long text)
unfolding pad_right_with_null
pad-refuses text n long = rw long refl

pub length-padded : (text : Bytes) (n : ℕ) → length text ≤ n → length (padded text n) ≡ n
unfolding padded
length-padded text n fits = omega (
  arith,
  length-append text (replicate (n - length text) 0),
  length-replicate {A = ℕ} (n - length text) 0,
)

take-padded : (text : Bytes) (n : ℕ) → take (length text) (padded text n) ≡ text
unfolding padded
take-padded text n = take_of_length-append text (replicate (n - length text) 0)

module _ (hex_encode : Bytes → Bytes) (blob_length : ℕ)
    (contract_name tx_hash identity blob : Bytes) (tx_blob_count blob_index : ℕ) where
  abbrev pub built_call : Result ProverError Call
  built_call =
      build_call hex_encode blob_length contract_name tx_hash identity blob tx_blob_count blob_index

  abbrev pub expected_call : Call
  expected_call = record {
    version = 2;
    initial_state = replicate 4 0;
    next_state = replicate 4 0;
    identity_len = length identity % 256;
    identity = padded identity 256;
    tx_hash = hex_encode tx_hash;
    index = blob_index;
    blob_number = 1;
    blob_index = blob_index;
    blob_contract_name_len = length contract_name % 256;
    blob_contract_name = padded contract_name 256;
    blob_capacity = blob_length;
    blob_len = blob_length;
    blob = blob;
    tx_blob_count = tx_blob_count;
    success = true;
  }

  pub expected_call-Carries :
      length identity ≤ 255
      → length contract_name ≤ 256
      → Carries identity contract_name blob tx_blob_count blob_index expected_call
  expected_call-Carries short name_short =
      let same_len : length identity % 256 ≡ length identity = omega arith in
      record {
        identity_size = length-padded identity 256 (omega arith);
        identity_back = rw same_len (take-padded identity 256);
        name_size = length-padded contract_name 256 name_short;
        name_back = take-padded contract_name 256;
        payload = refl;
        count = refl;
        place = refl;
      }

  -- The call for texts that fit.
  pub build_call-fits :
      length identity ≤ 255 → length contract_name ≤ 256 → built_call ≡ ok expected_call
  unfolding build_call
  build_call-fits short name_short =
      let fits : ltb 255 (length identity) ≡ false = ground arith in
      let identity_fits : ltb 256 (length identity) ≡ false = ground arith in
      let name_fits : ltb 256 (length contract_name) ≡ false = ground arith in
      rw (fits, pad-fits identity 256 identity_fits, pad-fits contract_name 256 name_fits) refl

  -- The three ways of a call.
  abbrev pub CallCases : Type 0
  CallCases =
      ((length identity ≤ 255)
        × (length contract_name ≤ 256)
        × (call : Call) × (built_call ≡ ok call)
        × Carries identity contract_name blob tx_blob_count blob_index call)
      ⊎ (((255 < length identity) × (built_call ≡ err (identity_too_long identity)))
          ⊎ ((length identity ≤ 255)
              × (256 < length contract_name)
              × (built_call ≡ err (text_too_long contract_name))))

  -- The inputs of a proof are built exactly for an identity of at most 255 bytes and a contract
  -- name of at most 256: both then fill 256 bytes, the identity is read back by the length that
  -- stands beside it, the name stands first in its field, and the blob, its index and the number of
  -- blobs are those of the job. A longer identity is refused as such,
  -- and otherwise a longer name is.
  pub build_call-cases : CallCases
  unfolding build_call
  build_call-cases = elim (Bool-cases (ltb 255 (length identity))) [
    | inl long ↦ inr (inl (ltb→lt _ _ long, rw long refl))
    | inr fits ↦
        let short : length identity ≤ 255 = le_of_ltb _ _ fits in
        let identity_fits : ltb 256 (length identity) ≡ false = ground arith in
        elim (Bool-cases (ltb 256 (length contract_name))) [
          | inl long ↦ inr (
              inr (
                short,
                ltb→lt _ _ long,
                rw (fits, pad-fits identity 256 identity_fits, pad-refuses contract_name 256 long)
                    refl,
              ))
          | inr name_fits ↦
              let name_short : length contract_name ≤ 256 = le_of_ltb _ _ name_fits in
              inl (
                short,
                name_short,
                expected_call,
                build_call-fits short name_short,
                expected_call-Carries short name_short,
              )
        ]
  ]

  -- A call that is built carries what it is built from.
  pub Carries-built :
      (call : Call)
      → built_call ≡ ok call
      → Carries identity contract_name blob tx_blob_count blob_index call
  Carries-built call e = elim build_call-cases [
    | inl (short, name_short, other, same, carries) ↦
        let one : other ≡ call = cc (e, same) in
        subst (λ c. Carries identity contract_name blob tx_blob_count blob_index c) one carries
    | inr (inl (long, refused)) ↦ absurd (cc (e, refused))
    | inr (inr (short, long, refused)) ↦ absurd (cc (e, refused))
  ]
