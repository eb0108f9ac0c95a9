-- ===== src/Server/Blobs/Callees.antt =====
-- The callees of a blob, as the SDK finds them in the transactions of server/src/api.rs and
-- server/src/app.rs, and the deployment of the server beside the contract.
use cachecash.Prelude.{
  ℕ, ◌+◌, ◌≡◌, refl, Bool, true, false, Option, none, some, List, [], ◌∷◌, ◌++◌, map, Bytes,
  bytes_eq, ok, ◌==◌, if◌then◌else◌, All,
}
use cachecash.Contract.ZkVm.{Blob, Calldata, Sdk}
use cachecash.Server.Blobs

-- The blobs of a transaction with their indexes, from one on.
abbrev pub indexed : ℕ → List Blob → List (ℕ × Blob)
indexed n [] = []
indexed n (b ∷ bs) = (n, b) ∷ indexed (n + 1) bs

-- The calldata of the state blob, which stands first.
abbrev pub state_calldata : Blobs.BlobTransaction → Calldata
state_calldata tx = record { identity = tx.identity; blobs = indexed 0 tx.blobs; index = 0 }

abbrev pub blob_at : ℕ → List (ℕ × Blob) → Option Blob
blob_at i [] = none
blob_at i ((n, b) ∷ bs) = let rest = blob_at i bs in if n == i then some b else rest

abbrev is_caller : ℕ → Option ℕ → Bool
is_caller i none = false
is_caller i (some caller) = caller == i

-- The indexes that structured data names as callees.
abbrev pub named : Option (List ℕ) → List ℕ
named none = []
named (some callees) = callees

-- `StructuredBlobData::try_from` of the SDK is a parameter.
module _ (read : Bytes → Option Blobs.StructuredBlobData) where
  -- Whether a payload is structured and has the blob at an index for its caller.
  abbrev pub is_called : ℕ → Bytes → Bool
  is_called i payload = elim (read payload) [ none ↦ false | some d ↦ is_caller i d.caller ]

  -- The blobs that have the one at an index for their caller.
  abbrev pub called : ℕ → List (ℕ × Blob) → List (ℕ × Blob)
  called i [] = []
  called i ((n, b) ∷ bs) =
      let rest = called i bs in if is_called i b.payload then (n, b) ∷ rest else rest

  -- What `parse_calldata` of the SDK does for a blob without a caller that has the action of the
  -- state contract: the blobs that have it for their caller are its callees, if they are the ones
  -- that it names. The tests of contracts/hyli-utxo-state/src/state.rs show the success for a
  -- withdrawal, and the error for a blob that calls one more than it names.
  pub record ParsesCalldata (S : Sdk) : Type 0 where
    pub parses :
        (calldata : Calldata) (b : Blob) (d : Blobs.StructuredBlobData)
        → blob_at calldata.index calldata.blobs ≡ some b
        → read b.payload ≡ some d
        → d.caller ≡ none
        → d.parameters ≡ Blobs.hyli_utxo_state_action
        → named d.callees ≡ map (λ p. p.0) (called calldata.index calldata.blobs)
        → S.parse_calldata calldata
          ≡ ok (record { callees_blobs = map (λ p. p.1) (called calldata.index calldata.blobs) })

  -- The names of the server are those of the contract's configuration, and what the SDK encodes it
  -- reads back as it was written.
  pub record IsDeployed (X : Blobs.External) (S : Sdk) (state : Blobs.RouterCtx) (utxo incl : Bytes)
      : Type 0 where
    pub utxo_named : state.utxo_contract_name ≡ utxo
    pub incl_named : state.smt_incl_proof_contract_name ≡ incl
    pub distinct : bytes_eq state.utxo_state_contract_name utxo ≡ false
    pub calldata : ParsesCalldata S
    pub decodes :
        (d : Blobs.StructuredBlobData)
        → S.structured_parameters (X.encode_vec d) ≡ some d.parameters
    pub read_array : (d : Blobs.StructuredBlobData) → read (X.encode_array d) ≡ some d
    pub read_vec : (d : Blobs.StructuredBlobData) → read (X.encode_vec d) ≡ some d
    pub token_named :
        (contract sender recipient : Bytes) (amount : ℕ) (caller : Option ℕ)
        → (X.token_transfer contract sender recipient amount caller).contract_name ≡ contract
    pub token_called :
        (contract sender recipient : Bytes) (amount : ℕ) (caller : Option ℕ)
        → (d : Blobs.StructuredBlobData) × (read
              (X.token_transfer contract sender recipient amount caller).payload
            ≡ some d)
          × (d.caller ≡ caller)

  -- No blob of a list has the first blob of the transaction for its caller.
  abbrev pub AreUncalled : List Blob → Type 0
  AreUncalled blobs = All (λ (b : Blob). is_called 0 b.payload ≡ false) blobs

  pub AreUncalled-append :
      (xs ys : List Blob) → AreUncalled xs → AreUncalled ys → AreUncalled (xs ++ ys)
  AreUncalled-append [] ys hx hy = hy
  AreUncalled-append (x ∷ xs) ys hx hy = (hx.0, AreUncalled-append xs ys (hx.1) hy)

  pub called-uncalled :
      (n : ℕ) (blobs : List Blob) → AreUncalled blobs → called 0 (indexed n blobs) ≡ []
  called-uncalled n [] h = refl
  called-uncalled n (b ∷ blobs) h = rw (h.0, called) (called-uncalled (n + 1) blobs (h.1))

  module _ (X : Blobs.External) (S : Sdk) (state : Blobs.RouterCtx) (utxo incl : Bytes)
      (d : IsDeployed X S state utxo incl) where
    -- The blob of the inclusion proof names the state blob as its caller.
    pub smt-called :
        (payload : Bytes)
        → is_called 0
            (X.encode_vec (record { caller = some 0; callees = none; parameters = payload }))
          ≡ true
    smt-called payload = rw (d.read_vec _, is_called) refl

    pub token-called :
        (t : Blobs.TokenTransferRequest) (caller : Option ℕ)
        → is_called 0
            (X.token_transfer t.token_contract t.sender t.recipient t.amount caller).payload
          ≡ is_caller 0 caller
    token-called t caller =
        let (e, seen, same) =
          d.token_called (t.token_contract) (t.sender) (t.recipient) (t.amount) caller in
        rw (seen, same, is_called) refl

    -- The context of a transaction whose first blob is encoded for the state contract, when the
    -- callees that the blob names are the blobs that it calls.
    pub parse_state :
        (identity name : Bytes) (callees : Option (List ℕ)) (rest : List Blob)
        → named callees ≡ map (λ p. p.0) (called 0 (indexed 1 rest))
        → S.parse_calldata (
            state_calldata (record {
              identity = identity;
              blobs =
                  record {
                    contract_name = name;
                    payload = X.encode_array (record {
                      caller = none;
                      callees = callees;
                      parameters = Blobs.hyli_utxo_state_action;
                    });
                  }
                  ∷ rest;
            }))
          ≡ ok (record { callees_blobs = map (λ p. p.1) (called 0 (indexed 1 rest)) })
    parse_state identity name callees rest same =
        let data' : Blobs.StructuredBlobData = record {
          caller = none;
          callees = callees;
          parameters = Blobs.hyli_utxo_state_action;
        } in
        let unread : is_called 0 (X.encode_array data') ≡ false =
          rw (d.read_array data', is_called) refl in
        let parsed =
          d.calldata.parses
            (state_calldata (record {
              identity = identity;
              blobs = record { contract_name = name; payload = X.encode_array data' } ∷ rest;
            }))
            _ data' refl (d.read_array data') refl refl (rw (unread, called) same) in
        rw (parsed, unread) refl
