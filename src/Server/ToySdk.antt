-- ===== src/Server/ToySdk.antt =====
-- A small instance of the SDK for the transactions of the server: structured data is a number for
-- the caller, one for the callees with their indexes, and the parameters.
use cachecash.Prelude.{
  ℕ, zero, suc, ◌≡◌, refl, false, Option, none, some, [], ◌∷◌, ◌++◌, map, Bytes, bytes_eq,
  eq→bytes_eq, length, take, drop, take_of_length-append, drop_of_length-append, Result, ok, err,
  if◌then◌else◌,
}
use cachecash.Contract.Blob.{Error, smt_blob_missing}
use cachecash.Contract.Toy.{word}
use cachecash.Contract.ZkVm.{Calldata, ExecutionContext, Sdk}
use cachecash.Server.Blobs
use cachecash.Server.Blobs.Callees.{IsDeployed, ParsesCalldata, called, blob_at, named}

abbrev encode_caller : Option ℕ → ℕ
encode_caller none = 0
encode_caller (some n) = suc n

abbrev decode_caller : ℕ → Option ℕ
decode_caller zero = none
decode_caller (suc n) = some n

abbrev pub encode : Blobs.StructuredBlobData → Bytes
encode d = encode_caller d.caller ∷ elim d.callees [
  | none ↦ 0 ∷ d.parameters
  | some callees ↦ suc (length callees) ∷ (callees ++ d.parameters)
]

abbrev pub read : Bytes → Option Blobs.StructuredBlobData
read [] = none
read (c ∷ []) = none
read (c ∷ zero ∷ rest) =
    some (record { caller = decode_caller c; callees = none; parameters = rest })
read (c ∷ suc n ∷ rest) =
    some
      (record { caller = decode_caller c; callees = some (take n rest); parameters = drop n rest })

decode-encode_caller : (caller : Option ℕ) → decode_caller (encode_caller caller) ≡ caller
decode-encode_caller none = refl
decode-encode_caller (some n) = refl

read-encode_parts :
    (caller : Option ℕ) (callees : Option Bytes) (parameters : Bytes)
    → let d : Blobs.StructuredBlobData = record {
      caller = caller;
      callees = callees;
      parameters = parameters;
    } in
      read (encode d) ≡ some d
read-encode_parts caller none parameters = rw (decode-encode_caller caller) refl
read-encode_parts caller (some callees) parameters =
    rw
      (
        decode-encode_caller caller,
        take_of_length-append callees parameters,
        drop_of_length-append callees parameters,
      )
      refl

read-encode : (d : Blobs.StructuredBlobData) → read (encode d) ≡ some d
read-encode d = read-encode_parts d.caller d.callees d.parameters

-- The callees that a blob names are compared with the blobs that it calls.
abbrev parse : Calldata → Result Error ExecutionContext
parse calldata = elim (blob_at calldata.index calldata.blobs) [
  | none ↦ err smt_blob_missing
  | some b ↦ elim (read b.payload) [
    | none ↦ err smt_blob_missing
    | some d ↦
        let calls = called read calldata.index calldata.blobs in
        if bytes_eq (named d.callees) (map (λ p. p.0) calls)
        then ok (record { callees_blobs = map (λ p. p.1) calls })
        else err smt_blob_missing
  ]
]

abbrev pub parsing_sdk : Sdk
parsing_sdk = record {
  parse_calldata = parse;
  structured_parameters =
      λ payload. elim (read payload) [ none ↦ none | some d ↦ some d.parameters ];
}

parse-ParsesCalldata : ParsesCalldata read parsing_sdk
parse-ParsesCalldata = record {
  parses = λ calldata b d at_index is_read alone action same.
      rw (at_index, is_read, eq→bytes_eq _ _ same, parse) refl;
}

abbrev pub sdk_codec : Blobs.External
sdk_codec = record {
  encode_array = encode;
  encode_vec = encode;
  token_transfer = λ contract sender recipient amount caller. record {
    contract_name = contract;
    payload = encode (record { caller = caller; callees = none; parameters = amount ∷ [] });
  };
  from_str_radix_16 = λ s. some (length s);
  hex_decode = λ s. some s;
  hash_merge = λ elements. length elements;
  to_be_bytes = word;
}

abbrev pub names : Blobs.RouterCtx
names = record {
  utxo_contract_name = 1 ∷ [];
  utxo_state_contract_name = 4 ∷ [];
  smt_incl_proof_contract_name = 2 ∷ [];
}

differs : bytes_eq (4 ∷ []) (1 ∷ []) ≡ false
unfolding bytes_eq
differs = refl

pub deployed : IsDeployed read sdk_codec parsing_sdk names (1 ∷ []) (2 ∷ [])
deployed = record {
  utxo_named = refl;
  incl_named = refl;
  distinct = differs;
  calldata = parse-ParsesCalldata;
  decodes = λ d. rw (read-encode d) refl;
  read_array = read-encode;
  read_vec = read-encode;
  token_named = λ contract sender recipient amount caller. refl;
  token_called = λ contract sender recipient amount caller.
      (_, read-encode (record { caller = caller; callees = none; parameters = amount ∷ [] }), refl);
}
