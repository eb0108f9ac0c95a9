-- ===== src/Contract/Checks.antt =====
-- What a transaction that passes `check_noir_blobs` has (state.rs of the contract).
use cachecash.Prelude.{
  ◌≡◌, refl, sym, ap, ◌∙◌, ◌⊎◌, Bool, true, false, List, [], ◌∷◌, ◌++◌, Bytes, bytes_eq,
  bytes_eq→eq, length, filter, Option, none, some, Option-cases, inl, inr, Bool-cases, ok,
  >>=-eq-ok, arith, is_empty, not, guard, ok_or, ltb,
}
use cachecash.Contract.Smt.{SparseMerkleTree}
use cachecash.Contract.Blob.{
  utxo_blob_missing, smt_blob_missing, smt_blob_not_structured, root_mismatch, nullifier_0_mismatch,
  nullifier_1_mismatch, multiple_withdraws, unexpected_callees, SeparatedHyliUtxoBlob, SmtInclBlob,
  parse_hyli_utxo_blob, parse_hyli_smt_incl_blob,
}
use cachecash.Contract.State.{HyliUtxoZkVmState}
use cachecash.Contract.ZkVm.{
  Blob, Calldata, ExecutionContext, Sdk, find_blob, remove_first, contains_root, without_first,
  check_withdraw_callees, check_noir_blobs,
}

guard-eq-ok {ℓ} : {E : Type ℓ} (b : Bool) (e : E) → guard b e ≡ ok tt → b ≡ true
guard-eq-ok true e h = refl
guard-eq-ok false e h = cc

ok_or-eq-ok {ℓ κ} :
    {E : Type ℓ} {A : Type κ} (o : Option A) (e : E) {a : A} → ok_or o e ≡ ok a → o ≡ some a
ok_or-eq-ok (some a) e h = cc
ok_or-eq-ok none e h = cc

-- A blob that `remove_first` finds has the name, and what stays is the list without it.
pub record Removed (name : Bytes) (blobs : List Blob) (found : Blob) (rest : List Blob)
    : Type 0 where
  pub before : List Blob
  pub after : List Blob
  pub named : found.contract_name ≡ name
  pub blobs_eq : blobs ≡ before ++ found ∷ after
  pub rest_eq : rest ≡ before ++ after

remove_first-Removed :
    (name : Bytes) (blobs : List Blob) (found : Blob) (rest : List Blob)
    → remove_first name blobs ≡ some (found, rest)
    → Removed name blobs found rest
unfolding remove_first
remove_first-Removed name [] found rest h = cc
remove_first-Removed name (b ∷ bs) found rest h =
    elim (Bool-cases (bytes_eq b.contract_name name)) [
      | inl q ↦
          let at_head : (b ≡ found) × (bs ≡ rest) = ground (arith, h, q) in
          record {
            before = [];
            after = bs;
            named =
                ap (λ (c : Blob). c.contract_name) (sym (at_head.0))
                ∙ bytes_eq→eq b.contract_name name q;
            blobs_eq = cc (at_head.0);
            rest_eq = sym (at_head.1);
          }
      | inr q ↦ elim (Option-cases (remove_first name bs)) [
        | inl n ↦ ground (arith, h, q, n)
        | inr ((other, rest'), s) ↦
            let parts : (other ≡ found) × (b ∷ rest' ≡ rest) = ground (arith, h, q, s) in
            let r =
              remove_first-Removed name bs found rest'
                (s ∙ ap (λ (o : Blob). some (o, rest')) (parts.0)) in
            record {
              before = b ∷ r.before;
              after = r.after;
              named = r.named;
              blobs_eq = ap (◌∷◌ b) r.blobs_eq;
              rest_eq = sym (parts.1) ∙ ap (◌∷◌ b) r.rest_eq;
            }
      ]
    ]

-- The callees that pass the last step: none, or one that the state's tree contract is called by.
abbrev pub AtMostOne : Bytes → List Blob → Type 0
AtMostOne name callees =
    (callees ≡ []) ⊎ ((b : Blob) × (callees ≡ b ∷ []) × (b.contract_name ≡ name))

is_empty-nil : (l : List Blob) → is_empty l ≡ true → l ≡ []
is_empty-nil [] h = refl
is_empty-nil (x ∷ l) h = cc

without_first-nil :
    (name : Bytes) (callees : List Blob)
    → is_empty (without_first name callees) ≡ true
    → AtMostOne name callees
unfolding without_first
without_first-nil name callees h = elim (Option-cases (remove_first name callees)) [
  | inl n ↦ inl (is_empty-nil callees (ground (arith, h, n)))
  | inr ((b, rest), q) ↦
      let r = remove_first-Removed name callees b rest q in
      let gone = is_empty-nil rest (ground (arith, h, q)) in
      inr (b, single r (sym r.rest_eq ∙ gone), r.named)
]
  where
    parts_nil : (xs ys : List Blob) → xs ++ ys ≡ [] → (xs ≡ []) × (ys ≡ [])
    parts_nil [] ys h = (refl, h)
    parts_nil (x ∷ xs) ys h = cc

    single :
        {b : Blob} {rest : List Blob}
        → (r : Removed name callees b rest) → r.before ++ r.after ≡ []
        → callees ≡ b ∷ []
    single {b = b} r e = let p = parts_nil r.before r.after e in r.blobs_eq ∙ rw (p.0, p.1) refl

callees-AtMostOne :
    (name : Bytes) (callees left : List Blob)
    → check_withdraw_callees name callees ≡ ok left
    → AtMostOne name callees × (left ≡ [])
unfolding check_withdraw_callees
callees-AtMostOne name callees left h =
    let (_, _, h1) =
      >>=-eq-ok
        (guard (not (ltb 1 (length (filter (λ (b : Blob). bytes_eq b.contract_name name) callees))))
          multiple_withdraws)
        _ h in
    let (_, empty, h2) =
      >>=-eq-ok (guard (is_empty (without_first name callees)) unexpected_callees) _ h1 in
    let nothing : is_empty (without_first name callees) ≡ true = guard-eq-ok _ _ empty in
    let same : without_first name callees ≡ left = cc h2 in
    (
      without_first-nil name callees nothing,
      sym same ∙ is_empty-nil (without_first name callees) nothing,
    )

-- What `check_noir_blobs` establishes: the inclusion proof is among the callees, was made for a
-- root that the state knows and for the nullifiers of the transaction, and besides it there is
-- at most a call of the tree contract.
pub record Checked (C : SparseMerkleTree) (S : Sdk) (s : HyliUtxoZkVmState C.MerkleProof)
    (calldata : Calldata) (callees : List Blob) : Type 0 where
  pub utxo_blob : Blob
  pub utxo : SeparatedHyliUtxoBlob
  pub smt_blob : Blob
  pub payload : Bytes
  pub smt : SmtInclBlob
  pub others : List Blob
  pub finds : find_blob s.config.utxo_contract_name calldata.blobs ≡ some utxo_blob
  pub parses : parse_hyli_utxo_blob utxo_blob.payload ≡ ok utxo
  pub proved : Removed s.config.smt_incl_proof_contract_name callees smt_blob others
  pub structured : S.structured_parameters smt_blob.payload ≡ some payload
  pub smt_parses : parse_hyli_smt_incl_blob payload ≡ ok smt
  pub known_root : contains_root smt.notes_root_fingerprint s.roots ≡ true
  pub nullifier_0 : utxo.nullifiers.0 ≡ smt.nullifier0
  pub nullifier_1 : utxo.nullifiers.1 ≡ smt.nullifier1
  pub at_most_one : AtMostOne s.config.smt_contract_name others

module _ (C : SparseMerkleTree) (S : Sdk) where
  -- When `check_noir_blobs` passes, the transaction has all that `Checked` lists, and no callee is
  -- left over for the SDK.
  pub check_noir_blobs-Checked :
      (s : HyliUtxoZkVmState C.MerkleProof) (calldata : Calldata) (ctx ctx' : ExecutionContext)
      → check_noir_blobs C S s calldata ctx ≡ ok ctx'
      → Checked C S s calldata ctx.callees_blobs × (ctx'.callees_blobs ≡ [])
  unfolding check_noir_blobs
  check_noir_blobs-Checked s calldata ctx ctx' h =
      let (b, finds, h1) =
        >>=-eq-ok (ok_or (find_blob s.config.utxo_contract_name calldata.blobs) utxo_blob_missing) _
          h in
      let ((sb, others), taken, h2) =
        >>=-eq-ok
          (ok_or (remove_first s.config.smt_incl_proof_contract_name ctx.callees_blobs)
            smt_blob_missing)
          _ h1 in
      let (payload, structured, h3) =
        >>=-eq-ok (ok_or (S.structured_parameters sb.payload) smt_blob_not_structured) _ h2 in
      let (smt, smt_parses, h4) = >>=-eq-ok (parse_hyli_smt_incl_blob payload) _ h3 in
      let (_, known, h5) =
        >>=-eq-ok (guard (contains_root smt.notes_root_fingerprint s.roots) root_mismatch) _ h4 in
      let (utxo, parses, h6) = >>=-eq-ok (parse_hyli_utxo_blob b.payload) _ h5 in
      let (_, n0, h7) =
        >>=-eq-ok (guard (bytes_eq utxo.nullifiers.0 smt.nullifier0) nullifier_0_mismatch) _ h6 in
      let (_, n1, h8) =
        >>=-eq-ok (guard (bytes_eq utxo.nullifiers.1 smt.nullifier1) nullifier_1_mismatch) _ h7 in
      let (left, q, h9) =
        >>=-eq-ok (check_withdraw_callees s.config.smt_contract_name others) _ h8 in
      let (at_most_one, gone) = callees-AtMostOne s.config.smt_contract_name others left q in
      let ends : left ≡ ctx'.callees_blobs = cc h9 in
      (
        record {
          utxo_blob = b;
          utxo = utxo;
          smt_blob = sb;
          payload = payload;
          smt = smt;
          others = others;
          finds = ok_or-eq-ok _ _ finds;
          parses = parses;
          proved = remove_first-Removed _ _ _ _ (ok_or-eq-ok _ _ taken);
          structured = ok_or-eq-ok _ _ structured;
          smt_parses = smt_parses;
          known_root = guard-eq-ok _ _ known;
          nullifier_0 = bytes_eq→eq _ _ (guard-eq-ok _ _ n0);
          nullifier_1 = bytes_eq→eq _ _ (guard-eq-ok _ _ n1);
          at_most_one = at_most_one;
        },
        sym ends ∙ gone,
      )
