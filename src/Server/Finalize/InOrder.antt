-- ===== src/Server/Finalize/InOrder.antt =====
-- The order of the calls that a handler of server/src/api.rs makes.
use cachecash.Prelude.{
  ◌≡◌, ◌⊎◌, inl, inr, refl, Bool, true, false, List, [], ◌∷◌, Bytes, Result, ok, err, is_some,
}
use cachecash.Server.ApiError.{ApiError}
use cachecash.Server.Blobs
use cachecash.Server.Transfer.{Node, NodeCall, send_tx_blob, send_tx_proof, Handled, lift, ◌>>=!◌}

-- A call by the transaction, or by the contract that a proof is for.
pub data Kind : Type 0 where
  blob_call : Blobs.BlobTransaction → Kind
  proof_call : Bytes → Kind

abbrev pub kind_of : NodeCall → Kind
kind_of (send_tx_blob tx) = blob_call tx
kind_of (send_tx_proof tx) = proof_call tx.contract_name

-- Whether the node takes a call.
abbrev pub is_taken : Node → NodeCall → Bool
is_taken N (send_tx_blob tx) = is_some (N.blob_answer tx)
is_taken N (send_tx_proof tx) = N.proof_answer tx

module _ (N : Node) where
  -- A handler that is to make the calls of a list: each is of its kind, one that the node takes is
  -- followed by the others, and one that it refuses is the last, with an error for the result. With
  -- no refusal the handler either stops with an error before one of the calls, or makes them all and
  -- succeeds with a result of the predicate.
  abbrev pub Calls :
      {A : Type 0} → (A → Type 0) → List Kind → List NodeCall → Result ApiError A → Type 0
  Calls P [] [] (ok a) = P a
  Calls P [] [] (err e) = ⊥
  Calls P (k ∷ ks) [] (ok a) = ⊥
  Calls P (k ∷ ks) [] (err e) = Unit
  Calls P [] (c ∷ cs) r = ⊥
  Calls {A} P (k ∷ ks) (c ∷ cs) r =
      (kind_of c ≡ k)
      × (((is_taken N c ≡ true) × Calls P ks cs r)
          ⊎ ((is_taken N c ≡ false) × (cs ≡ []) × ((e : ApiError) × (r ≡ err e))))

  abbrev pub InOrder : {A : Type 0} → (A → Type 0) → List Kind → Handled A → Type 0
  InOrder P ks (calls, r) = Calls P ks calls r

  module _ {A B : Type 0} (Q : B → Type 0) where
    -- A step that calls nothing, before at least one call.
    pub lift-InOrder :
        (k : Kind) (ks : List Kind) (r : Result ApiError A) (next : A → Handled B)
        → ((a : A) → InOrder Q (k ∷ ks) (next a))
        → InOrder Q (k ∷ ks) (lift r >>=! next)
    lift-InOrder k ks (ok a) next h = h a
    lift-InOrder k ks (err e) next h = tt

    -- A call whose result is a success exactly when the node takes it.
    abbrev pub IsAnswer : NodeCall → Result ApiError A → Type 0
    IsAnswer call (ok a) = is_taken N call ≡ true
    IsAnswer call (err e) = is_taken N call ≡ false

    pub called-InOrder :
        (call : NodeCall) (r : Result ApiError A) (ks : List Kind) (next : A → Handled B)
        → IsAnswer call r
        → ((a : A) → InOrder Q ks (next a))
        → InOrder Q (kind_of call ∷ ks) ((call ∷ [], r) >>=! next)
    called-InOrder call (ok a) ks next answer h = (refl, inl (answer, h a))
    called-InOrder call (err e) ks next answer h = (refl, inr (answer, refl, (e, refl)))
