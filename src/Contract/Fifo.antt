-- ===== src/Contract/Fifo.antt =====
-- `HyliUtxoZkVmBatch` of contracts/hyli-utxo-state/src/state.rs as a queue: what is merged first is
-- proved first.
use cachecash.Prelude.{
  ℕ, zero, suc, ◌≡◌, refl, sym, ap, ◌∙◌, some, List, [], ◌∷◌, ◌++◌, reverse, append_assoc,
  append-nil, Result-cases, inl, inr, reverse-append, reverse-reverse, Bytes, length, Result, ok,
  ◌>>=◌,
}
use cachecash.Contract.Smt.{SparseMerkleTree}
use cachecash.Contract.Blob.{Error}
use cachecash.Contract.State.{HyliUtxoZkVmState}
use cachecash.Contract.ZkVm.{commit}
use cachecash.Contract.Batch.{
  pop, HyliUtxoZkVmBatch, from_state, extend_with, advance_step, on_success,
}

pop-append {ℓ} : {A : Type ℓ} (xs : List A) (x : A) → pop (xs ++ x ∷ []) ≡ some (x, xs)
unfolding pop
pop-append [] x = refl
pop-append (y ∷ xs) x = rw (pop-append xs x)

-- A stack whose reverse starts with `y` gives `y`, and the rest of that reverse is what stays.
pop-reverse {ℓ} :
    {A : Type ℓ} (xs ys : List A) (y : A) → reverse xs ≡ y ∷ ys → pop xs ≡ some (y, reverse ys)
pop-reverse xs ys y h =
    let e : xs ≡ reverse ys ++ y ∷ [] =
      sym (reverse-reverse xs) ∙ (ap reverse h ∙ reverse-append (y ∷ []) ys) in
    rw e (pop-append (reverse ys) y)

-- The results of a list of calls, up to the first error.
unfoldable pub traverse {ℓ κ η} :
    {E : Type ℓ} {A : Type κ} {B : Type η} → (A → Result E B) → List A → Result E (List B)
traverse f [] = ok []
traverse f (x ∷ xs) = do y ← f x; ys ← traverse f xs; ok (y ∷ ys)

module _ (C : SparseMerkleTree) where
  open C use {MerkleProof}

  -- The steps of a batch in the order in which they are taken.
  abbrev pub queue : HyliUtxoZkVmBatch C → List (HyliUtxoZkVmState MerkleProof)
  queue b = b.current ∷ reverse b.remaining

  -- A merge appends.
  queue-extend_with :
      (b next : HyliUtxoZkVmBatch C) → queue (extend_with C b next) ≡ queue b ++ queue next
  unfolding extend_with
  queue-extend_with b next =
      let reversed : reverse ((next.remaining ++ next.current ∷ []) ++ b.remaining)
          ≡ reverse b.remaining ++ queue next =
        reverse-append (next.remaining ++ next.current ∷ []) b.remaining
        ∙ ap (λ l. reverse b.remaining ++ l) (reverse-append next.remaining (next.current ∷ [])) in
      ap (◌∷◌ b.current) reversed

  -- Where a step is left, it is the next one.
  queue-advance_step :
      (b : HyliUtxoZkVmBatch C) (next : HyliUtxoZkVmState MerkleProof)
      (rest : List (HyliUtxoZkVmState MerkleProof))
      → reverse b.remaining ≡ next ∷ rest
      → ((advance_step C b).current ≡ next) × (reverse (advance_step C b).remaining ≡ rest)
  unfolding advance_step
  queue-advance_step b next rest h =
      rw (pop-reverse b.remaining rest next h, advance_step) (refl, reverse-reverse rest)

  -- `on_success` again and again: the commitments that the steps leave.
  unfoldable pub settle : ℕ → HyliUtxoZkVmBatch C → Result Error (List Bytes)
  settle zero b = ok []
  settle (suc n) b = do (c, b') ← on_success C b; cs ← settle n b'; ok (c ∷ cs)

  settle-suc :
      (n : ℕ) (b : HyliUtxoZkVmBatch C)
      → settle (suc n) b
        ≡ (commit C b.current >>= λ c. settle n (advance_step C b) >>= λ cs. ok (c ∷ cs))
  unfolding settle on_success
  settle-suc n b = elim (Result-cases (commit C b.current)) [
    | inl (c, q) ↦ rw q refl
    | inr (e, q) ↦ rw q refl
  ]

  settle_none :
      (b : HyliUtxoZkVmBatch C)
      → (commit C b.current >>= λ c. settle 0 (advance_step C b) >>= λ cs. ok (c ∷ cs))
        ≡ traverse (commit C) (b.current ∷ [])
  unfolding settle traverse
  settle_none b = refl

  -- Settling as many steps as the queue has gives the commitment of each, in its order.
  settle-queue :
      (xs : List (HyliUtxoZkVmState MerkleProof)) (b : HyliUtxoZkVmBatch C)
      → reverse b.remaining ≡ xs
      → settle (suc (length xs)) b ≡ traverse (commit C) (b.current ∷ xs)
  unfolding traverse
  settle-queue [] b h = settle-suc 0 b ∙ settle_none b
  settle-queue (next ∷ xs) b h =
      let q = queue-advance_step b next xs h in
      let later = settle-queue xs (advance_step C b) (q.1) in
      settle-suc (suc (length xs)) b ∙ rw (later, q.0) refl

  -- The batch of several transactions: the first one's witness, and the others merged in order.
  unfoldable pub merge_all :
      HyliUtxoZkVmBatch C → List (HyliUtxoZkVmState MerkleProof) → HyliUtxoZkVmBatch C
  merge_all b [] = b
  merge_all b (w ∷ ws) = merge_all (extend_with C b (from_state C w)) ws

  queue-merge_all :
      (b : HyliUtxoZkVmBatch C) (ws : List (HyliUtxoZkVmState MerkleProof))
      → queue (merge_all b ws) ≡ queue b ++ ws
  unfolding merge_all from_state
  queue-merge_all b [] = sym (append-nil (queue b))
  queue-merge_all b (w ∷ ws) =
      queue-merge_all (extend_with C b (from_state C w)) ws
      ∙ (ap (λ l. l ++ ws) (queue-extend_with b (from_state C w))
          ∙ append_assoc (queue b) (w ∷ []) ws)

  -- When transactions are merged one by one into the batch of the first and settled one by one,
  -- the commitments come out of the witnesses in the order of the transactions, up to the first
  -- that fails.
  pub settle-merge_all :
      (w : HyliUtxoZkVmState MerkleProof) (ws : List (HyliUtxoZkVmState MerkleProof))
      → settle (suc (length ws)) (merge_all (from_state C w) ws) ≡ traverse (commit C) (w ∷ ws)
  unfolding from_state
  settle-merge_all w ws =
      let b = merge_all (from_state C w) ws in
      let q : b.current ∷ reverse b.remaining ≡ w ∷ ws = queue-merge_all (from_state C w) ws in
      let head : b.current ≡ w = cc q in
      let tail : reverse b.remaining ≡ ws = cc q in settle-queue ws b tail ∙ rw head refl
