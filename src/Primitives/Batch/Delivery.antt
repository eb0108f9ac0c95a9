-- ===== src/Primitives/Batch/Delivery.antt =====
-- What the callers of pkg/primitives/src/batch.rs are answered.
use cachecash.Prelude.{
  ℕ, zero, suc, length-map, ◌≡◌, refl, ap, ◌∙◌, Option, List, [], ◌∷◌, map, Result, ok, err, length,
}
use cachecash.Primitives.Batch

abbrev pub Sent : Type 0 → Type 0 → Type 0
Sent R E = List (ℕ × Option (Result (Batch.BatchError E) R))

module _ {R E : Type 0} where
  -- What the callers of a batch are answered, in their order.
  abbrev pub answers : Sent R E → List (Result (Batch.BatchError E) R)
  answers [] = []
  answers ((sender, result) ∷ sent) = Batch.received result ∷ answers sent

  abbrev pub senders : Sent R E → List ℕ
  senders [] = []
  senders ((sender, result) ∷ sent) = sender ∷ senders sent

  -- What a number of callers is answered after an outcome of the processor.
  abbrev pub expected : Result E (List R) → ℕ → List (Result (Batch.BatchError E) R)
  expected outcome zero = []
  expected (err e) (suc n) = err (Batch.processor_error e) ∷ expected (err e) n
  expected (ok []) (suc n) = err Batch.task_dropped ∷ expected (ok []) n
  expected (ok (result ∷ results)) (suc n) = ok result ∷ expected (ok results) n

  deliver-senders :
      (outcome : Result E (List R)) (to : List ℕ) → senders (Batch.deliver outcome to) ≡ to
  unfolding Batch.deliver Batch.send_results
  deliver-senders (err e) [] = refl
  deliver-senders (err e) (s ∷ to) = ap (◌∷◌ s) (deliver-senders (err e) to)
  deliver-senders (ok results) [] = refl
  deliver-senders (ok []) (s ∷ to) = ap (◌∷◌ s) (deliver-senders (ok []) to)
  deliver-senders (ok (r ∷ results)) (s ∷ to) = ap (◌∷◌ s) (deliver-senders (ok results) to)

  deliver-answers :
      (outcome : Result E (List R)) (to : List ℕ)
      → answers (Batch.deliver outcome to) ≡ expected outcome (length to)
  unfolding Batch.deliver Batch.send_results Batch.received
  deliver-answers (err e) [] = refl
  deliver-answers (err e) (s ∷ to) =
      ap (◌∷◌ (err (Batch.processor_error e))) (deliver-answers (err e) to)
  deliver-answers (ok results) [] = refl
  deliver-answers (ok []) (s ∷ to) = ap (◌∷◌ (err Batch.task_dropped)) (deliver-answers (ok []) to)
  deliver-answers (ok (r ∷ results)) (s ∷ to) = ap (◌∷◌ (ok r)) (deliver-answers (ok results) to)

  module _ {I : Type 0} where
    -- The callers of a batch are answered in the order of their items, each one once: after an
    -- error of the processor every caller gets the error, and else the results go to the callers in
    -- their order, where the callers that have no result get that their task was dropped.
    pub process-answers :
        (process_batch : List I → Result E (List R)) (items : List (I × ℕ))
        → (senders (Batch.process process_batch items) ≡ map (λ p. p.1) items)
          × (answers (Batch.process process_batch items)
              ≡ expected (process_batch (map (λ p. p.0) items)) (length items))
    unfolding Batch.process
    process-answers process_batch [] = (refl, refl)
    process-answers process_batch (item ∷ items) = (
      deliver-senders (process_batch (map (λ p. p.0) (item ∷ items)))
          (map (λ p. p.1) (item ∷ items)),
      deliver-answers (process_batch (map (λ p. p.0) (item ∷ items)))
            (map (λ p. p.1) (item ∷ items))
          ∙ ap (expected (process_batch (map (λ p. p.0) (item ∷ items))))
              (length-map (λ p. p.1) (item ∷ items)),
    )
