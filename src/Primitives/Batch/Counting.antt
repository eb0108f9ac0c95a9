-- ===== src/Primitives/Batch/Counting.antt =====
-- The count of the calls of pkg/primitives/src/batch.rs: those that wait, those that a task holds
-- and those that were answered.
use cachecash.Prelude.{
  ℕ, ◌+◌, ◌≡◌, inl, inr, refl, sym, ap, ◌∙◌, Bool, true, false, not, ◌&&◌, List, [], ◌∷◌, ◌++◌, map,
  Result, arith, Bool-cases, Option-cases, is_empty, is_some,
}
use cachecash.Primitives.Batch
use cachecash.Primitives.Batch.Runs.{
  Stage, starting, sleeping, running, finishing, World, after_call, after_take, after_process,
  after_finish, Advance, starts, wakes, processes, finishes, Reach, new, calls, advances,
}
use cachecash.Primitives.Batch.Delivery.{Sent, senders, process-answers}
use cachecash.Primitives.Sharing.{weight, weight-append}

module _ {I : Type 0} where
  -- The senders that tasks hold.
  abbrev pub held : List (Stage I) → List ℕ
  held [] = []
  held (running batch ∷ tasks) = map (λ p. p.1) batch ++ held tasks
  held (starting ∷ tasks) = held tasks
  held (sleeping until ∷ tasks) = held tasks
  held (finishing ∷ tasks) = held tasks

  held-append :
      (f : ℕ → ℕ) (xs ys : List (Stage I))
      → weight f (held (xs ++ ys)) ≡ weight f (held xs) + weight f (held ys)
  held-append f [] ys = omega arith
  held-append f (running batch ∷ xs) ys = omega (
    arith,
    weight-append f (map (λ p. p.1) batch) (held (xs ++ ys)),
    weight-append f (map (λ p. p.1) batch) (held xs),
    held-append f xs ys,
  )
  held-append f (starting ∷ xs) ys = held-append f xs ys
  held-append f (sleeping until ∷ xs) ys = held-append f xs ys
  held-append f (finishing ∷ xs) ys = held-append f xs ys

  items-append :
      (f : ℕ → ℕ) (xs ys : List (I × ℕ))
      → weight f (map (λ p. p.1) (xs ++ ys))
        ≡ weight f (map (λ p. p.1) xs) + weight f (map (λ p. p.1) ys)
  items-append f [] ys = omega arith
  items-append f (x ∷ xs) ys = omega (arith, items-append f xs ys)

  call-items :
      (config : Batch.BatchConfig) (now : ℕ) (q : Batch.BatchQueue I) (item : I) (sender : ℕ)
      → (Batch.call config now q item sender).0.items ≡ q.items ++ (item, sender) ∷ []
  unfolding Batch.call
  call-items config now q item sender =
      elim (Bool-cases (not (is_some (q.next_execution)) && not (q.processing))) [
        | inl y ↦ rw y refl
        | inr n ↦ rw n refl
      ]

  finish-items :
      (ended now later : ℕ) (q : Batch.BatchQueue I)
      → (Batch.finish ended now later q).0.items ≡ q.items
  unfolding Batch.finish
  finish-items ended now later q =
      elim (Bool-cases (not (is_empty (q.items)) && not (is_some (q.next_execution)))) [
        | inl y ↦ rw y refl
        | inr n ↦ rw n refl
      ]

module _ {R E : Type 0} where
  senders-append :
      (f : ℕ → ℕ) (xs ys : Sent R E)
      → weight f (senders (xs ++ ys)) ≡ weight f (senders xs) + weight f (senders ys)
  senders-append f [] ys = omega arith
  senders-append f ((s, r) ∷ xs) ys = omega (arith, senders-append f xs ys)

module _ {I R E : Type 0} where
  -- What the callers weigh that wait, that a task holds and that were answered.
  abbrev pub total : (ℕ → ℕ) → World I R E → ℕ
  total f w =
      weight f (map (λ p. p.1) (w.queue.items))
      + weight f (held w.tasks)
      + weight f (senders w.sent)

  call-total :
      (f : ℕ → ℕ) (w : World I R E) (sender : ℕ) (r : Batch.BatchQueue I × Bool) (item : I)
      → r.0.items ≡ w.queue.items ++ (item, sender) ∷ []
      → total f (after_call w sender r) ≡ f sender + total f w
  call-total f w sender (q, true) item e = rw e (
      omega (
        arith,
        items-append f (w.queue.items) ((item, sender) ∷ []),
        held-append f (w.tasks) (starting ∷ []),
      ))
  call-total f w sender (q, false) item e =
      rw e (omega (arith, items-append f (w.queue.items) ((item, sender) ∷ [])))

  take-total :
      (f : ℕ → ℕ) (w : World I R E) (before after : List (Stage I)) (until : ℕ)
      → w.tasks ≡ before ++ sleeping until ∷ after
      → total f (after_take w before after (Batch.take_items (w.queue))) ≡ total f w
  unfolding Batch.take_items
  take-total f w before after until e = rw e (
      omega (
        arith,
        held-append f before (sleeping until ∷ after),
        held-append f before (running (w.queue.items) ∷ after),
        weight-append f (map (λ p. p.1) (w.queue.items)) (held after),
      ))

  process-total :
      (process_batch : List I → Result E (List R)) (f : ℕ → ℕ) (w : World I R E)
      (before after : List (Stage I)) (batch : List (I × ℕ))
      → w.tasks ≡ before ++ running batch ∷ after
      → total f (after_process w before after (Batch.process process_batch batch)) ≡ total f w
  process-total p f w before after batch e = rw e (
      omega (
        arith,
        held-append f before (running batch ∷ after),
        held-append f before (finishing ∷ after),
        weight-append f (map (λ p. p.1) batch) (held after),
        senders-append f (w.sent) (Batch.process p batch),
        ap (weight f) ((process-answers p batch).0),
      ))

  finish-total :
      (f : ℕ → ℕ) (w : World I R E) (before after : List (Stage I)) (r : Batch.BatchQueue I × Bool)
      → r.0.items ≡ w.queue.items
      → w.tasks ≡ before ++ finishing ∷ after
      → total f (after_finish w before after r) ≡ total f w
  finish-total f w before after (q, true) same e =
      rw (same, e)
        (omega (
          arith,
          held-append f before (finishing ∷ after),
          held-append f before (starting ∷ after),
        ))
  finish-total f w before after (q, false) same e =
      rw (same, e)
        (omega (arith, held-append f before (finishing ∷ after), held-append f before after))

  Advance-total :
      (process_batch : List I → Result E (List R)) (f : ℕ → ℕ) (w v : World I R E)
      → Advance process_batch w v
      → total f v ≡ total f w
  Advance-total p f w _ (starts before after now e) =
      let moved : weight f (held w.tasks) ≡ weight f (held before) + weight f (held after) =
        rw e (held-append f before (starting ∷ after)) in
      elim (Option-cases (Batch.wait_duration now (w.queue))) [
        | inl n ↦ rw n (omega (arith, moved, held-append f before after))
        | inr (d, y) ↦
            rw y (omega (arith, moved, held-append f before (sleeping (now + d) ∷ after)))
      ]
  Advance-total p f w _ (wakes before after until now e h) = take-total f w before after until e
  Advance-total p f w _ (processes before after items e) = process-total p f w before after items e
  Advance-total p f w _ (finishes before after ended now later e) =
      finish-total f w before after (Batch.finish ended now later (w.queue))
        (finish-items ended now later (w.queue)) e

  pub Advance-called :
      (process_batch : List I → Result E (List R)) (w v : World I R E)
      → Advance process_batch w v
      → v.called ≡ w.called
  Advance-called p w _ (starts before after now e) =
      elim (Option-cases (Batch.wait_duration now (w.queue))) [
        | inl n ↦ rw n refl
        | inr (d, y) ↦ rw y refl
      ]
  Advance-called p w _ (wakes before after until now e h) = refl
  Advance-called p w _ (processes before after items e) = refl
  Advance-called p w _ (finishes before after ended now later e) = refl

  -- In every world that is reached the calls that wait in the queue, those that the task holds and
  -- those that were answered together weigh what all the calls made so far weigh, under every
  -- measure of their senders: no call is lost, and none is answered twice.
  pub Reach-total :
      (process_batch : List I → Result E (List R)) (w : World I R E) (f : ℕ → ℕ)
      → Reach process_batch w
      → total f w ≡ weight f w.called
  unfolding Batch.new_queue
  Reach-total p _ f new = refl
  Reach-total p _ f (calls {w = w} r config now item sender) =
      call-total f w sender (Batch.call config now (w.queue) item sender) item
        (call-items config now (w.queue) item sender)
      ∙ ap (λ n. f sender + n) (Reach-total p w f r)
  Reach-total p _ f (advances {w = w} {v = v} r step) =
      Advance-total p f w v step
      ∙ (Reach-total p w f r ∙ ap (weight f) (sym (Advance-called p w v step)))
