-- ===== src/Primitives/Batch/Invariant.antt =====
-- The one task of the batches of pkg/primitives/src/batch.rs, and what waits for it.
use cachecash.Prelude.{ℕ, ◌≡◌, refl, Bool, Option, List, [], ◌∷◌, ◌++◌, Result, arith}
use cachecash.Primitives.Batch
use cachecash.Primitives.Batch.Runs.{
  Stage, starting, sleeping, running, finishing, World, after_call, after_start, after_take,
  after_process, after_finish, Advance, starts, wakes, processes, finishes, Reach, new, calls,
  advances, Scheduled, idle, spawned, asleep, at_work, at_end, IsScheduled, queue_of, world,
}

module _ {I : Type 0} where
  absent : (y : Stage I) (before after : List (Stage I)) → [] ≡ before ++ y ∷ after → ⊥
  absent y [] after e = cc e
  absent y (b ∷ bs) after e = cc e

  -- The one task is the one that a step moves.
  take_only :
      {x y : Stage I} (before after : List (Stage I))
      → x ∷ [] ≡ before ++ y ∷ after
      → (before ≡ []) × (x ≡ y) × (after ≡ [])
  take_only [] after e = (refl, cc e, cc e)
  take_only {x = x} {y = y} (b ∷ []) after e = absurd (absent y [] after (cc e))
  take_only {x = x} {y = y} (b ∷ c ∷ bs) after e = absurd (absent y (c ∷ bs) after (cc e))

module _ {I R E : Type 0} where
  call_of :
      (items : List (I × ℕ)) (next last : Option ℕ) (busy : Bool) (tasks : List (Stage I))
      (sent : List (ℕ × Option (Result (Batch.BatchError E) R))) (called : List ℕ)
      (config : Batch.BatchConfig) (now : ℕ) (item : I) (sender : ℕ)
      → Scheduled items next busy tasks
      → IsScheduled (
          after_call
            (world items next last busy tasks sent called)
            sender
            (Batch.call config now (queue_of items next last busy) item sender))
  unfolding Batch.call
  call_of _ _ last _ _ sent called config now item sender idle = spawned _ _
  call_of _ _ last _ _ sent called config now item sender (spawned items time) = spawned _ _
  call_of _ _ last _ _ sent called config now item sender (asleep items time until h) =
      asleep _ _ _ h
  call_of _ _ last _ _ sent called config now item sender (at_work items batch) = at_work _ _
  call_of _ _ last _ _ sent called config now item sender (at_end items) = at_end _

  start_of :
      (items : List (I × ℕ)) (next last : Option ℕ) (busy : Bool) (tasks : List (Stage I))
      (sent : List (ℕ × Option (Result (Batch.BatchError E) R))) (called : List ℕ)
      (before after : List (Stage I)) (now : ℕ)
      → Scheduled items next busy tasks
      → tasks ≡ before ++ starting ∷ after
      → IsScheduled (
          after_start
            (world items next last busy tasks sent called)
            before
            after
            now
            (Batch.wait_duration now (queue_of items next last busy)))
  unfolding Batch.wait_duration
  start_of _ _ last _ _ sent called before after now (idle) e = absurd (absent _ before after e)
  start_of _ _ last _ _ sent called before after now (spawned items time) e =
      let (b, x, a) = take_only before after e in rw (b, a) (asleep _ _ _ (ground arith))
  start_of _ _ last _ _ sent called before after now (asleep items time until h) e =
      cc ((take_only before after e).1)
  start_of _ _ last _ _ sent called before after now (at_work items batch) e =
      cc ((take_only before after e).1)
  start_of _ _ last _ _ sent called before after now (at_end items) e =
      cc ((take_only before after e).1)

  take_of :
      (items : List (I × ℕ)) (next last : Option ℕ) (busy : Bool) (tasks : List (Stage I))
      (sent : List (ℕ × Option (Result (Batch.BatchError E) R))) (called : List ℕ)
      (before after : List (Stage I)) (until : ℕ)
      → Scheduled items next busy tasks
      → tasks ≡ before ++ sleeping until ∷ after
      → IsScheduled (
          after_take
            (world items next last busy tasks sent called)
            before
            after
            (Batch.take_items (queue_of items next last busy)))
  unfolding Batch.take_items
  take_of _ _ last _ _ sent called before after until (idle) e = absurd (absent _ before after e)
  take_of _ _ last _ _ sent called before after until (spawned items time) e =
      cc ((take_only before after e).1)
  take_of _ _ last _ _ sent called before after until (asleep items time u h) e =
      let (b, x, a) = take_only before after e in rw (b, a) (at_work _ _)
  take_of _ _ last _ _ sent called before after until (at_work items batch) e =
      cc ((take_only before after e).1)
  take_of _ _ last _ _ sent called before after until (at_end items) e =
      cc ((take_only before after e).1)

  process_of :
      (items : List (I × ℕ)) (next last : Option ℕ) (busy : Bool) (tasks : List (Stage I))
      (sent : List (ℕ × Option (Result (Batch.BatchError E) R))) (called : List ℕ)
      (before after : List (Stage I)) (batch : List (I × ℕ))
      (answers : List (ℕ × Option (Result (Batch.BatchError E) R)))
      → Scheduled items next busy tasks
      → tasks ≡ before ++ running batch ∷ after
      → IsScheduled
          (after_process (world items next last busy tasks sent called) before after answers)
  process_of _ _ last _ _ sent called before after batch answers (idle) e =
      absurd (absent _ before after e)
  process_of _ _ last _ _ sent called before after batch answers (spawned items time) e =
      cc ((take_only before after e).1)
  process_of _ _ last _ _ sent called before after batch answers (asleep items time u h) e =
      cc ((take_only before after e).1)
  process_of _ _ last _ _ sent called before after batch answers (at_work items b2) e =
      let (b, x, a) = take_only before after e in rw (b, a) (at_end _)
  process_of _ _ last _ _ sent called before after batch answers (at_end items) e =
      cc ((take_only before after e).1)

  finish_of :
      (items : List (I × ℕ)) (next last : Option ℕ) (busy : Bool) (tasks : List (Stage I))
      (sent : List (ℕ × Option (Result (Batch.BatchError E) R))) (called : List ℕ)
      (before after : List (Stage I)) (ended now later : ℕ)
      → Scheduled items next busy tasks
      → tasks ≡ before ++ finishing ∷ after
      → IsScheduled (
          after_finish
            (world items next last busy tasks sent called)
            before
            after
            (Batch.finish ended now later (queue_of items next last busy)))
  unfolding Batch.finish
  finish_of _ _ last _ _ sent called before after ended now later (idle) e =
      absurd (absent _ before after e)
  finish_of _ _ last _ _ sent called before after ended now later (spawned items time) e =
      cc ((take_only before after e).1)
  finish_of _ _ last _ _ sent called before after ended now later (asleep items time u h) e =
      cc ((take_only before after e).1)
  finish_of _ _ last _ _ sent called before after ended now later (at_work items b2) e =
      cc ((take_only before after e).1)
  finish_of _ _ last _ _ sent called before after ended now later (at_end []) e =
      let (b, x, a) = take_only before after e in rw (b, a) idle
  finish_of _ _ last _ _ sent called before after ended now later (at_end (i ∷ items)) e =
      let (b, x, a) = take_only before after e in rw (b, a) (spawned _ _)

  Advance-IsScheduled :
      (process_batch : List I → Result E (List R)) (w v : World I R E)
      → IsScheduled w
      → Advance process_batch w v
      → IsScheduled v
  Advance-IsScheduled p w _ s (starts before after now e) =
      start_of _ _ (w.queue.last_execution) _ _ (w.sent) (w.called) before after now s e
  Advance-IsScheduled p w _ s (wakes before after until now e h) =
      take_of _ _ (w.queue.last_execution) _ _ (w.sent) (w.called) before after until s e
  Advance-IsScheduled p w _ s (processes before after items e) =
      process_of _ _ (w.queue.last_execution) _ _ (w.sent) (w.called) before after items
        (Batch.process p items) s e
  Advance-IsScheduled p w _ s (finishes before after ended now later e) =
      finish_of _ _ (w.queue.last_execution) _ _ (w.sent) (w.called) before after ended now later s
        e

  -- In every world that is reached there is at most one task. With no task nothing waits, nothing
  -- is scheduled and no batch is marked as processing. A task that has not taken its items yet has
  -- its time in the queue, which it does not wake before, and a task that has taken them is marked
  -- as processing.
  pub Reach-IsScheduled :
      (process_batch : List I → Result E (List R)) (w : World I R E)
      → Reach process_batch w
      → IsScheduled w
  unfolding Batch.new_queue
  Reach-IsScheduled p _ new = idle
  Reach-IsScheduled p _ (calls {w = w} r config now item sender) =
      call_of _ _ (w.queue.last_execution) _ _ (w.sent) (w.called) config now item sender
        (Reach-IsScheduled p w r)
  Reach-IsScheduled p _ (advances {w = w} {v = v} r step) =
      Advance-IsScheduled p w v (Reach-IsScheduled p w r) step
