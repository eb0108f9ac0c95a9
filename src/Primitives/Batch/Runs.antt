-- ===== src/Primitives/Batch/Runs.antt =====
-- Runs of the batches of pkg/primitives/src/batch.rs, where calls come between the pieces of
-- `schedule_next_batch`: the one task, and what waits for it.
use cachecash.Prelude.{
  ℕ, ◌+◌, ◌≤◌, ◌≡◌, Bool, true, false, Option, none, some, List, [], ◌∷◌, ◌++◌, if◌then◌else◌,
  Result,
}
use cachecash.Primitives.Batch

-- Where a spawned task is.
pub data Stage (I : Type 0) : Type 0 where
  starting : Stage I
  sleeping : ℕ → Stage I
  running : List (I × ℕ) → Stage I
  finishing : Stage I

module _ {I : Type 0} where
  -- The queue and the tasks together: with no task nothing waits, and with one task it is either
  -- scheduled or at work.
  pub data Scheduled : List (I × ℕ) → Option ℕ → Bool → List (Stage I) → Type 0 where
    idle : Scheduled [] none false []
    spawned : (items : List (I × ℕ)) (time : ℕ) → Scheduled items (some time) false (starting ∷ [])
    asleep :
        (items : List (I × ℕ)) (time until : ℕ)
        → time ≤ until
        → Scheduled items (some time) false (sleeping until ∷ [])
    at_work : (items batch : List (I × ℕ)) → Scheduled items none true (running batch ∷ [])
    at_end : (items : List (I × ℕ)) → Scheduled items none true (finishing ∷ [])

  abbrev pub queue_of : List (I × ℕ) → Option ℕ → Option ℕ → Bool → Batch.BatchQueue I
  queue_of items next last busy = record {
    items = items;
    next_execution = next;
    last_execution = last;
    processing = busy;
  }

-- The queue, the tasks, what the senders were sent, and the senders of the calls made so far.
pub record World (I R E : Type 0) : Type 0 where
  pub queue : Batch.BatchQueue I
  pub tasks : List (Stage I)
  pub sent : List (ℕ × Option (Result (Batch.BatchError E) R))
  pub called : List ℕ

module _ {I R E : Type 0} where
  abbrev pub world :
      List (I × ℕ)
      → Option ℕ
      → Option ℕ
      → Bool
      → List (Stage I)
      → List (ℕ × Option (Result (Batch.BatchError E) R))
      → List ℕ
      → World I R E
  world items next last busy tasks sent called = record {
    queue = queue_of items next last busy;
    tasks = tasks;
    sent = sent;
    called = called;
  }

  abbrev pub after_call : World I R E → ℕ → Batch.BatchQueue I × Bool → World I R E
  after_call w sender (q, spawns) = record w {
    queue = q;
    tasks = if spawns then w.tasks ++ starting ∷ [] else w.tasks;
    called = sender ∷ w.called;
  }

  abbrev pub after_start :
      World I R E → List (Stage I) → List (Stage I) → ℕ → Option ℕ → World I R E
  after_start w before after now none = record w { tasks = before ++ after }
  after_start w before after now (some duration) = record w {
    tasks = before ++ sleeping (now + duration) ∷ after;
  }

  abbrev pub after_take :
      World I R E
      → List (Stage I)
      → List (Stage I)
      → Batch.BatchQueue I × List (I × ℕ)
      → World I R E
  after_take w before after (q, items) = record w {
    queue = q;
    tasks = before ++ running items ∷ after;
  }

  abbrev pub after_process :
      World I R E
      → List (Stage I)
      → List (Stage I)
      → List (ℕ × Option (Result (Batch.BatchError E) R))
      → World I R E
  after_process w before after answers = record w {
    sent = w.sent ++ answers;
    tasks = before ++ finishing ∷ after;
  }

  abbrev pub after_finish :
      World I R E → List (Stage I) → List (Stage I) → Batch.BatchQueue I × Bool → World I R E
  after_finish w before after (q, again) = record w {
    queue = q;
    tasks = if again then before ++ starting ∷ after else before ++ after;
  }

  -- The steps of the tasks, with a processor.
  pub data Advance (process_batch : List I → Result E (List R))
      : World I R E → World I R E → Type 0 where
    starts :
        {w : World I R E} (before after : List (Stage I)) (now : ℕ)
        → w.tasks ≡ before ++ starting ∷ after
        → Advance process_batch w
            (after_start w before after now (Batch.wait_duration now (w.queue)))
    wakes :
        {w : World I R E} (before after : List (Stage I)) (until now : ℕ)
        → w.tasks ≡ before ++ sleeping until ∷ after
        → until ≤ now
        → Advance process_batch w (after_take w before after (Batch.take_items (w.queue)))
    processes :
        {w : World I R E} (before after : List (Stage I)) (items : List (I × ℕ))
        → w.tasks ≡ before ++ running items ∷ after
        → Advance process_batch w (after_process w before after (Batch.process process_batch items))
    finishes :
        {w : World I R E} (before after : List (Stage I)) (ended now later : ℕ)
        → w.tasks ≡ before ++ finishing ∷ after
        → Advance process_batch w
            (after_finish w before after (Batch.finish ended now later (w.queue)))

  abbrev pub start : World I R E
  start = record { queue = Batch.new_queue; tasks = []; sent = []; called = [] }

  -- The worlds that calls, under any configuration, and steps of the tasks lead to.
  pub data Reach (process_batch : List I → Result E (List R)) : World I R E → Type 0 where
    new : Reach process_batch start
    calls :
        {w : World I R E}
        → Reach process_batch w
        → (config : Batch.BatchConfig) (now : ℕ) (item : I) (sender : ℕ)
        → Reach process_batch (after_call w sender (Batch.call config now (w.queue) item sender))
    advances :
        {w v : World I R E}
        → Reach process_batch w
        → Advance process_batch w v
        → Reach process_batch v

  -- A world whose queue and tasks are so.
  abbrev pub IsScheduled : World I R E → Type 0
  IsScheduled w = Scheduled w.queue.items w.queue.next_execution w.queue.processing w.tasks
