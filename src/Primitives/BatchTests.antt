-- ===== src/Primitives/BatchTests.antt =====
-- The theorems on batches at a run in which two calls wait when the task has its time.
use cachecash.Prelude.{ℕ, ◌*◌, ◌≡◌, refl, false, none, some, List, [], ◌∷◌, Result, ok, err}
use cachecash.Primitives.Batch
use cachecash.Primitives.Batch.Runs.{World, Reach, new, calls, IsScheduled, starting}
use cachecash.Primitives.Batch.Invariant.{Reach-IsScheduled}
use cachecash.Primitives.Batch.Delivery.{senders, answers, process-answers}
use cachecash.Primitives.Batch.Draining.{Advances, Reach-rests}
use cachecash.Primitives.Sharing.{weight}

-- A processor that has no result for more than two items, and fails at none.
abbrev doubled : List ℕ → Result ℕ (List ℕ)
doubled [] = err 4
doubled (a ∷ []) = ok (2 * a ∷ [])
doubled (a ∷ b ∷ _) = ok (2 * a ∷ 2 * b ∷ [])

abbrev queued : Batch.BatchQueue ℕ
queued = record {
  items = (5, 1) ∷ (6, 2) ∷ [];
  next_execution = some 10_000_100;
  last_execution = none;
  processing = false;
}

abbrev one_queued : Batch.BatchQueue ℕ
one_queued = record queued { items = (5, 1) ∷ [] }

abbrev one_called : World ℕ ℕ ℕ
one_called = record { queue = one_queued; tasks = starting ∷ []; sent = []; called = 1 ∷ [] }

abbrev both_called : World ℕ ℕ ℕ
both_called = record { queue = queued; tasks = starting ∷ []; sent = []; called = 2 ∷ 1 ∷ [] }

call_one : Reach doubled one_called
unfolding Batch.call Batch.new_queue Batch.first_time Batch.default_config Batch.from_millis
call_one = calls new Batch.default_config 100 5 1

call_both : Reach doubled both_called
unfolding Batch.call
call_both = calls call_one Batch.default_config 200 6 2

Reach-IsScheduled_example : IsScheduled both_called
Reach-IsScheduled_example = Reach-IsScheduled doubled both_called call_both

Reach-rests_example :
    (v : World ℕ ℕ ℕ) × Advances doubled both_called v
    × (v.tasks ≡ [])
    × (v.queue.items ≡ [])
    × ((f : ℕ → ℕ) → weight f (senders v.sent) ≡ weight f both_called.called)
Reach-rests_example = Reach-rests doubled both_called call_both

abbrev three : List (ℕ × ℕ)
three = (5, 1) ∷ (6, 2) ∷ (7, 3) ∷ []

process-answers_example :
    (senders (Batch.process doubled three) ≡ 1 ∷ 2 ∷ 3 ∷ [])
    × (answers (Batch.process doubled three) ≡ ok 10 ∷ ok 12 ∷ err Batch.task_dropped ∷ [])
process-answers_example = process-answers doubled three

-- The second batch follows the first one at once, whatever the interval.
follows_at_once :
    Batch.follow_up_time 1_000_000_000 1_000_000_300 (some 1_000_000_000) ≡ 1_000_000_000
unfolding Batch.follow_up_time Batch.max Batch.from_millis Batch.as_millis
follows_at_once = refl
