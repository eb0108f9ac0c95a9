-- ===== src/Primitives/Batch.antt =====
-- pkg/primitives/src/batch.rs. An instant is its count of nanoseconds, and each reading of the
-- clock is an argument. The sender of a call's channel is a number. `schedule_next_batch` is cut at
-- its awaits, which are where other calls can come between; the lock makes each piece one step.
pub mod Runs
pub mod Invariant
pub mod Delivery
pub mod Counting
pub mod Draining
use cachecash.Prelude.{
  ℕ, ◌+◌, ◌-◌, ◌*◌, ◌/◌, Bool, true, false, not, ◌&&◌, Option, none, some, List, [], ◌∷◌, ◌++◌, map,
  leb, ltb, is_some, is_empty, if◌then◌else◌, Result, ok, err,
}

pub data BatchError (E : Type 0) : Type 0 where
  task_dropped : BatchError E
  processor_error : E → BatchError E

pub record BatchConfig : Type 0 where
  pub batch_delay_ms : ℕ
  pub min_interval_ms : ℕ

-- `BatchConfig::default`.
unfoldable pub default_config : BatchConfig
default_config = record { batch_delay_ms = 10; min_interval_ms = 100 }

-- `Batch::set_batch_delay`.
unfoldable pub set_batch_delay : BatchConfig → ℕ → BatchConfig
set_batch_delay config batch_delay_ms = record config { batch_delay_ms = batch_delay_ms }

-- `Batch::set_min_interval`.
unfoldable pub set_min_interval : BatchConfig → ℕ → BatchConfig
set_min_interval config min_interval_ms = record config { min_interval_ms = min_interval_ms }

pub record BatchQueue (I : Type 0) : Type 0 where
  pub items : List (I × ℕ)
  pub next_execution : Option ℕ
  pub last_execution : Option ℕ
  pub processing : Bool

-- `Duration::from_millis`.
unfoldable pub from_millis : ℕ → ℕ
from_millis ms = ms * 1_000_000

-- `Duration::as_millis`.
unfoldable pub as_millis : ℕ → ℕ
as_millis duration = duration / 1_000_000

-- `std::cmp::max`.
unfoldable pub max : ℕ → ℕ → ℕ
max a b = if leb a b then b else a

-- The time that `call` schedules a batch for.
unfoldable pub first_time : BatchConfig → ℕ → Option ℕ → ℕ
first_time config now (some last_exec) =
    max (last_exec + from_millis (config.min_interval_ms))
      (now + from_millis (config.batch_delay_ms))
first_time config now none = now + from_millis (config.batch_delay_ms)

-- The time that the end of a batch schedules the next one for: `now` is the reading for the
-- maximum, `later` the one of `elapsed`.
unfoldable pub follow_up_time : ℕ → ℕ → Option ℕ → ℕ
follow_up_time now later (some last_exec) =
    max (last_exec + from_millis (max 0 (as_millis (later - last_exec)))) now
follow_up_time now later none = now

module _ {I : Type 0} where
  -- The queue of `Batch::new`.
  unfoldable pub new_queue : BatchQueue I
  new_queue = record {
    items = [];
    next_execution = none;
    last_execution = none;
    processing = false;
  }

  -- `call` up to its `await`: whether it spawns a task.
  unfoldable pub call : BatchConfig → ℕ → BatchQueue I → I → ℕ → BatchQueue I × Bool
  call config now q item sender =
      let pushed : BatchQueue I = record q { items = q.items ++ (item, sender) ∷ [] } in
      if not (is_some (q.next_execution)) && not (q.processing)
      then (
        record pushed { next_execution = some (first_time config now (q.last_execution)) },
        true,
      )
      else (pushed, false)

  -- `schedule_next_batch` up to the sleep: how long it sleeps, or none when it returns at once.
  unfoldable pub wait_duration : ℕ → BatchQueue I → Option ℕ
  wait_duration now q = elim q.next_execution [
    | some next_time ↦ some (if ltb now next_time then next_time - now else 0)
    | none ↦ none
  ]

  -- The items are taken out and the batch is marked as processing.
  unfoldable pub take_items : BatchQueue I → BatchQueue I × List (I × ℕ)
  take_items q = (record q { items = []; next_execution = none; processing = true }, q.items)

  -- The end of a batch: whether `schedule_next_batch` goes on with another.
  unfoldable pub finish : ℕ → ℕ → ℕ → BatchQueue I → BatchQueue I × Bool
  finish ended now later q =
      let idle : BatchQueue I = record q { last_execution = some ended; processing = false } in
      if not (is_empty (q.items)) && not (is_some (q.next_execution))
      then (record idle { next_execution = some (follow_up_time now later (some ended)) }, true)
      else (idle, false)

module _ {R E : Type 0} where
  -- The results that go to the senders. The senders that the zip leaves over are dropped.
  unfoldable pub send_results : List ℕ → List R → List (ℕ × Option (Result (BatchError E) R))
  send_results [] results = []
  send_results (sender ∷ senders) [] = (sender, none) ∷ send_results senders []
  send_results (sender ∷ senders) (result ∷ results) =
      (sender, some (ok result)) ∷ send_results senders results

  -- What each sender is sent when the processor has returned.
  unfoldable pub deliver : Result E (List R) → List ℕ → List (ℕ × Option (Result (BatchError E) R))
  deliver (ok results) senders = send_results senders results
  deliver (err e) senders = map (λ sender. (sender, some (err (processor_error e)))) senders

  -- The end of `call`: what the receiver gives, where none is a dropped sender.
  unfoldable pub received : Option (Result (BatchError E) R) → Result (BatchError E) R
  received (some result) = result
  received none = err task_dropped

  -- One batch: an empty one does not reach the processor.
  unfoldable pub process :
      {I : Type 0}
      → (List I → Result E (List R))
      → List (I × ℕ)
      → List (ℕ × Option (Result (BatchError E) R))
  process process_batch items =
      if is_empty items
      then []
      else deliver (process_batch (map (λ p. p.0) items)) (map (λ p. p.1) items)
