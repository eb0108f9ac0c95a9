-- ===== src/Primitives/Batch/Draining.antt =====
-- The batches of pkg/primitives/src/batch.rs come to rest: the task alone, with no further call,
-- takes whatever waits and answers it.
use cachecash.Prelude.{
  ℕ, ◌≡◌, refl, Bool, true, false, Option, none, some, List, [], ◌∷◌, ◌++◌, Result, arith, ap, ◌∙◌,
}
use cachecash.Primitives.Batch
use cachecash.Primitives.Batch.Runs.{
  Stage, starting, sleeping, running, finishing, World, Advance, starts, wakes, processes, finishes,
  Reach, advances, Scheduled, idle, spawned, asleep, at_work, at_end, world,
}
use cachecash.Primitives.Batch.Delivery.{Sent, senders}
use cachecash.Primitives.Batch.Counting.{total, Reach-total, Advance-called}
use cachecash.Primitives.Batch.Invariant.{Reach-IsScheduled}
use cachecash.Primitives.Sharing.{weight}

module _ {I R E : Type 0} where
  -- Steps of the tasks alone.
  pub data Advances (process_batch : List I → Result E (List R))
      : World I R E → World I R E → Type 0 where
    stays : {w : World I R E} → Advances process_batch w w
    goes :
        {w v u : World I R E}
        → Advance process_batch w v
        → Advances process_batch v u
        → Advances process_batch w u

  -- Steps of the tasks lead to a world with no task and nothing that waits.
  abbrev ComesToRest : (List I → Result E (List R)) → World I R E → Type 0
  ComesToRest p w = (v : World I R E) × Advances p w v × (v.tasks ≡ []) × (v.queue.items ≡ [])

  one_more :
      (p : List I → Result E (List R)) (w v : World I R E)
      → Advance p w v
      → ComesToRest p v
      → ComesToRest p w
  one_more p w v step (u, steps, done, none_left) = (u, goes step steps, done, none_left)

  idle_rests :
      (p : List I → Result E (List R)) (last : Option ℕ) (sent : Sent R E) (called : List ℕ)
      → ComesToRest p (world [] none last false [] sent called)
  idle_rests p last sent called = (world [] none last false [] sent called, stays, refl, refl)

  empty_rests :
      (p : List I → Result E (List R)) (last : Option ℕ) (sent : Sent R E) (called : List ℕ)
      → ComesToRest p (world [] none last true (finishing ∷ []) sent called)
  unfolding Batch.finish
  empty_rests p last sent called =
      one_more p _ _ (finishes [] [] 0 0 0 refl) (idle_rests p (some 0) sent called)

  work_rests :
      (p : List I → Result E (List R)) (batch : List (I × ℕ)) (last : Option ℕ) (sent : Sent R E)
      (called : List ℕ)
      → ComesToRest p (world [] none last true (running batch ∷ []) sent called)
  work_rests p batch last sent called =
      one_more p _ _ (processes [] [] batch refl)
        (empty_rests p last (sent ++ Batch.process p batch) called)

  asleep_rests :
      (p : List I → Result E (List R)) (items : List (I × ℕ)) (next last : Option ℕ) (until : ℕ)
      (sent : Sent R E) (called : List ℕ)
      → ComesToRest p (world items next last false (sleeping until ∷ []) sent called)
  unfolding Batch.take_items
  asleep_rests p items next last until sent called =
      one_more p _ _ (wakes [] [] until until refl (omega arith))
        (work_rests p items last sent called)

  spawned_rests :
      (p : List I → Result E (List R)) (items : List (I × ℕ)) (time : ℕ) (last : Option ℕ)
      (sent : Sent R E) (called : List ℕ)
      → ComesToRest p (world items (some time) last false (starting ∷ []) sent called)
  unfolding Batch.wait_duration
  spawned_rests p items time last sent called =
      one_more p _ _ (starts [] [] time refl) (asleep_rests p items (some time) last _ sent called)

  end_rests :
      (p : List I → Result E (List R)) (items : List (I × ℕ)) (last : Option ℕ) (sent : Sent R E)
      (called : List ℕ)
      → ComesToRest p (world items none last true (finishing ∷ []) sent called)
  unfolding Batch.finish
  end_rests p [] last sent called = empty_rests p last sent called
  end_rests p (i ∷ items) last sent called =
      one_more p _ _ (finishes [] [] 0 0 0 refl)
        (spawned_rests p (i ∷ items) _ (some 0) sent called)

  rests_of :
      (p : List I → Result E (List R)) (items : List (I × ℕ)) (next last : Option ℕ) (busy : Bool)
      (tasks : List (Stage I)) (sent : Sent R E) (called : List ℕ)
      → Scheduled items next busy tasks
      → ComesToRest p (world items next last busy tasks sent called)
  rests_of p _ _ last _ _ sent called idle = idle_rests p last sent called
  rests_of p _ _ last _ _ sent called (spawned items time) =
      spawned_rests p items time last sent called
  rests_of p _ _ last _ _ sent called (asleep items time until h) =
      asleep_rests p items (some time) last until sent called
  rests_of p _ _ last _ _ sent called (at_end items) = end_rests p items last sent called
  rests_of p _ _ last _ _ sent called (at_work items batch) =
      one_more p _ _ (processes [] [] batch refl)
        (end_rests p items last (sent ++ Batch.process p batch) called)

  Reach-Advances :
      (p : List I → Result E (List R)) (w v : World I R E)
      → Reach p w
      → Advances p w v
      → Reach p v × (v.called ≡ w.called)
  Reach-Advances p w v r stays = (r, refl)
  Reach-Advances p w v r (goes {v = m} step steps) =
      let (r', same) = Reach-Advances p m v (advances r step) steps in
      (r', same ∙ Advance-called p w m step)

  only_sent :
      (f : ℕ → ℕ) (v : World I R E)
      → v.tasks ≡ []
      → v.queue.items ≡ []
      → weight f (senders v.sent) ≡ total f v
  only_sent f v no_task no_item = rw (no_task, no_item) (omega arith)

  -- From every world that is reached, steps of the task alone lead to one with no task, where
  -- nothing waits and where the answered calls weigh what all the calls that were made weigh, under
  -- every measure of their senders: every call is answered, and none is answered twice.
  pub Reach-rests :
      (process_batch : List I → Result E (List R)) (w : World I R E)
      → Reach process_batch w
      → (v : World I R E) × Advances process_batch w v
        × (v.tasks ≡ [])
        × (v.queue.items ≡ [])
        × ((f : ℕ → ℕ) → weight f (senders v.sent) ≡ weight f w.called)
  Reach-rests p w r =
      let (v, steps, no_task, no_item) =
        rests_of p _ _ (w.queue.last_execution) _ _ (w.sent) (w.called) (Reach-IsScheduled p w r) in
      let (r', same) = Reach-Advances p w v r steps in
      (
        v,
        steps,
        no_task,
        no_item,
        λ f. only_sent f v no_task no_item ∙ (Reach-total p v f r' ∙ ap (weight f) same),
      )
