-- ===== src/Primitives/Pool.antt =====
-- pkg/primitives/src/pool.rs. A task that waits is a number; whether its channel is closed, and
-- whether a send to it succeeds, are arguments (the crate `tokio`). The lock makes `get` and the
-- drop of a guard single steps.
use cachecash.Prelude.{ℕ, Bool, Option, none, some, List, [], ◌∷◌, ◌++◌, if◌then◌else◌}

pub record PoolState (A : Type 0) : Type 0 where
  pub values : List A
  pub waiters : List ℕ

-- How the loop of `drop` ends: no waiter is left, a task has the value and others wait behind it, or
-- the guard that a failed send gives back is dropped while the lock is held. That drop waits for the
-- same lock, so the loop stops there for ever; the waiters behind are left.
pub data Offered : Type 0 where
  nobody : Offered
  reached : ℕ → List ℕ → Offered
  deadlocked : List ℕ → Offered

-- The loop of `drop` over the waiters.
unfoldable pub offer : (ℕ → Bool) → (ℕ → Bool) → List ℕ → Offered
offer is_closed send_ok [] = nobody
offer is_closed send_ok (task ∷ tasks) =
    let rest = offer is_closed send_ok tasks in
    if is_closed task then rest else if send_ok task then reached task tasks else deadlocked tasks

-- What becomes of a dropped value: it is back in the pool, a task has it, or it is stuck in the drop
-- that never returns, with the lock.
pub data Dropped : Type 0 where
  returned : Dropped
  handed : ℕ → Dropped
  stuck : Dropped

module _ {A : Type 0} where
  -- `Pool::new`.
  unfoldable pub new_pool : List A → PoolState A
  new_pool values = record { values = values; waiters = [] }

  -- `get` up to its `await`: the value of the guard, or the task waits.
  unfoldable pub get : PoolState A → ℕ → PoolState A × Option A
  get s task = elim s.values [
    | [] ↦ (record s { waiters = s.waiters ++ task ∷ [] }, none)
    | value ∷ values ↦ (record s { values = values }, some value)
  ]

  -- `drop`.
  unfoldable pub drop_guard : (ℕ → Bool) → (ℕ → Bool) → PoolState A → A → PoolState A × Dropped
  unfolding offer
  drop_guard is_closed send_ok s value = elim (offer is_closed send_ok s.waiters) [
    | nobody ↦ (record { values = s.values ++ value ∷ []; waiters = [] }, returned)
    | reached task tasks ↦ (record s { waiters = tasks }, handed task)
    | deadlocked tasks ↦ (record s { waiters = tasks }, stuck)
  ]
