-- ===== src/Primitives/Sharing.antt =====
-- Runs of the pool of pkg/primitives/src/pool.rs: the values, and the tasks that wait.
use cachecash.Prelude.{
  ℕ, ◌+◌, ◌≡◌, ◌≢◌, ◌⊎◌, refl, ◌∙◌, ap, Bool, true, false, none, some, Option, List, [], ◌∷◌, ◌++◌,
  inl, inr, Bool-cases, All, arith,
}
use cachecash.Primitives.Pool.{
  PoolState, new_pool, get, Offered, nobody, reached, deadlocked, offer, Dropped, returned, handed,
  stuck, drop_guard,
}

-- The pool, the values that guards hold, and the values in drops that never return, which keep the
-- lock.
pub record World (A : Type 0) : Type 0 where
  pub pool : PoolState A
  pub held : List A
  pub blocked : List A

nobody-offer : (is_closed send_ok : ℕ → Bool) → offer is_closed send_ok [] ≡ nobody
unfolding offer
nobody-offer is_closed send_ok = refl

-- The first waiter of a list that is not closed, and those behind it.
abbrev IsNext : (ℕ → Bool) → List ℕ → ℕ → List ℕ → Type 0
IsNext is_closed tasks task rest =
    (before : List ℕ) × (tasks ≡ before ++ task ∷ rest)
    × All (λ t. is_closed t ≡ true) before
    × (is_closed task ≡ false)

-- How a value is offered: nobody takes it when every waiter is closed; otherwise the first waiter
-- that is not closed gets it, or the send to that one fails and the drop deadlocks.
abbrev IsOffered : (ℕ → Bool) → (ℕ → Bool) → List ℕ → Offered → Type 0
IsOffered is_closed send_ok tasks nobody = All (λ t. is_closed t ≡ true) tasks
IsOffered is_closed send_ok tasks (reached task rest) =
    IsNext is_closed tasks task rest × (send_ok task ≡ true)
IsOffered is_closed send_ok tasks (deadlocked rest) =
    (task : ℕ) × IsNext is_closed tasks task rest × (send_ok task ≡ false)

later-IsOffered :
    (is_closed send_ok : ℕ → Bool) (t : ℕ) (ts : List ℕ) (o : Offered)
    → is_closed t ≡ true
    → IsOffered is_closed send_ok ts o
    → IsOffered is_closed send_ok (t ∷ ts) o
later-IsOffered is_closed send_ok t ts nobody c h = (c, h)
later-IsOffered is_closed send_ok t ts (reached task rest) c ((before, eq, dead, live), sent) =
    ((t ∷ before, ap (◌∷◌ t) eq, (c, dead), live), sent)
later-IsOffered is_closed send_ok t ts (deadlocked rest) c (task, (before, eq, dead, live), lost) =
    (task, (t ∷ before, ap (◌∷◌ t) eq, (c, dead), live), lost)

-- A dropped guard deadlocks exactly when the send to the first waiter that is not closed fails.
pub offer-IsOffered :
    (is_closed send_ok : ℕ → Bool) (tasks : List ℕ)
    → IsOffered is_closed send_ok tasks (offer is_closed send_ok tasks)
unfolding offer
offer-IsOffered is_closed send_ok [] = tt
offer-IsOffered is_closed send_ok (t ∷ ts) = elim (Bool-cases (is_closed t)) [
  | inl closed ↦
      rw (closed, offer)
        (later-IsOffered is_closed send_ok t ts _ closed (offer-IsOffered is_closed send_ok ts))
  | inr live ↦ elim (Bool-cases (send_ok t)) [
    | inl sent ↦ rw (live, sent, offer) (([], refl, tt, live), sent)
    | inr lost ↦ rw (live, lost, offer) (t, ([], refl, tt, live), lost)
  ]
]

module _ {A : Type 0} where
  -- A call of `get`: the caller holds the value that it got.
  abbrev pub after_get : World A → PoolState A × Option A → World A
  after_get w (pool, none) = record w { pool = pool }
  after_get w (pool, some value) = record w { pool = pool; held = value ∷ w.held }

  -- The drop of a guard: a task that was reached holds the value now.
  abbrev pub after_drop : World A → List A → A → List A → PoolState A × Dropped → World A
  after_drop w before value after (pool, returned) = record w {
    pool = pool;
    held = before ++ after;
  }
  after_drop w before value after (pool, handed task) = record w {
    pool = pool;
    held = before ++ value ∷ after;
  }
  after_drop w before value after (pool, stuck) = record {
    pool = pool;
    held = before ++ after;
    blocked = value ∷ w.blocked;
  }

  -- The worlds that calls and drops lead to from a pool of the values. Both need the lock, so none
  -- follows a drop that never returns.
  pub data Reach (values : List A) : World A → Type 0 where
    start : Reach values (record { pool = new_pool values; held = []; blocked = [] })
    gets :
        {w : World A}
        → Reach values w
        → w.blocked ≡ []
        → (task : ℕ) → Reach values (after_get w (get w.pool task))
    drops :
        {w : World A}
        → Reach values w
        → w.blocked ≡ []
        → (is_closed send_ok : ℕ → Bool) (before : List A) (value : A) (after : List A)
        → w.held ≡ before ++ value ∷ after
        → Reach values (after_drop w before value after (drop_guard is_closed send_ok w.pool value))

  -- Values are free, or tasks wait, but not both.
  abbrev pub IsServed : PoolState A → Type 0
  IsServed s = (s.values ≡ []) ⊎ (s.waiters ≡ [])

  -- The ways through `get`.
  abbrev IsGot : PoolState A → ℕ → Type 0
  IsGot s task =
      ((s.values ≡ []) × (get s task ≡ (record s { waiters = s.waiters ++ task ∷ [] }, none)))
      ⊎ ((v : A) × (vs : List A) × (s.values ≡ v ∷ vs)
          × (get s task ≡ (record s { values = vs }, some v)))

  get_of-IsGot :
      (values : List A) (waiters : List ℕ) (task : ℕ)
      → IsGot (record { values = values; waiters = waiters }) task
  unfolding get
  get_of-IsGot [] waiters task = inl (refl, refl)
  get_of-IsGot (v ∷ vs) waiters task = inr (v, vs, refl, refl)

  get-IsGot : (s : PoolState A) (task : ℕ) → IsGot s task
  get-IsGot s task = get_of-IsGot s.values s.waiters task

  -- The ways through `drop`.
  abbrev IsDropped : (ℕ → Bool) → (ℕ → Bool) → PoolState A → A → Type 0
  IsDropped is_closed send_ok s value =
      (drop_guard is_closed send_ok s value
        ≡ (record { values = s.values ++ value ∷ []; waiters = [] }, returned))
      ⊎ ((tasks : List ℕ) × (o : Dropped) × (s.waiters ≢ [])
          × ((o ≡ stuck) ⊎ ((task : ℕ) × (o ≡ handed task)))
          × (drop_guard is_closed send_ok s value ≡ (record s { waiters = tasks }, o)))

  drop_guard-IsDropped :
      (is_closed send_ok : ℕ → Bool) (s : PoolState A) (value : A) (o : Offered)
      → offer is_closed send_ok s.waiters ≡ o
      → IsDropped is_closed send_ok s value
  unfolding drop_guard
  drop_guard-IsDropped is_closed send_ok s value nobody e = inl (rw (e, drop_guard) refl)
  drop_guard-IsDropped is_closed send_ok s value (reached task tasks) e = inr (
    tasks,
    handed task,
    (λ idle. cc (nobody-offer is_closed send_ok, ap (offer is_closed send_ok) idle, e)),
    inr (task, refl),
    rw (e, drop_guard) refl,
  )
  drop_guard-IsDropped is_closed send_ok s value (deadlocked tasks) e = inr (
    tasks,
    stuck,
    (λ idle. cc (nobody-offer is_closed send_ok, ap (offer is_closed send_ok) idle, e)),
    inl refl,
    rw (e, drop_guard) refl,
  )

  waits-IsServed : (s : PoolState A) → s.waiters ≢ [] → IsServed s → s.values ≡ []
  waits-IsServed s waits (inl free) = free
  waits-IsServed s waits (inr idle) = absurd (waits idle)

  -- In every world that is reached no task waits while a value is in the pool.
  pub Reach-IsServed : (values : List A) (w : World A) → Reach values w → IsServed w.pool
  unfolding new_pool
  Reach-IsServed values w start = inr refl
  Reach-IsServed values _ (gets {w = m} r unlocked task) = elim (get-IsGot m.pool task) [
    | inl (free, e) ↦ rw e (inl free)
    | inr (v, vs, some_free, e) ↦ elim (Reach-IsServed values m r) [
      | inl free ↦ cc (some_free, free)
      | inr idle ↦ rw e (inr idle)
    ]
  ]
  Reach-IsServed values _ (drops {w = m} r unlocked is_closed send_ok before value after held) =
      elim (drop_guard-IsDropped is_closed send_ok m.pool value _ refl) [
        | inl e ↦ rw e (inr refl)
        | inr (tasks, _, waits, inl e', e) ↦
            rw (e, e') (inl (waits-IsServed m.pool waits (Reach-IsServed values m r)))
        | inr (tasks, _, waits, inr (task, e'), e) ↦
            rw (e, e') (inl (waits-IsServed m.pool waits (Reach-IsServed values m r)))
      ]

  -- The weight of a list under a measure of its values.
  abbrev pub weight : (A → ℕ) → List A → ℕ
  weight f [] = 0
  weight f (v ∷ vs) = f v + weight f vs

  pub weight-append : (f : A → ℕ) (xs ys : List A) → weight f (xs ++ ys) ≡ weight f xs + weight f ys
  weight-append f [] ys = omega arith
  weight-append f (x ∷ xs) ys = omega (arith, weight-append f xs ys)

  -- In every world that is reached the values in the pool, the held ones and those in a drop that
  -- never returns together weigh what the values of the pool weighed at first, under every measure:
  -- none is lost, and none is there twice.
  pub Reach-weight :
      (values : List A) (w : World A) (f : A → ℕ)
      → Reach values w
      → weight f w.pool.values + weight f w.held + weight f w.blocked ≡ weight f values
  unfolding new_pool
  Reach-weight values w f start = omega arith
  Reach-weight values _ f (gets {w = m} r unlocked task) =
      let before = Reach-weight values m f r in
      elim (get-IsGot m.pool task) [
        | inl (free, e) ↦ rw e before
        | inr (v, vs, some_free, e) ↦
            let split : weight f m.pool.values ≡ f v + weight f vs = ap (weight f) some_free in
            rw e (omega (arith, before, split))
      ]
  Reach-weight values _ f (drops {w = m} r unlocked is_closed send_ok front value after held) =
      let before = Reach-weight values m f r in
      let split : weight f m.held ≡ weight f front + (f value + weight f after) =
        ap (weight f) held ∙ weight-append f front (value ∷ after) in
      elim (drop_guard-IsDropped is_closed send_ok m.pool value _ refl) [
        | inl e ↦ rw e (
            omega (
              arith,
              before,
              split,
              weight-append f m.pool.values (value ∷ []),
              weight-append f front after,
            ))
        | inr (tasks, _, waits, inl e', e) ↦
            rw (e, e') (omega (arith, before, split, weight-append f front after))
        | inr (tasks, _, waits, inr (task, e'), e) ↦
            rw (e, e') (omega (arith, before, split, weight-append f front (value ∷ after)))
      ]
