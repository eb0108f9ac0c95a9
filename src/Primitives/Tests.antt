-- ===== src/Primitives/Tests.antt =====
-- The theorems on the pool at a run of three steps: a task gets the only value, another waits, and
-- the value goes to it.
use cachecash.Prelude.{ℕ, ◌+◌, ◌≡◌, refl, Bool, true, false, [], ◌∷◌, ◌==◌}
use cachecash.Primitives.Pool.{new_pool, get, reached, deadlocked, offer, drop_guard}
use cachecash.Primitives.Sharing.{
  World, Reach, start, gets, drops, IsServed, Reach-IsServed, weight, Reach-weight,
}

abbrev always : ℕ → Bool
always task = true

abbrev never : ℕ → Bool
never task = false

abbrev first_world : World ℕ
first_world = record { pool = record { values = []; waiters = [] }; held = 5 ∷ []; blocked = [] }

abbrev second_world : World ℕ
second_world = record {
  pool = record { values = []; waiters = 2 ∷ [] };
  held = 5 ∷ [];
  blocked = [];
}

first_run : Reach (5 ∷ []) first_world
unfolding new_pool get
first_run = gets start refl 1

second_run : Reach (5 ∷ []) second_world
unfolding get
second_run = gets first_run refl 2

third_run : Reach (5 ∷ []) first_world
unfolding drop_guard offer
third_run = drops second_run refl never always [] 5 [] refl

Reach-IsServed_example : IsServed first_world.pool
Reach-IsServed_example = Reach-IsServed (5 ∷ []) first_world third_run

Reach-weight_example :
    weight (λ v. v) first_world.pool.values
      + weight (λ v. v) first_world.held
      + weight (λ v. v) first_world.blocked
    ≡ weight (λ v. v) (5 ∷ [])
Reach-weight_example = Reach-weight (5 ∷ []) first_world (λ v. v) third_run

-- The first of three tasks is closed.
abbrev closed : ℕ → Bool
closed task = task == 1

reaches_second : offer closed always (1 ∷ 2 ∷ 3 ∷ []) ≡ reached 2 (3 ∷ [])
unfolding offer
reaches_second = refl

-- The send to the second of three tasks fails.
deadlocks : offer closed never (1 ∷ 2 ∷ 3 ∷ []) ≡ deadlocked (3 ∷ [])
unfolding offer
deadlocks = refl
