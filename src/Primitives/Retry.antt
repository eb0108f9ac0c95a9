-- ===== src/Primitives/Retry.antt =====
-- pkg/primitives/src/retry.rs. An operation changes a state and gives a result, and what the error
-- handler is called with, and the time slept, are recorded. `exec` panics when it unwraps no error.
use cachecash.Prelude.{
  ℕ, zero, suc, ◌+◌, ◌≤◌, ◌<◌, ◌≡◌, ◌⊎◌, inl, inr, refl, sym, ap, ◌∙◌, Bool, true, false, Option,
  none, some, List, [], ◌∷◌, ◌++◌, Result, ok, err, if◌then◌else◌, arith, Result-cases,
}
pub mod Attempts

-- `error_handler` is whether there is one.
pub record Retry (S E T : Type 0) : Type 0 where
  pub operation : S → S × Result E T
  pub retry_delay : ℕ
  pub error_handler : Bool

pub record Progress (S E : Type 0) : Type 0 where
  pub state : S
  pub handled : List E
  pub slept : ℕ

pub data Executed (E T : Type 0) : Type 0 where
  returned : Result E T → Executed E T
  panicked : Executed E T

module _ {S E T : Type 0} where
  unfoldable pub retry : (S → S × Result E T) → Retry S E T
  retry operation = record { operation = operation; retry_delay = 1000; error_handler = false }

  unfoldable pub on_error : Retry S E T → Retry S E T
  on_error r = record r { error_handler = true }

  -- `Retry::retry_delay`.
  unfoldable pub with_delay : Retry S E T → ℕ → Retry S E T
  with_delay r delay = record r { retry_delay = delay }

  -- The branch of a failed attempt.
  unfoldable pub failed : Retry S E T → Progress S E → S → E → Progress S E
  failed r p state e = record {
    state = state;
    handled = if r.error_handler then p.handled ++ e ∷ [] else p.handled;
    slept = p.slept + r.retry_delay;
  }

  -- The loop of `exec` with the attempts that are left and the last error.
  unfoldable pub exec_from : Retry S E T → ℕ → Progress S E → Option E → Progress S E × Executed E T
  exec_from r zero p (some e) = (p, returned (err e))
  exec_from r zero p none = (p, panicked)
  exec_from r (suc attempts) p last =
      let (state, result) = r.operation (p.state) in
      elim result [
        | ok value ↦ (record p { state = state }, returned (ok value))
        | err e ↦ exec_from r attempts (failed r p state e) (some e)
      ]

  unfoldable pub exec : Retry S E T → ℕ → S → Progress S E × Executed E T
  exec r attempts state =
      exec_from r attempts (record { state = state; handled = []; slept = 0 }) none

  -- The loop of `exec_forever`, for so many rounds.
  unfoldable pub exec_forever_from : Retry S E T → ℕ → Progress S E → Option (Progress S E × T)
  exec_forever_from r zero p = none
  exec_forever_from r (suc fuel) p =
      let (state, result) = r.operation (p.state) in
      elim result [
        | ok value ↦ some (record p { state = state }, value)
        | err e ↦ exec_forever_from r fuel (failed r p state e)
      ]

  unfoldable pub exec_forever : Retry S E T → ℕ → S → Option (Progress S E × T)
  exec_forever r fuel state =
      exec_forever_from r fuel (record { state = state; handled = []; slept = 0 })

  unfoldable pub retry_forever : (S → S × Result E T) → ℕ → ℕ → S → Option (Progress S E × T)
  retry_forever operation delay fuel state =
      exec_forever (with_delay (retry operation) delay) fuel state
