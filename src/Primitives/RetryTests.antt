-- ===== src/Primitives/RetryTests.antt =====
-- The theorems on retries at an operation that fails twice.
use cachecash.Prelude.{ℕ, ◌+◌, ◌≡◌, refl, none, some, [], ◌∷◌, Result, ok, err, ltb, if◌then◌else◌}
use cachecash.Primitives.Retry.{
  Retry, Progress, panicked, retry, on_error, with_delay, failed, exec, exec_from,
}
use cachecash.Primitives.Retry.Attempts.{Fails, no_attempt, attempt}

-- The third attempt succeeds.
abbrev third : ℕ → ℕ × Result ℕ ℕ
third n = (n + 1, if ltb n 2 then err (100 + n) else ok n)

abbrev patient : Retry ℕ ℕ ℕ
unfolding retry on_error with_delay
patient = with_delay (on_error (retry third)) 50

abbrev at_first : Progress ℕ ℕ
at_first = record { state = 0; handled = []; slept = 0 }

abbrev at_third : Progress ℕ ℕ
at_third = record { state = 2; handled = 100 ∷ 101 ∷ []; slept = 100 }

two_fail : Fails patient 2 at_first none at_third (some 101)
unfolding failed retry on_error with_delay
two_fail = attempt 1 1 100 refl (attempt 0 2 101 refl no_attempt)

-- With no attempt `exec` panics.
exec_zero : (exec patient 0 0).1 ≡ panicked
unfolding exec exec_from
exec_zero = refl
