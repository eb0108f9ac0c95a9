-- ===== src/Primitives/Retry/Attempts.antt =====
-- How the attempts of pkg/primitives/src/retry.rs end.
use cachecash.Prelude.{
  ℕ, zero, suc, ◌<◌, ◌≡◌, ◌⊎◌, refl, ap, ◌∙◌, Option, none, some, [], ok, err, arith,
}
use cachecash.Primitives.Retry.{
  Retry, Progress, Executed, returned, failed, exec_forever_from, exec_forever,
}

module _ {S E T : Type 0} where
  -- So many attempts in a row fail, and lead from one progress and last error to another.
  pub data Fails (r : Retry S E T)
      : ℕ → Progress S E → Option E → Progress S E → Option E → Type 0 where
    no_attempt : {p : Progress S E} {last : Option E} → Fails r 0 p last p last
    attempt :
        {p q : Progress S E} {last last' : Option E} (n : ℕ) (state : S) (e : E)
        → r.operation p.state ≡ (state, err e)
        → Fails r n (failed r p state e) (some e) q last'
        → Fails r (suc n) p last q last'

  -- The two ends of a run of attempts.
  abbrev pub Ends : Retry S E T → ℕ → Progress S E → Option E → Progress S E × Executed E T → Type 0
  Ends r attempts p last run =
      ((n : ℕ) × (n < attempts)
        × (q : Progress S E) × (e : Option E) × Fails r n p last q e
        × (state : S) × (value : T) × (r.operation q.state ≡ (state, ok value))
        × (run ≡ (record q { state = state }, returned (ok value))))
      ⊎ ((q : Progress S E) × (e : E) × Fails r attempts p last q (some e)
          × (run ≡ (q, returned (err e))))

  forever-succeeds :
      (r : Retry S E T) (n : ℕ) (p : Progress S E) (state : S) (value : T)
      → r.operation p.state ≡ (state, ok value)
      → exec_forever_from r (suc n) p ≡ some (record p { state = state }, value)
  unfolding exec_forever_from
  forever-succeeds r n p state value h =
      rw (ap (λ x. x.1) h, ap (λ x. x.0) h, exec_forever_from) refl

  forever-fails :
      (r : Retry S E T) (n : ℕ) (p : Progress S E) (state : S) (e : E)
      → r.operation p.state ≡ (state, err e)
      → exec_forever_from r (suc n) p ≡ exec_forever_from r n (failed r p state e)
  unfolding exec_forever_from
  forever-fails r n p state e h = rw (ap (λ x. x.1) h, ap (λ x. x.0) h, exec_forever_from) refl

  forever_from-ends :
      (r : Retry S E T) (fuel n : ℕ) (p q : Progress S E) (last last' : Option E) (state : S)
      (value : T)
      → Fails r n p last q last'
      → r.operation q.state ≡ (state, ok value)
      → n < fuel
      → exec_forever_from r fuel p ≡ some (record q { state = state }, value)
  forever_from-ends r zero n p q last last' state value fails good enough = absurd (omega arith)
  forever_from-ends r (suc fuel) _ p _ last _ state value no_attempt good enough =
      forever-succeeds r fuel p state value good
  forever_from-ends r (suc fuel) _ p q last last' state value (attempt n s e bad fails) good
        enough =
      forever-fails r fuel p s e bad
      ∙ forever_from-ends r fuel n (failed r p s e) q (some e) last' state value fails good
          (omega arith)

  -- When so many attempts in a row fail and the next one does not, `exec_forever` ends with the
  -- value of that one, after as many rounds and one more.
  pub exec_forever-ends :
      (r : Retry S E T) (fuel n : ℕ) (first : S) (q : Progress S E) (last : Option E) (state : S)
      (value : T)
      → Fails r n (record { state = first; handled = []; slept = 0 }) none q last
      → r.operation q.state ≡ (state, ok value)
      → n < fuel
      → exec_forever r fuel first ≡ some (record q { state = state }, value)
  unfolding exec_forever
  exec_forever-ends r fuel n first q last state value fails good enough =
      forever_from-ends r fuel n _ q none last state value fails good enough
