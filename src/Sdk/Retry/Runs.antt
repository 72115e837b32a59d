-- ===== src/Sdk/Retry/Runs.antt =====
-- What a run of `withRetry` may look like, and how often it calls `op`.
use vguardrail.Base.{
  ℕ, zero, suc, ◌+◌, ◌-◌, ◌≤◌, ◌<◌, ◌≡◌, refl, true, false, inl, inr, Outcome, ok, err, ◌==◌,
  Bool-cases, subst, arith,
}
use vguardrail.Sdk.Errors.{Thrown, retry_exhausted_error}
use vguardrail.Sdk.Retry.{RetryOptions, attempts, pause, retry_loop, with_retry, after_attempt}

module _ {S A : Type 0} (op : ℕ → S → Outcome Thrown A × S) (options : RetryOptions S) where
  -- The runs of a retried operation from attempt `i` on, independent of the loop: the operation
  -- answers; it fails for good; the last attempt fails; or it fails, waits, and runs again.
  pub data Run : ℕ → S → Outcome Thrown A → S → Type 0 where
    answered : {i : ℕ} {s s' : S} {a : A} → op i s ≡ (ok a, s') → Run i s (ok a) s'
    refused :
        {i : ℕ} {s s' : S} {e : Thrown}
        → op i s ≡ (err e, s')
        → options.is_retryable e ≡ false
        → Run i s (err e) s'
    spent :
        {i : ℕ} {s s' : S} {e : Thrown}
        → op i s ≡ (err e, s')
        → options.is_retryable e ≡ true
        → i + 1 ≡ attempts op options
        → Run i s (err (retry_exhausted_error (attempts op options) e)) s'
    again :
        {i : ℕ} {s t s' : S} {e : Thrown} {r : Outcome Thrown A}
        → op i s ≡ (err e, t)
        → options.is_retryable e ≡ true
        → i + 1 < attempts op options
        → Run (suc i) (pause op options i e t) r s'
        → Run i s r s'

  -- The end of a run, and the state it leaves.
  abbrev Ends : ℕ → S → Outcome Thrown A × S → Type 0
  Ends i s out = Run i s out.0 out.1

  after_attempt-Run :
      (i : ℕ) (s : S) (out : Outcome Thrown A × S) (next : Thrown → S → Outcome Thrown A × S)
      → op i s ≡ out
      → i < attempts op options
      → ((e : Thrown) (t : S) → i + 1 < attempts op options → Ends (suc i) t (next e t))
      → Ends i s (after_attempt op options i out next)
  unfolding after_attempt
  after_attempt-Run i s (ok a, t) next h lt rest = answered h
  after_attempt-Run i s (err e, t) next h lt rest = elim (Bool-cases (options.is_retryable e)) [
    | inr final ↦ rw final (refused h final)
    | inl retry ↦ elim (Bool-cases (i == attempts op options - 1)) [
      | inl last ↦ rw (retry, last) (spent h retry (ground arith))
      | inr more ↦ rw (retry, more) (again h retry (ground arith) (rest e _ (ground arith)))
    ]
  ]

  retry_loop-Run :
      (left i : ℕ) (last : Thrown) (s : S)
      → suc left + i ≡ attempts op options
      → Ends i s (retry_loop op options (suc left) i last s)
  unfolding retry_loop
  retry_loop-Run zero i last s h =
      after_attempt-Run i s (op i s) _ refl (omega arith) (λ e t more. absurd (omega arith))
  retry_loop-Run (suc left) i last s h =
      after_attempt-Run i s (op i s) _ refl (omega arith)
        (λ e t more. retry_loop-Run left (suc i) e t (omega arith))

  retry_loop_positive :
      (n : ℕ) (last : Thrown) (s : S)
      → n ≡ attempts op options
      → 0 < n
      → Ends 0 s (retry_loop op options n 0 last s)
  retry_loop_positive zero last s h lt = absurd (omega arith)
  retry_loop_positive (suc n) last s h lt = retry_loop-Run n 0 last s (omega arith)

  attempts-pos : 0 < attempts op options
  unfolding attempts
  attempts-pos = omega arith

  -- Whatever the operation does, `withRetry` ends, and its whole course is one of the runs above:
  -- a value is returned at once, an error that may not be retried is thrown as it is, and
  -- `RetryExhaustedError` is thrown only after the last of the allowed attempts.
  pub with_retry-Run : (s : S) → Run 0 s (with_retry op options s).0 (with_retry op options s).1
  unfolding with_retry
  with_retry-Run s = retry_loop_positive (attempts op options) _ s refl attempts-pos

  -- What every attempt and every pause keep, a run keeps.
  module _ (P : S → Type 0) (op_keeps : (i : ℕ) (s : S) → P s → P (op i s).1)
      (pause_keeps : (i : ℕ) (e : Thrown) (s : S) → P s → P (pause op options i e s)) where
    Run-keeps : {i : ℕ} {s s' : S} {r : Outcome Thrown A} → Run i s r s' → P s → P s'
    Run-keeps (answered {i} {s} h) p = subst (λ out. P out.1) h (op_keeps i s p)
    Run-keeps (refused {i} {s} h _) p = subst (λ out. P out.1) h (op_keeps i s p)
    Run-keeps (spent {i} {s} h _ _) p = subst (λ out. P out.1) h (op_keeps i s p)
    Run-keeps (again {i} {s} {t} {e} h _ _ rest) p =
        Run-keeps rest (pause_keeps i e t (subst (λ out. P out.1) h (op_keeps i s p)))

    pub with_retry-keeps : (s : S) → P s → P (with_retry op options s).1
    with_retry-keeps s p = Run-keeps (with_retry-Run s) p

  -- A count that every attempt raises by at most one, and no pause raises.
  module _ (calls : S → ℕ) (op_once : (i : ℕ) (s : S) → calls (op i s).1 ≤ calls s + 1)
      (pause_free : (i : ℕ) (e : Thrown) (s : S) → calls (pause op options i e s) ≤ calls s) where
    step-le : {i : ℕ} {s t : S} {r : Outcome Thrown A} → op i s ≡ (r, t) → calls t ≤ calls s + 1
    step-le {i} {s} h = subst (λ out. calls out.1 ≤ calls s + 1) h (op_once i s)

    Run-calls-le :
        {i : ℕ} {s s' : S} {r : Outcome Thrown A}
        → Run i s r s'
        → i < attempts op options
        → calls s' + i ≤ calls s + attempts op options
    Run-calls-le (answered h) lt = omega (arith, step-le h)
    Run-calls-le (refused h _) lt = omega (arith, step-le h)
    Run-calls-le (spent h _ _) lt = omega (arith, step-le h)
    Run-calls-le (again {i} {t} {e} h _ more rest) lt =
        omega (arith, step-le h, pause_free i e t, Run-calls-le rest (omega arith))

    -- A count that each attempt raises by at most one, and no pause raises, is raised by a run at
    -- most `max(1, maxAttempts)` times: so often is `op` called at most.
    pub with_retry-calls-le :
        (s : S) → calls (with_retry op options s).1 ≤ calls s + attempts op options
    with_retry-calls-le s = omega (arith, Run-calls-le (with_retry-Run s) attempts-pos)

    module _
        (harmless : (i : ℕ) (s t : S) (e : Thrown)
          → op i s ≡ (err e, t)
          → options.is_retryable e ≡ true
          → calls t ≤ calls s) where
      Run-at_most_once :
          {i : ℕ} {s s' : S} {r : Outcome Thrown A} → Run i s r s' → calls s' ≤ calls s + 1
      Run-at_most_once (answered h) = step-le h
      Run-at_most_once (refused h _) = step-le h
      Run-at_most_once (spent h _ _) = step-le h
      Run-at_most_once (again {i} {s} {t} {e} h retry more rest) =
          omega (arith, harmless i s t e h retry, pause_free i e t, Run-at_most_once rest)

      -- Where the failures that are retried have no effect, the effect happens at most once.
      pub with_retry-at_most_once : (s : S) → calls (with_retry op options s).1 ≤ calls s + 1
      with_retry-at_most_once s = Run-at_most_once (with_retry-Run s)
