-- ===== src/Sdk/Retry.antt =====
-- connector-sdk/src/resilience/retry.ts. What `op`, `sleep`, `onRetry` and `random` do to the world
-- is passed along as a state `S`.
pub mod Runs
use vguardrail.Base.{
  ℕ, zero, suc, ◌+◌, ◌-◌, ◌*◌, ◌^◌, min, max, Bool, not, ◌==◌, if◌then◌else◌, Outcome, ok, err,
}
use vguardrail.Sdk.Errors.{Thrown, foreign, retry_exhausted_error}

-- `RetryOptions`. `draw cap` is `Math.floor(random() * cap)`.
pub record RetryOptions (S : Type 0) : Type 0 where
  pub max_attempts : ℕ
  pub base_delay_ms : ℕ
  pub max_delay_ms : ℕ
  pub draw : ℕ → S → ℕ × S
  pub sleep : ℕ → S → S
  pub is_retryable : Thrown → Bool
  pub on_retry : ℕ → ℕ → Thrown → S → S

-- `backoffDelay`
unfoldable pub backoff_delay : {S : Type 0} → ℕ → ℕ → ℕ → (ℕ → S → ℕ × S) → S → ℕ × S
backoff_delay attempt base_delay_ms max_delay_ms draw s =
    draw (min (base_delay_ms * 2 ^ attempt) max_delay_ms) s

module _ {S A : Type 0} (op : ℕ → S → Outcome Thrown A × S) (options : RetryOptions S) where
  -- `Math.max(1, options.maxAttempts)`
  unfoldable pub attempts : ℕ
  attempts = max 1 options.max_attempts

  -- What the loop does between two attempts: backoff, the hook, the sleep.
  unfoldable pub pause : ℕ → Thrown → S → S
  unfolding backoff_delay
  pause i error s =
      let (delay_ms, s') =
        backoff_delay i options.base_delay_ms options.max_delay_ms options.draw s in
      options.sleep delay_ms (options.on_retry (i + 1) delay_ms error s')

  -- One round of the loop after `op` has answered or thrown; `next` is the rest of the loop.
  unfoldable pub after_attempt :
      ℕ → Outcome Thrown A × S → (Thrown → S → Outcome Thrown A × S) → Outcome Thrown A × S
  unfolding attempts pause
  after_attempt i (ok a, s) next = (ok a, s)
  after_attempt i (err error, s) next =
      if not (options.is_retryable error)
      then (err error, s)
      else if i == attempts - 1
      then (err (retry_exhausted_error attempts error), s)
      else next error (pause i error s)

  -- The `for` loop of `withRetry`, by the rounds left; `foreign "undefined"` stands for the
  -- `lastError` of a loop that makes no round.
  unfoldable pub retry_loop : ℕ → ℕ → Thrown → S → Outcome Thrown A × S
  unfolding attempts
  retry_loop zero i last_error s = (err (retry_exhausted_error attempts last_error), s)
  retry_loop (suc left) i last_error s = after_attempt i (op i s) (retry_loop left (suc i))

  -- `withRetry`
  unfoldable pub with_retry : S → Outcome Thrown A × S
  unfolding attempts
  with_retry s = retry_loop attempts 0 (foreign "undefined") s
