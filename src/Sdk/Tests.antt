-- ===== src/Sdk/Tests.antt =====
-- Concrete runs of the retry loop and of the codecs.
use vguardrail.Base.{ℕ, zero, suc, ◌+◌, ◌≤◌, arith, Outcome, ok, err}
use vguardrail.Sdk.Errors.{Thrown, transport_error, is_retryable}
use vguardrail.Sdk.Retry.{RetryOptions, attempts, pause, with_retry, backoff_delay}
use vguardrail.Sdk.Retry.Runs.{Run, with_retry-Run, with_retry-calls-le}

-- An operation that fails twice and then answers.
abbrev flaky : ℕ → ℕ → Outcome Thrown ℕ × ℕ
flaky zero s = (err (transport_error "lost"), s + 1)
flaky (suc zero) s = (err (transport_error "lost"), s + 1)
flaky (suc (suc i)) s = (ok 7, s + 1)

abbrev three_times : RetryOptions ℕ
three_times = record {
  max_attempts = 3;
  base_delay_ms = 50;
  max_delay_ms = 1000;
  draw = λ cap s. (0, s);
  sleep = λ ms s. s;
  is_retryable = λ e. is_retryable e;
  on_retry = λ attempt delay error s. s;
}

with_retry-Run_example :
    Run flaky three_times 0 0 (with_retry flaky three_times 0).0 (with_retry flaky three_times 0).1
with_retry-Run_example = with_retry-Run flaky three_times 0

flaky-once : (i s : ℕ) → (flaky i s).1 ≤ s + 1
flaky-once zero s = omega arith
flaky-once (suc zero) s = omega arith
flaky-once (suc (suc i)) s = omega arith

pause_free : (i : ℕ) (e : Thrown) (s : ℕ) → pause flaky three_times i e s ≤ s
unfolding pause backoff_delay
pause_free i e s = omega arith

with_retry-calls-le_example : (with_retry flaky three_times 0).1 ≤ 0 + attempts flaky three_times
with_retry-calls-le_example = with_retry-calls-le flaky three_times (λ s. s) flaky-once pause_free 0
