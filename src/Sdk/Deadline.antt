-- ===== src/Sdk/Deadline.antt =====
-- connector-sdk/src/resilience/timeout.ts
use vguardrail.Base.{ℕ, String, ltb, ◌==◌, if◌then◌else◌, Outcome, err}
use vguardrail.Sdk.Errors.{Thrown, timeout_error}
use Prim.Native.String
use vguardrail.Base.Decimal.{decimal}

-- The error of a deadline that has passed.
unfoldable pub late : {A : Type 0} → String → ℕ → Outcome Thrown A
late label timeout_ms = err (
    timeout_error
      (String.◌++◌ label (String.◌++◌ " timed out after " (String.◌++◌ (decimal timeout_ms) "ms")))
      timeout_ms)

-- `withTimeout`. `op` says after how many milliseconds it settles and with what; `abort` is what the
-- fired signal makes of the world. An operation that settles at the very millisecond of the
-- deadline is late.
unfoldable pub with_timeout :
    {S A : Type 0}
    → (S → ℕ × Outcome Thrown A × S)
    → (S → S)
    → ℕ
    → String
    → S
    → Outcome Thrown A × S
unfolding late
with_timeout op abort timeout_ms label s =
    let (settles, r, s') = op s in
    if timeout_ms == 0
    then (r, s')
    else if ltb settles timeout_ms
    then (r, s')
    else (late label timeout_ms, abort s')
