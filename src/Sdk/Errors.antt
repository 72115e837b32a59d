-- ===== src/Sdk/Errors.antt =====
-- connector-sdk/src/resilience/errors.ts
use Prim.Native.String
use vguardrail.Base.{ℕ, String, Bool, true, false, Option, none, some, if◌then◌else◌}
use vguardrail.Base.Text.{str_eq}
use vguardrail.Base.Decimal.{decimal}

-- `ConnectorErrorCode`
pub data ErrorCode : Type 0 where
  transport timeout not_connected remote unavailable version_mismatch validation : ErrorCode
  retry_exhausted : ErrorCode

-- The wire text of each code.
pub code_text : ErrorCode → String
code_text transport = "TRANSPORT"
code_text timeout = "TIMEOUT"
code_text not_connected = "NOT_CONNECTED"
code_text remote = "REMOTE"
code_text unavailable = "UNAVAILABLE"
code_text version_mismatch = "VERSION_MISMATCH"
code_text validation = "VALIDATION"
code_text retry_exhausted = "RETRY_EXHAUSTED"

-- A thrown value: one constructor for each subclass of `ConnectorError`, with its message, and
-- `foreign` for whatever else is thrown. A `cause` is kept only where code reads it.
pub data Thrown : Type 0 where
  transport_error : String → Thrown
  timeout_error : String → ℕ → Thrown
  not_connected_error : String → Thrown
  remote_error : String → Thrown
  engine_unavailable_error : String → Thrown
  version_mismatch_error : String → Thrown
  validation_error : String → Thrown
  retry_exhausted_error : ℕ → Thrown → Thrown
  foreign : String → Thrown

-- The field `code`; `none` where the value is no `ConnectorError`.
unfoldable pub code : Thrown → Option ErrorCode
code (transport_error m) = some transport
code (timeout_error m ms) = some timeout
code (not_connected_error m) = some not_connected
code (remote_error m) = some remote
code (engine_unavailable_error m) = some unavailable
code (version_mismatch_error m) = some version_mismatch
code (validation_error m) = some validation
code (retry_exhausted_error n e) = some retry_exhausted
code (foreign m) = none

-- The field `message`.
unfoldable pub message : Thrown → String
message (transport_error m) = m
message (timeout_error m ms) = m
message (not_connected_error m) = m
message (remote_error m) = m
message (engine_unavailable_error m) = m
message (version_mismatch_error m) = m
message (validation_error m) = m
message (retry_exhausted_error n e) =
    String.◌++◌ "retries exhausted after " (String.◌++◌ (decimal n) " attempt(s)")
message (foreign m) = m

-- The field `retryable`, as the constructors set it.
unfoldable pub retryable : Thrown → Bool
retryable (transport_error m) = true
retryable (not_connected_error m) = true
retryable _ = false

-- `isRetryable`
unfoldable pub is_retryable : Thrown → Bool
unfolding retryable
is_retryable (foreign m) = false
is_retryable e = retryable e

-- `connectorErrorFromWire`
unfoldable pub connector_error_from_wire : String → String → Thrown
unfolding code_text
connector_error_from_wire c message =
    if str_eq c (code_text unavailable)
    then engine_unavailable_error message
    else if str_eq c (code_text not_connected)
    then not_connected_error message
    else if str_eq c (code_text transport)
    then transport_error message
    else if str_eq c (code_text timeout)
    then timeout_error message 0
    else if str_eq c (code_text validation)
    then validation_error message
    else if str_eq c (code_text version_mismatch)
    then version_mismatch_error message
    else remote_error message
