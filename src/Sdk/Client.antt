-- ===== src/Sdk/Client.antt =====
-- connector-sdk/src/client/connector-client.ts and options.ts. The transport, the clock, the source
-- of ids and the schemas are fields of `Deps`; the world on which they act is a state `S`. Calls run
-- one after the other, so that a handshake in flight (`connecting`) is never met; logging is left
-- out.
pub mod Safety
pub mod Submit
pub mod Queries
pub mod Wire
pub mod Tests
use Prim.Native.String
use vguardrail.Base.{
  ℕ, ◌-◌, String, Bool, true, false, ◌||◌, Option, none, some, List, [], ◌∷◌, ◌++◌, if◌then◌else◌,
  Outcome, ok, err, Act, and_then, or_handle, ◌>>=◌, return,
}
use vguardrail.Json.{Json, obj, end}
use vguardrail.Sdk.Enums.{Action, block}
use vguardrail.Sdk.Words.{action_text}
use vguardrail.Sdk.Decision.{
  Decision, ScanResponse, or_else, make_scan_response, synthetic_decision,
}
use vguardrail.Sdk.Codec.{DecisionWire, decode_decision}
use vguardrail.Sdk.ScanRequest.{ScanRequest, encode_scan_request}
use vguardrail.Sdk.Errors.{
  ErrorCode, Thrown, not_connected_error, timeout_error, validation_error, foreign, code, code_text,
  is_retryable,
}
use vguardrail.Sdk.Retry.{RetryOptions, with_retry}
use vguardrail.Sdk.Deadline.{with_timeout}
use vguardrail.Sdk.Version.{NegotiatedVersion, hello_params, negotiate}

-- `ResolvedRetry`
pub record ResolvedRetry : Type 0 where
  pub max_attempts : ℕ
  pub base_delay_ms : ℕ
  pub max_delay_ms : ℕ

-- `RetryConfig`
pub record RetryConfig : Type 0 where
  pub max_attempts : Option ℕ
  pub base_delay_ms : Option ℕ
  pub max_delay_ms : Option ℕ

abbrev pub default_timeout_ms : ℕ
default_timeout_ms = 2000

abbrev pub default_retry : ResolvedRetry
default_retry = record { max_attempts = 3; base_delay_ms = 50; max_delay_ms = 1000 }

-- `resolveRetry`
unfoldable pub resolve_retry : Option RetryConfig → ResolvedRetry
resolve_retry none = default_retry
resolve_retry (some c) = record {
  max_attempts = or_else c.max_attempts default_retry.max_attempts;
  base_delay_ms = or_else c.base_delay_ms default_retry.base_delay_ms;
  max_delay_ms = or_else c.max_delay_ms default_retry.max_delay_ms;
}

-- What the client is given and what it imports. `request` says when a request settles, and with
-- what; `abort` is the effect of the signal that a deadline fires.
pub record Deps (S : Type 0) : Type 0 where
  pub connect_transport : S → Outcome Thrown (Unit {0}) × S
  pub request : String → Json → S → ℕ × Outcome Thrown Json × S
  pub abort : S → S
  pub close_transport : S → S
  pub random_uuid : S → String × S
  pub now_ms : S → ℕ × S
  pub draw : ℕ → S → ℕ × S
  pub sleep : ℕ → S → S
  pub parse_hello : Json → Option NegotiatedVersion
  pub parse_decision : Json → Option DecisionWire
  pub timeout_ms : ℕ
  pub retry : ResolvedRetry

-- The client's own state beside the world.
pub record Client (S : Type 0) : Type 0 where
  pub negotiated : Option NegotiatedVersion
  pub world : S

pub data RetryClass : Type 0 where
  read write : RetryClass

-- `isWriteRetryable`
unfoldable pub is_write_retryable : Thrown → Bool
is_write_retryable (not_connected_error m) = true
is_write_retryable _ = false

-- `isAvailabilityError`
unfoldable pub is_availability_error : Thrown → Bool
unfolding code
is_availability_error (timeout_error m ms) = true
is_availability_error (not_connected_error m) = true
is_availability_error e = elim (code e) [
  | none ↦ false
  | some c ↦ elim c [
    | ErrorCode.transport ↦ true
    | ErrorCode.retry_exhausted ↦ true
    | ErrorCode.unavailable ↦ true
    | _ ↦ false
  ]
]

-- The first part of `unavailableReason`.
cause : Option ErrorCode → String
cause none = ""
cause (some ErrorCode.unavailable) = "policy engine unavailable"
cause (some c) = String.◌++◌ "connector unavailable (" (String.◌++◌ (code_text c) ")")

-- `unavailableReason`
pub unavailable_reason : Thrown → Action → String
unfolding cause
unavailable_reason e fallback_action =
    String.◌++◌ (cause (code e))
      (String.◌++◌ "; fail-closed \"" (String.◌++◌ (action_text fallback_action) "\" applied"))

module _ {S : Type 0} (deps : Deps S) where
  -- The classifier that a class of calls hands to `withRetry`.
  pub retryable_in : RetryClass → Thrown → Bool
  retryable_in read e = is_retryable e
  retryable_in write e = is_write_retryable e

  pub retry_options : RetryClass → RetryOptions S
  retry_options class = record {
    max_attempts = deps.retry.max_attempts;
    base_delay_ms = deps.retry.base_delay_ms;
    max_delay_ms = deps.retry.max_delay_ms;
    draw = deps.draw;
    sleep = deps.sleep;
    is_retryable = retryable_in class;
    on_retry = λ attempt delay error s. s;
  }

  -- One attempt of `invoke`.
  pub attempt : String → Json → ℕ → Act Thrown S Json
  attempt method params i =
      with_timeout (deps.request method params) deps.abort deps.timeout_ms method

  -- `invoke`
  pub invoke : String → Json → RetryClass → Act Thrown S Json
  invoke method params class = with_retry (attempt method params) (retry_options class)

  -- A call on the world, made by the client.
  abbrev pub on_world : {A : Type 0} → Act Thrown S A → Act Thrown (Client S) A
  on_world m c = let (r, s) = m c.world in (r, record c { world = s })

  abbrev pub throw_or : {A : Type 0} → Outcome Thrown A → Act Thrown (Client S) A
  throw_or r c = (r, c)

  -- `this.negotiated = negotiated`
  remember : NegotiatedVersion → Act Thrown (Client S) NegotiatedVersion
  remember v c = (ok v, record c { negotiated = some v })

  handshake : Act Thrown (Client S) NegotiatedVersion
  unfolding remember
  handshake = do
    _ ← on_world deps.connect_transport
    result ← on_world (invoke "hello" hello_params read)
    v ← throw_or (negotiate deps.parse_hello result)
    remember v

  connect_from : Option NegotiatedVersion → Act Thrown (Client S) NegotiatedVersion
  unfolding handshake
  connect_from (some v) = return v
  connect_from none = handshake

  -- `connect`
  pub connect : Act Thrown (Client S) NegotiatedVersion
  unfolding connect_from
  connect c = connect_from c.negotiated c

  -- `close`
  pub close : Client S → Client S
  close c = record c { negotiated = none; world = deps.close_transport c.world }

  ensure_from : Option NegotiatedVersion → Act Thrown (Client S) (Unit {0})
  unfolding connect
  ensure_from (some v) = return tt
  ensure_from none = connect >>= λ v c'. (ok tt, c')

  -- `ensureConnected`
  pub ensure_connected : Act Thrown (Client S) (Unit {0})
  unfolding ensure_from
  ensure_connected c = ensure_from c.negotiated c

  -- `decode`: a decoder's error that is no `ConnectorError` becomes a `ValidationError`.
  pub decode : {A : Type 0} → String → Outcome Thrown A → Outcome Thrown A
  decode what (ok a) = ok a
  decode what (err (foreign m)) =
      err
        (validation_error (String.◌++◌ "failed to decode " (String.◌++◌ what " from agent reply")))
  decode what (err e) = err e

  -- Reads of the world that cannot fail.
  abbrev pub ask : {A : Type 0} → (S → A × S) → Act Thrown (Client S) A
  ask f c = let (a, s) = f c.world in (ok a, record c { world = s })

  -- `scan`
  pub scan : ScanRequest → Act Thrown (Client S) ScanResponse
  scan request = do
    _ ← ensure_connected
    request_id ← ask deps.random_uuid
    started_at ← ask deps.now_ms
    result ← on_world (invoke "submitScan" (encode_scan_request request) write)
    now ← ask deps.now_ms
    decision ← throw_or (decode "Decision" (decode_decision deps.parse_decision result))
    λ c. (ok (make_scan_response decision request_id (now - started_at) none), c)

  -- The response that stands in for the engine's.
  fallback_response : Action → Thrown → String → ScanResponse
  fallback_response action error request_id =
      make_scan_response
        (synthetic_decision request_id action (unavailable_reason error action) none none)
        request_id 0 (some true)

  -- The handler of `safeScan`.
  pub fall_back : Action → Thrown → Act Thrown (Client S) ScanResponse
  unfolding fallback_response
  fall_back fallback_action error c =
      if is_availability_error error
      then and_then (ask deps.random_uuid c)
          (λ request_id c'. (ok (fallback_response fallback_action error request_id), c'))
      else (err error, c)

  -- `safeScan`
  pub safe_scan : ScanRequest → Option Action → Act Thrown (Client S) ScanResponse
  safe_scan request fallback_action c =
      or_handle (scan request c) (fall_back (or_else fallback_action block))
