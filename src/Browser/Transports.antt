-- ===== src/Browser/Transports.antt =====
-- browser-connectors/chrome/extension/src/background/transport.ts, the transports under
-- background/transports, and background/service-worker.ts. What is thrown is only logged, so that a
-- failure is `err tt`. The calls of the browser and of backend/http-client.ts act on a world `S`.
pub mod Chain
pub mod Tests
use vguardrail.Base.{
  String, Bool, true, false, ◌&&◌, Option, none, some, List, [], ◌∷◌, Outcome, ok, err,
  if◌then◌else◌,
}
use vguardrail.Browser.Contract.{Decision, fail_closed_block}
use vguardrail.Browser.NativeBridge.{NativeResponse, scan_response, ack_response, error_response}

-- `NativeScanContext`
pub record NativeScanContext : Type 0 where
  pub provider : Option String
  pub model : Option String
  pub app : Option String
  pub url : Option String
  pub title : Option String

pub record ScanFile : Type 0 where
  pub name : String
  pub mime : Option String
  pub content_base64 : String

pub data NativeRequest : Type 0 where
  scan_request : String → String → NativeScanContext → NativeRequest
  ack_request : String → String → Bool → NativeRequest

-- `ScanTransport`
pub record ScanTransport (S : Type 0) : Type 0 where
  pub scan :
      String → NativeScanContext → Option (List ScanFile) → S → Outcome (Unit {0}) Decision × S
  pub ack : String → Bool → S → Bool × S

-- What the background calls: `request` is the promise of the native bridge, which is always
-- fulfilled; `send` is `sendNativeMessage`, where `none` is a message without a string as its id.
pub record Calls (S : Type 0) : Type 0 where
  pub local_id : S → String × S  -- `local-` and the time
  pub random_uuid : S → String × S
  pub request : NativeRequest → S → NativeResponse × S
  pub send : NativeRequest → S → Outcome (Unit {0}) (Option NativeResponse) × S
  pub scan_via_http :
      String → NativeScanContext → Option (List ScanFile) → S → Outcome (Unit {0}) Decision × S
  pub register_device : S → Outcome (Unit {0}) (Unit {0}) × S
  pub ack_via_http : String → Bool → S → Outcome (Unit {0}) Bool × S

-- The decision of a response, for both `scan`s.
unfoldable pub decision_of : NativeResponse → Outcome (Unit {0}) Decision
decision_of (scan_response id d) = ok d
decision_of (ack_response id accepted) = err tt
decision_of (error_response id code message) = err tt

-- The answer of a response, for both `ack`s.
unfoldable pub accepted_of : NativeResponse → Bool
accepted_of (scan_response id d) = false
accepted_of (ack_response id accepted) = accepted
accepted_of (error_response id code message) = false

-- `toResponse`, of what `send` gives
unfoldable pub to_response :
    Outcome (Unit {0}) (Option NativeResponse) → Outcome (Unit {0}) NativeResponse
to_response (ok (some r)) = ok r
to_response (ok none) = err tt
to_response (err e) = err e

unfoldable pub has_files : Option (List ScanFile) → Bool
has_files none = false
has_files (some []) = false
has_files (some (f ∷ fs)) = true

unfoldable pub app_decision : Outcome (Unit {0}) NativeResponse → Outcome (Unit {0}) Decision
unfolding decision_of
app_decision (ok r) = decision_of r
app_decision (err e) = err e

unfoldable pub app_accepted : Outcome (Unit {0}) NativeResponse → Bool
unfolding accepted_of
app_accepted (ok r) = accepted_of r
app_accepted (err e) = false

unfoldable pub scan_next :
    {S : Type 0} → Outcome (Unit {0}) Decision × S → (S → Decision × S) → Decision × S
scan_next (ok d, s) rest = (d, s)
scan_next (err e, s) rest = rest s

unfoldable pub ack_next : {S : Type 0} → Bool × S → (S → Bool × S) → Bool × S
ack_next (true, s) rest = (true, s)
ack_next (false, s) rest = rest s

module _ {S : Type 0} (calls : Calls S) where
  -- `scanThroughTransports`
  unfoldable pub scan_through_transports :
      List (ScanTransport S)
      → String
      → NativeScanContext
      → Option (List ScanFile)
      → S
      → Decision × S
  unfolding scan_next fail_closed_block
  scan_through_transports [] t context files s =
      let (id, s') = calls.local_id s in
      (fail_closed_block id "agent unavailable; prompt blocked", s')
  scan_through_transports (transport ∷ rest) t context files s =
      scan_next (transport.scan t context files s)
        (λ s'. scan_through_transports rest t context files s')

  -- `ackThroughTransports`
  unfoldable pub ack_through_transports : List (ScanTransport S) → String → Bool → S → Bool × S
  unfolding ack_next
  ack_through_transports [] event_id accepted s = (false, s)
  ack_through_transports (transport ∷ rest) event_id accepted s =
      ack_next (transport.ack event_id accepted s)
        (λ s'. ack_through_transports rest event_id accepted s')

  unfoldable pub native_scan_as :
      Bool → String → NativeScanContext → S → Outcome (Unit {0}) Decision × S
  unfolding decision_of
  native_scan_as true t context s = (err tt, s)
  native_scan_as false t context s =
      let (id, s1) = calls.random_uuid s in
      let (r, s2) = calls.request (scan_request id t context) s1 in (decision_of r, s2)

  unfoldable pub native_ack : String → Bool → S → Bool × S
  unfolding accepted_of
  native_ack event_id accepted s =
      let (id, s1) = calls.random_uuid s in
      let (r, s2) = calls.request (ack_request id event_id accepted) s1 in (accepted_of r, s2)

  -- `NativeHostTransport`
  unfoldable pub native_host_transport : ScanTransport S
  unfolding native_scan_as has_files native_ack
  native_host_transport = record {
    scan = λ t context files s. native_scan_as (has_files files) t context s;
    ack = native_ack;
  }

  unfoldable pub safari_scan : String → NativeScanContext → S → Outcome (Unit {0}) Decision × S
  unfolding app_decision to_response
  safari_scan t context s =
      let (id, s1) = calls.random_uuid s in
      let (out, s2) = calls.send (scan_request id t context) s1 in
      (app_decision (to_response out), s2)

  unfoldable pub safari_ack : String → Bool → S → Bool × S
  unfolding app_accepted to_response
  safari_ack event_id accepted s =
      let (id, s1) = calls.random_uuid s in
      let (out, s2) = calls.send (ack_request id event_id accepted) s1 in
      (app_accepted (to_response out), s2)

  -- `SafariAppTransport`
  unfoldable pub safari_app_transport : ScanTransport S
  unfolding safari_scan safari_ack
  safari_app_transport = record {
    scan = λ t context files s. safari_scan t context s;
    ack = safari_ack;
  }

  unfoldable pub registered :
      String
      → NativeScanContext
      → Option (List ScanFile)
      → Outcome (Unit {0}) (Unit {0}) × S
      → Outcome (Unit {0}) Decision × S
  registered t context files (ok _, s) = calls.scan_via_http t context files s
  registered t context files (err e, s) = (err e, s)

  unfoldable pub http_scanned :
      String
      → NativeScanContext
      → Option (List ScanFile)
      → Outcome (Unit {0}) Decision × S
      → Outcome (Unit {0}) Decision × S
  unfolding registered
  http_scanned t context files (ok d, s) = (ok d, s)
  http_scanned t context files (err e, s) = registered t context files (calls.register_device s)

  unfoldable pub http_acked : Outcome (Unit {0}) Bool × S → Bool × S
  http_acked (ok accepted, s) = (accepted, s)
  http_acked (err e, s) = (false, s)

  -- `HttpBackendTransport`
  unfoldable pub http_backend_transport : ScanTransport S
  unfolding http_scanned http_acked
  http_backend_transport = record {
    scan =
        λ t context files s. http_scanned t context files (calls.scan_via_http t context files s);
    ack = λ event_id accepted s. http_acked (calls.ack_via_http event_id accepted s);
  }
