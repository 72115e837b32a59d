-- ===== src/Sdk/Client/Tests.antt =====
-- Concrete runs of the client.
use vguardrail.Base.{
  ◌≡◌, refl, ℕ, ◌+◌, ◌≤◌, false, not, ltb, Option, none, some, List, [], ◌∷◌, Outcome, ok, err,
  if◌then◌else◌, ◌>>=◌,
}
use vguardrail.Base.Number.{pos, of_ℕ}
use vguardrail.Base.Text.{str_eq}
use vguardrail.Base.Units.{units}
use vguardrail.Json.{Json, null}
use vguardrail.Sdk.Enums.{Action, allow, warn, RiskLevel, Severity, Classification, Category, Role}
use vguardrail.Sdk.Errors.{Thrown, engine_unavailable_error, not_connected_error}
use vguardrail.Sdk.Deadline.{with_timeout}
use vguardrail.Sdk.Retry.{with_retry, retry_loop, attempts, after_attempt}
use vguardrail.Sdk.Decision.{Finding, Decision, ScanResponse, make_scan_response}
use vguardrail.Sdk.Codec.{decode_decision, decode_wire, decode_finding}
use vguardrail.Sdk.Codec.RoundTrip.{decision_wire}
use vguardrail.Sdk.ScanRequest.{ScanRequest}
use vguardrail.Sdk.Version.{NegotiatedVersion, negotiate, check_version}
use vguardrail.Sdk.Client.{
  Deps, Client, scan, safe_scan, default_retry, ensure_connected, ensure_from, connect,
  connect_from, handshake, remember, invoke, attempt, retry_options, decode, retryable_in,
  is_write_retryable,
}
use vguardrail.Sdk.Client.Safety.{Course, safe_scan-Course}
use vguardrail.Sdk.Client.Submit.{tallied, tally_of, scan-at_most_once}

abbrev pub secret_finding : Finding
secret_finding = record {
  detector_id = "aws";
  category = Category.secret;
  kind = "key";
  span_start = pos 0;
  span_end = pos 4;
  confidence = of_ℕ 1;
  severity = Severity.high;
  redacted_preview = "A***";
  meta = [];
}

abbrev pub pii_finding : Finding
pii_finding = record {
  detector_id = "mail";
  category = Category.pii;
  kind = "email";
  span_start = pos 9;
  span_end = pos 12;
  confidence = of_ℕ 1;
  severity = Severity.low;
  redacted_preview = "a***";
  meta = [];
}

abbrev pub findings : List Finding
findings = pii_finding ∷ secret_finding ∷ pii_finding ∷ []

abbrev pub decision : Action → Decision
decision a = record {
  request_id = "r1";
  action = a;
  risk_level = RiskLevel.low;
  classification = Classification.internal;
  category = some Category.secret;
  matched_rule_id = none;
  severity = none;
  findings = findings;
  suppressions = [];
  reason = "why";
  policy_version = 3;
  elapsed_micros = 8;
  incomplete = false;
}

abbrev pub request : ScanRequest
request = record {
  text = units "hello";
  context = record {
    source = none;
    provider = none;
    model = none;
    app = none;
    repo = none;
    file = none;
    user = record { user_id = "u"; role = Role.user; groups = [] };
  };
}

-- A world that counts the prompts that the daemon has seen; `answer` is what it says of one.
abbrev pub counting : Outcome Thrown Json → Deps ℕ
counting answer = record {
  connect_transport = λ s. (ok tt, s);
  request = λ m p s. if str_eq m "submitScan" then (5, answer, s + 1) else (5, ok null, s);
  abort = λ s. s;
  close_transport = λ s. s;
  random_uuid = λ s. ("id", s);
  now_ms = λ s. (0, s);
  draw = λ cap s. (0, s);
  sleep = λ ms s. s;
  parse_hello = λ j. some (record { proto = pos 1; schema = "vguardrail.event/v1"; agent = "a" });
  parse_decision = λ j. some (decision_wire (decision allow));
  timeout_ms = 2000;
  retry = default_retry;
}

abbrev pub fresh : Client ℕ
fresh = record { negotiated = none; world = 0 }

-- A transport that loses its connection under the first two requests to submit.
abbrev shaky : Deps ℕ
shaky = record (counting (ok null)) {
  request = λ m p s.
      if not (str_eq m "submitScan")
      then (5, ok null, s)
      else if ltb s 2
      then (5, err (not_connected_error "lost"), s + 1)
      else (5, ok null, s + 1);
}

abbrev ready : Client (ℕ × ℕ)
ready = record {
  negotiated = some (record { proto = pos 1; schema = "vguardrail.event/v1"; agent = "a" });
  world = (0, 0);
}

scan-at_most_once_example : (scan (tallied shaky) request ready).1.world.1 ≤ 0 + 1
scan-at_most_once_example = scan-at_most_once shaky request ready

-- Its third request is answered.
submitted_thrice : (scan (tallied shaky) request ready).1.world ≡ (3, 1)
unfolding scan ensure_connected ensure_from invoke with_retry retry_loop attempts after_attempt
    attempt with_timeout retry_options retryable_in is_write_retryable tallied tally_of decode
    decode_decision decode_wire decode_finding ◌>>=◌
submitted_thrice = refl

abbrev pub away : Deps ℕ
away = counting (err (engine_unavailable_error "down"))

safe_scan-Course_example :
    Course away request (some warn) fresh (safe_scan away request (some warn) fresh)
safe_scan-Course_example = safe_scan-Course away request (some warn) fresh

abbrev pub version : NegotiatedVersion
version = record { proto = pos 1; schema = "vguardrail.event/v1"; agent = "a" }

abbrev response : ScanResponse
response = record {
  decision = decision allow;
  request_id = "id";
  elapsed_ms = 0;
  schema_version = "vguardrail.event/v1";
  from_fallback = false;
}

abbrev pub afterwards : Client ℕ
afterwards = record { negotiated = some version; world = 1 }

pub scanned : (r : ScanRequest) → scan (counting (ok null)) r fresh ≡ (ok response, afterwards)
unfolding scan ensure_connected ensure_from connect connect_from handshake remember invoke attempt
    with_timeout with_retry retry_loop attempts after_attempt retry_options negotiate check_version
    decode decode_decision decode_wire make_scan_response decision_wire decode_finding ◌>>=◌
scanned r = refl

pub away-fails :
    (r : ScanRequest) → scan away r fresh ≡ (err (engine_unavailable_error "down"), afterwards)
unfolding scan ensure_connected ensure_from connect connect_from handshake remember invoke attempt
    with_timeout with_retry retry_loop attempts after_attempt retry_options retryable_in
    is_write_retryable negotiate check_version ◌>>=◌
away-fails r = refl

pub safely_scanned :
    (r : ScanRequest) (fallback : Option Action)
    → safe_scan (counting (ok null)) r fallback fresh ≡ (ok response, afterwards)
unfolding safe_scan
safely_scanned r fallback = rw (scanned r) refl
