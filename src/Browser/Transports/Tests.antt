-- ===== src/Browser/Transports/Tests.antt =====
-- A chain of the native host, which cannot be reached, and of the backend for development, whose
-- first scan fails for want of a token. The world counts the calls.
use vguardrail.Base.{
  ◌≡◌, refl, ltb, ◌↔◌, ℕ, none, some, List, [], ◌∷◌, ok, err, true, if◌then◌else◌,
}
use vguardrail.Sdk.Enums.{allow, block, RiskLevel}
use vguardrail.Browser.Contract.{Decision}
use vguardrail.Browser.NativeBridge.{error_response}
use vguardrail.Browser.Transports.{
  NativeScanContext, Calls, ScanTransport, native_host_transport, http_backend_transport,
  scan_through_transports, scan_next, native_scan_as, has_files, decision_of, http_scanned,
  registered,
}
use vguardrail.Browser.Transports.Chain.{Delivered, scan_through_transports_iff}

abbrev pub harmless : Decision
harmless = record {
  request_id = "r1";
  action = allow;
  risk_level = RiskLevel.low;
  risk_score = none;
  confidence = none;
  matched_rule_id = none;
  severity = none;
  findings = [];
  reason = "";
}

abbrev pub page : NativeScanContext
page = record { provider = some "openai"; model = none; app = none; url = none; title = none }

abbrev pub offline : Calls ℕ
offline = record {
  local_id = λ s. ("local-1", ℕ.suc s);
  random_uuid = λ s. ("u", ℕ.suc s);
  request = λ m s. (error_response "u" "DISCONNECT" "native host unavailable", ℕ.suc s);
  send = λ m s. (err tt, ℕ.suc s);
  scan_via_http =
      λ t context files s. if ltb s 4 then (err tt, ℕ.suc s) else (ok harmless, ℕ.suc s);
  register_device = λ s. (ok tt, ℕ.suc s);
  ack_via_http = λ event_id accepted s. (ok true, ℕ.suc s);
}

allow_is_no_block : harmless.action ≡ block → ⊥
allow_is_no_block h = absurd (cc)

abbrev chromium : List (ScanTransport ℕ)
chromium = native_host_transport offline ∷ http_backend_transport offline ∷ []

scan_through_transports_iff_example :
    (scan_through_transports offline chromium "hi" page none 0 ≡ (harmless, 5))
    ↔ Delivered offline "hi" page none harmless 5 chromium 0
scan_through_transports_iff_example =
    scan_through_transports_iff offline "hi" page none harmless 5 allow_is_no_block chromium 0

scanned_twice : scan_through_transports offline chromium "hi" page none 0 ≡ (harmless, 5)
unfolding scan_through_transports scan_next native_host_transport native_scan_as has_files
    decision_of http_backend_transport http_scanned registered
scanned_twice = refl
