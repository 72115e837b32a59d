-- ===== src/Sdk/Decision.antt =====
-- connector-sdk/src/models/decision.ts and scan-response.ts: the domain types.
use vguardrail.Base.{ℕ, String, Bool, true, false, Option, none, some, List, []}
use vguardrail.Base.Number.{ℤ, Number}
use vguardrail.Sdk.Enums.{Action, RiskLevel, Severity, Classification, Category}

pub record Finding : Type 0 where
  pub detector_id : String
  pub category : Category
  pub kind : String
  pub span_start : ℤ
  pub span_end : ℤ
  pub confidence : Number
  pub severity : Severity
  pub redacted_preview : String
  pub meta : List (String × String)

pub record Suppression : Type 0 where
  pub rule_id : String
  pub exception_id : String

pub record Decision : Type 0 where
  pub request_id : String
  pub action : Action
  pub risk_level : RiskLevel
  pub classification : Classification
  pub category : Option Category
  pub matched_rule_id : Option String
  pub severity : Option Severity
  pub findings : List Finding
  pub suppressions : List Suppression
  pub reason : String
  pub policy_version : ℕ
  pub elapsed_micros : ℕ
  pub incomplete : Bool

pub record ScanResponse : Type 0 where
  pub decision : Decision
  pub request_id : String
  pub elapsed_ms : ℕ
  pub schema_version : String
  pub from_fallback : Bool

abbrev pub schema_version : String
schema_version = "vguardrail.event/v1"

abbrev pub or_else {ℓ} : {A : Type ℓ} → Option A → A → A
or_else none d = d
or_else (some a) d = a

-- `makeScanResponse`
unfoldable pub make_scan_response : Decision → String → ℕ → Option Bool → ScanResponse
make_scan_response decision request_id elapsed_ms from_fallback = record {
  decision = decision;
  request_id = request_id;
  elapsed_ms = elapsed_ms;
  schema_version = schema_version;
  from_fallback = or_else from_fallback false;
}

-- `syntheticDecision`
unfoldable pub synthetic_decision :
    String → Action → String → Option RiskLevel → Option Classification → Decision
synthetic_decision request_id action reason risk_level classification = record {
  request_id = request_id;
  action = action;
  risk_level = or_else risk_level RiskLevel.high;
  classification = or_else classification Classification.internal;
  category = none;
  matched_rule_id = none;
  severity = none;
  findings = [];
  suppressions = [];
  reason = reason;
  policy_version = 0;
  elapsed_micros = 0;
  incomplete = true;
}
