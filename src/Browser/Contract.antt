-- ===== src/Browser/Contract.antt =====
-- browser-connectors/chrome/extension/src/shared/contract.ts. Its type of categories names
-- four; the host forwards whatever category the SDK knows, so that the SDK's type stands here.
use vguardrail.Base.{ℕ, String, Option, none, List, []}
use vguardrail.Base.Number.{Number}
use vguardrail.Sdk.Enums.{Action, block, RiskLevel, Severity, Category}

pub record Finding : Type 0 where
  pub detector_id : String
  pub category : Category
  pub kind : String
  pub severity : Severity
  pub redacted_preview : String

pub record Decision : Type 0 where
  pub request_id : String
  pub action : Action
  pub risk_level : RiskLevel
  pub risk_score : Option Number
  pub confidence : Option Number
  pub matched_rule_id : Option String
  pub severity : Option Severity
  pub findings : List Finding
  pub reason : String

abbrev pub send_anyway_threshold : ℕ
send_anyway_threshold = 55

abbrev pub warn_medium_floor : ℕ
warn_medium_floor = 20

-- `failClosedBlock`, with the id that it makes from the time
unfoldable pub fail_closed_block : String → String → Decision
fail_closed_block id reason = record {
  request_id = id;
  action = block;
  risk_level = RiskLevel.high;
  risk_score = none;
  confidence = none;
  matched_rule_id = none;
  severity = none;
  findings = [];
  reason = reason;
}
