-- ===== src/Sdk/AuditEvent.antt =====
-- connector-sdk/src/models/audit-event.ts: the event, its wire form and its codecs. As in
-- `Sdk/Codec`, the schema's `parse` is an argument, and `none` stands for a missing key or null.
pub mod RoundTrip
use mathlib.Core.Option
use vguardrail.Base.{ℕ, String, Bool, Option, none, some, List, [], ◌∷◌, map, Outcome, ok, err}
use vguardrail.Base.Number.{ℤ, of_ℕ}
use vguardrail.Json.{Json, bool, num, str, arr, obj, array, compact}
use vguardrail.Sdk.Enums.{Action, RiskLevel, Classification, Source, EventType}
use vguardrail.Sdk.Decision.{Finding, Suppression, Decision, schema_version}
use vguardrail.Sdk.ScanRequest.{ScanContext}
use vguardrail.Sdk.Errors.{Thrown, foreign}
use vguardrail.Sdk.Words.{action_text, risk_text, classification_text, source_text}
use vguardrail.Sdk.Codec.{
  FindingWire, SuppressionWire, decode_finding, decode_suppression, encode_finding,
  encode_suppression, int_json,
}

pub record AuditEvent : Type 0 where
  pub event_id : String
  pub schema : String
  pub event_type : EventType
  pub timestamp_ms : ℤ
  pub user_id : String
  pub device_id : String
  pub source : Option Source
  pub provider : Option String
  pub model : Option String
  pub app : Option String
  pub decision : Action
  pub risk_level : RiskLevel
  pub classification : Classification
  pub policy_version : ℕ
  pub matched_rule_id : Option String
  pub suppressions : List Suppression
  pub incomplete : Bool
  pub findings : List Finding

-- `AuditEventWireSchema`
pub record AuditEventWire : Type 0 where
  pub event_id : String
  pub schema : String
  pub event_type : EventType
  pub timestamp_ms : ℤ
  pub user_id : String
  pub device_id : String
  pub source : Option Source
  pub provider : Option String
  pub model : Option String
  pub app : Option String
  pub decision : Action
  pub risk_level : RiskLevel
  pub classification : Classification
  pub policy_version : ℕ
  pub matched_rule_id : Option String
  pub suppressions : List SuppressionWire
  pub incomplete : Bool
  pub findings : List FindingWire

-- `EventTypeSchema`
abbrev pub event_text : EventType → String
event_text EventType.prompt_submitted = "PromptSubmitted"
event_text EventType.policy_evaluated = "PolicyEvaluated"
event_text EventType.prompt_allowed = "PromptAllowed"
event_text EventType.prompt_warned = "PromptWarned"
event_text EventType.warning_accepted = "WarningAccepted"
event_text EventType.warning_rejected = "WarningRejected"
event_text EventType.prompt_blocked = "PromptBlocked"
event_text EventType.policy_violation = "PolicyViolation"
event_text EventType.upload_success = "UploadSuccess"
event_text EventType.upload_failure = "UploadFailure"
event_text EventType.agent_started = "AgentStarted"
event_text EventType.policy_updated = "PolicyUpdated"

unfoldable pub decode_event : AuditEventWire → AuditEvent
decode_event w = record {
  event_id = w.event_id;
  schema = w.schema;
  event_type = w.event_type;
  timestamp_ms = w.timestamp_ms;
  user_id = w.user_id;
  device_id = w.device_id;
  source = w.source;
  provider = w.provider;
  model = w.model;
  app = w.app;
  decision = w.decision;
  risk_level = w.risk_level;
  classification = w.classification;
  policy_version = w.policy_version;
  matched_rule_id = w.matched_rule_id;
  suppressions = map decode_suppression w.suppressions;
  incomplete = w.incomplete;
  findings = map decode_finding w.findings;
}

-- `decodeAuditEvent`
unfoldable pub decode_audit_event :
    (Json → Option AuditEventWire) → Json → Outcome Thrown AuditEvent
unfolding decode_event
decode_audit_event parse raw = elim (parse raw) [
  | none ↦ err (foreign "ZodError")
  | some w ↦ ok (decode_event w)
]

-- `encodeAuditEvent`
unfoldable pub encode_audit_event : AuditEvent → Json
encode_audit_event e = obj (
    compact (
      ("event_id", some (str e.event_id))
      ∷ ("schema", some (str e.schema))
      ∷ ("type", some (str (event_text e.event_type)))
      ∷ ("timestamp_ms", some (int_json e.timestamp_ms))
      ∷ ("user_id", some (str e.user_id))
      ∷ ("device_id", some (str e.device_id))
      ∷ ("source", Option.map (λ s. str (source_text s)) e.source)
      ∷ ("provider", Option.map (λ x. str x) e.provider)
      ∷ ("model", Option.map (λ x. str x) e.model)
      ∷ ("app", Option.map (λ x. str x) e.app)
      ∷ ("decision", some (str (action_text e.decision)))
      ∷ ("risk_level", some (str (risk_text e.risk_level)))
      ∷ ("classification", some (str (classification_text e.classification)))
      ∷ ("policy_version", some (num (of_ℕ e.policy_version)))
      ∷ ("matched_rule_id", Option.map (λ x. str x) e.matched_rule_id)
      ∷ ("suppressions", some (arr (array (map encode_suppression e.suppressions))))
      ∷ ("incomplete", some (bool e.incomplete))
      ∷ ("findings", some (arr (array (map encode_finding e.findings))))
      ∷ []))

-- `makeAuditEvent`
unfoldable pub make_audit_event :
    EventType → String → ℤ → ScanContext → String → Decision → AuditEvent
make_audit_event t event_id timestamp_ms context device_id d = record {
  event_id = event_id;
  schema = schema_version;
  event_type = t;
  timestamp_ms = timestamp_ms;
  user_id = context.user.user_id;
  device_id = device_id;
  source = context.source;
  provider = context.provider;
  model = context.model;
  app = context.app;
  decision = d.action;
  risk_level = d.risk_level;
  classification = d.classification;
  policy_version = d.policy_version;
  matched_rule_id = d.matched_rule_id;
  suppressions = d.suppressions;
  incomplete = d.incomplete;
  findings = d.findings;
}
