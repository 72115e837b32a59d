-- ===== src/Sdk/Codec.antt =====
-- connector-sdk/src/models/decision.ts: the wire form of a decision and its codecs. A schema's
-- `parse` is an argument: it turns JSON into the record that the schema describes, or throws
-- (`none`). In such a record `none` stands for a key that is missing or null.
pub mod RoundTrip
use mathlib.Core.Option
use vguardrail.Base.{ℕ, String, Bool, Option, none, some, List, [], ◌∷◌, map, Outcome, ok, err}
use vguardrail.Base.Number.{ℤ, Number, of_ℕ}
use vguardrail.Json.{Json, bool, num, str, arr, obj, array, object, compact}
use vguardrail.Sdk.Enums.{Action, RiskLevel, Severity, Classification, Category}
use vguardrail.Sdk.Decision.{Finding, Suppression, Decision}
use vguardrail.Sdk.Errors.{Thrown, foreign}
use vguardrail.Sdk.Words.{action_text, risk_text, severity_text, classification_text, category_text}

-- `FindingWireSchema`
pub record FindingWire : Type 0 where
  pub detector_id : String
  pub category : Category
  pub kind : String
  pub span_start : ℤ
  pub span_end : ℤ
  pub confidence : Number
  pub severity : Severity
  pub redacted_preview : String
  pub meta : List (String × String)

-- `SuppressionWireSchema`
pub record SuppressionWire : Type 0 where
  pub rule_id : String
  pub exception_id : String

-- `DecisionWireSchema`
pub record DecisionWire : Type 0 where
  pub request_id : String
  pub action : Action
  pub risk_level : RiskLevel
  pub classification : Classification
  pub category : Option Category
  pub matched_rule_id : Option String
  pub severity : Option Severity
  pub findings : List FindingWire
  pub suppressions : List SuppressionWire
  pub reason : String
  pub policy_version : ℕ
  pub elapsed_micros : ℕ
  pub incomplete : Bool

-- `decodeFinding`
unfoldable pub decode_finding : FindingWire → Finding
decode_finding w = record {
  detector_id = w.detector_id;
  category = w.category;
  kind = w.kind;
  span_start = w.span_start;
  span_end = w.span_end;
  confidence = w.confidence;
  severity = w.severity;
  redacted_preview = w.redacted_preview;
  meta = w.meta;
}

-- `decodeSuppression`
unfoldable pub decode_suppression : SuppressionWire → Suppression
decode_suppression w = record { rule_id = w.rule_id; exception_id = w.exception_id }

unfoldable pub decode_wire : DecisionWire → Decision
decode_wire w = record {
  request_id = w.request_id;
  action = w.action;
  risk_level = w.risk_level;
  classification = w.classification;
  category = w.category;
  matched_rule_id = w.matched_rule_id;
  severity = w.severity;
  findings = map decode_finding w.findings;
  suppressions = map decode_suppression w.suppressions;
  reason = w.reason;
  policy_version = w.policy_version;
  elapsed_micros = w.elapsed_micros;
  incomplete = w.incomplete;
}

-- `decodeDecision`
unfoldable pub decode_decision : (Json → Option DecisionWire) → Json → Outcome Thrown Decision
unfolding decode_wire
decode_decision parse raw = elim (parse raw) [
  | none ↦ err (foreign "ZodError")
  | some w ↦ ok (decode_wire w)
]

unfoldable pub int_json : ℤ → Json
int_json z = num (record { mantissa = z; scale = 0 })

unfoldable pub entry : String × String → String × Json
entry (k, v) = (k, str v)

-- `encodeFinding`
pub encode_finding : Finding → Json
unfolding int_json entry
encode_finding f = obj (
    object (
      ("detector_id", str f.detector_id)
      ∷ ("category", str (category_text f.category))
      ∷ ("kind", str f.kind)
      ∷ ("span_start", int_json f.span_start)
      ∷ ("span_end", int_json f.span_end)
      ∷ ("confidence", num f.confidence)
      ∷ ("severity", str (severity_text f.severity))
      ∷ ("redacted_preview", str f.redacted_preview)
      ∷ ("meta", obj (object (map entry f.meta)))
      ∷ []))

-- `encodeSuppression`
pub encode_suppression : Suppression → Json
encode_suppression s =
    obj (object (("rule_id", str s.rule_id) ∷ ("exception_id", str s.exception_id) ∷ []))

-- `encodeDecision`
pub encode_decision : Decision → Json
encode_decision d = obj (
    compact (
      ("request_id", some (str d.request_id))
      ∷ ("action", some (str (action_text d.action)))
      ∷ ("risk_level", some (str (risk_text d.risk_level)))
      ∷ ("classification", some (str (classification_text d.classification)))
      ∷ ("category", Option.map (λ c. str (category_text c)) d.category)
      ∷ ("matched_rule_id", Option.map (λ x. str x) d.matched_rule_id)
      ∷ ("severity", Option.map (λ s. str (severity_text s)) d.severity)
      ∷ ("findings", some (arr (array (map encode_finding d.findings))))
      ∷ ("suppressions", some (arr (array (map encode_suppression d.suppressions))))
      ∷ ("reason", some (str d.reason))
      ∷ ("policy_version", some (num (of_ℕ d.policy_version)))
      ∷ ("elapsed_micros", some (num (of_ℕ d.elapsed_micros)))
      ∷ ("incomplete", some (bool d.incomplete))
      ∷ []))
