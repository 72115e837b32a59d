-- ===== src/Sdk/Codec/RoundTrip.antt =====
-- What is encoded is decoded again, under what the schemas promise of well-formed objects.
use mathlib.Core.Option
use vguardrail.Base.{◌≡◌, refl, ap, ◌∙◌, Option, some, List, [], ◌∷◌, map, ok}
use vguardrail.Base.Number.{of_ℕ}
use vguardrail.Json.{Json, bool, num, str, arr, obj, array, object, compact}
use vguardrail.Sdk.Decision.{Finding, Suppression, Decision}
use vguardrail.Sdk.Words.{action_text, risk_text, severity_text, classification_text, category_text}
use vguardrail.Sdk.Codec.{
  FindingWire, SuppressionWire, DecisionWire, decode_finding, decode_suppression, decode_decision,
  encode_finding, encode_suppression, encode_decision, entry, decode_wire,
}

-- The JSON objects that the schemas describe, key by key.
pub finding_object : FindingWire → Json
finding_object w = obj (
    object (
      ("detector_id", str w.detector_id)
      ∷ ("category", str (category_text w.category))
      ∷ ("kind", str w.kind)
      ∷ ("span_start", num (record { mantissa = w.span_start; scale = 0 }))
      ∷ ("span_end", num (record { mantissa = w.span_end; scale = 0 }))
      ∷ ("confidence", num w.confidence)
      ∷ ("severity", str (severity_text w.severity))
      ∷ ("redacted_preview", str w.redacted_preview)
      ∷ ("meta", obj (object (map entry w.meta)))
      ∷ []))

pub suppression_object : SuppressionWire → Json
suppression_object w =
    obj (object (("rule_id", str w.rule_id) ∷ ("exception_id", str w.exception_id) ∷ []))

pub decision_object : DecisionWire → Json
unfolding finding_object suppression_object
decision_object w = obj (
    compact (
      ("request_id", some (str w.request_id))
      ∷ ("action", some (str (action_text w.action)))
      ∷ ("risk_level", some (str (risk_text w.risk_level)))
      ∷ ("classification", some (str (classification_text w.classification)))
      ∷ ("category", Option.map (λ c. str (category_text c)) w.category)
      ∷ ("matched_rule_id", Option.map (λ x. str x) w.matched_rule_id)
      ∷ ("severity", Option.map (λ s. str (severity_text s)) w.severity)
      ∷ ("findings", some (arr (array (map finding_object w.findings))))
      ∷ ("suppressions", some (arr (array (map suppression_object w.suppressions))))
      ∷ ("reason", some (str w.reason))
      ∷ ("policy_version", some (num (of_ℕ w.policy_version)))
      ∷ ("elapsed_micros", some (num (of_ℕ w.elapsed_micros)))
      ∷ ("incomplete", some (bool w.incomplete))
      ∷ []))

-- The wire record of a domain value.
unfoldable pub finding_wire : Finding → FindingWire
finding_wire f = record {
  detector_id = f.detector_id;
  category = f.category;
  kind = f.kind;
  span_start = f.span_start;
  span_end = f.span_end;
  confidence = f.confidence;
  severity = f.severity;
  redacted_preview = f.redacted_preview;
  meta = f.meta;
}

unfoldable pub suppression_wire : Suppression → SuppressionWire
suppression_wire s = record { rule_id = s.rule_id; exception_id = s.exception_id }

unfoldable pub decision_wire : Decision → DecisionWire
unfolding finding_wire suppression_wire
decision_wire d = record {
  request_id = d.request_id;
  action = d.action;
  risk_level = d.risk_level;
  classification = d.classification;
  category = d.category;
  matched_rule_id = d.matched_rule_id;
  severity = d.severity;
  findings = map finding_wire d.findings;
  suppressions = map suppression_wire d.suppressions;
  reason = d.reason;
  policy_version = d.policy_version;
  elapsed_micros = d.elapsed_micros;
  incomplete = d.incomplete;
}

pub encode_findings_lem :
    (fs : List Finding) → map encode_finding fs ≡ map finding_object (map finding_wire fs)
unfolding encode_finding finding_object finding_wire
encode_findings_lem [] = refl
encode_findings_lem (f ∷ fs) = ap (λ t. encode_finding f ∷ t) (encode_findings_lem fs)

pub encode_suppressions_lem :
    (ss : List Suppression)
    → map encode_suppression ss ≡ map suppression_object (map suppression_wire ss)
unfolding encode_suppression suppression_object suppression_wire
encode_suppressions_lem [] = refl
encode_suppressions_lem (s ∷ ss) = ap (λ t. encode_suppression s ∷ t) (encode_suppressions_lem ss)

pub decode_findings_lem : (fs : List Finding) → map decode_finding (map finding_wire fs) ≡ fs
unfolding decode_finding finding_wire
decode_findings_lem [] = refl
decode_findings_lem (f ∷ fs) = ap (λ t. f ∷ t) (decode_findings_lem fs)

pub decode_suppressions_lem :
    (ss : List Suppression) → map decode_suppression (map suppression_wire ss) ≡ ss
unfolding decode_suppression suppression_wire
decode_suppressions_lem [] = refl
decode_suppressions_lem (s ∷ ss) = ap (λ t. s ∷ t) (decode_suppressions_lem ss)

encode_decision_lem : (d : Decision) → encode_decision d ≡ decision_object (decision_wire d)
unfolding encode_decision decision_object decision_wire
encode_decision_lem d = rw (encode_findings_lem d.findings, encode_suppressions_lem d.suppressions)

decode-wire : (d : Decision) → decode_wire (decision_wire d) ≡ d
unfolding decode_wire decision_wire
decode-wire d = rw (decode_findings_lem d.findings, decode_suppressions_lem d.suppressions)

decode_of_parse :
    (parse : Json → Option DecisionWire) (raw : Json) {w : DecisionWire}
    → parse raw ≡ some w
    → decode_decision parse raw ≡ ok (decode_wire w)
unfolding decode_decision
decode_of_parse parse raw h = rw (h, decode_decision)

-- Where the schema turns the object that it describes for a decision into the record of its keys,
-- a decision that is encoded is decoded to itself: no field is dropped, renamed or changed.
pub decode-encode :
    (parse : Json → Option DecisionWire) (d : Decision)
    → parse (decision_object (decision_wire d)) ≡ some (decision_wire d)
    → decode_decision parse (encode_decision d) ≡ ok d
decode-encode parse d accepted =
    decode_of_parse parse _ (ap parse (encode_decision_lem d) ∙ accepted)
    ∙ ap (λ t. ok t) (decode-wire d)
