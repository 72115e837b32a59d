-- ===== src/Sdk/AuditEvent/RoundTrip.antt =====
-- An audit event that is encoded is decoded again.
use mathlib.Core.Option
use vguardrail.Base.{◌≡◌, ap, ◌∙◌, Option, some, [], ◌∷◌, map, ok}
use vguardrail.Base.Number.{of_ℕ}
use vguardrail.Json.{Json, bool, num, str, arr, obj, array, compact}
use vguardrail.Sdk.Words.{action_text, risk_text, classification_text, source_text}
use vguardrail.Sdk.Codec.{int_json}
use vguardrail.Sdk.Codec.RoundTrip.{
  finding_object, suppression_object, finding_wire, suppression_wire, encode_findings_lem,
  encode_suppressions_lem, decode_findings_lem, decode_suppressions_lem,
}
use vguardrail.Sdk.AuditEvent.{
  AuditEvent, AuditEventWire, event_text, decode_event, decode_audit_event, encode_audit_event,
}

-- The JSON object that the schema describes, key by key.
pub event_object : AuditEventWire → Json
event_object w = obj (
    compact (
      ("event_id", some (str w.event_id))
      ∷ ("schema", some (str w.schema))
      ∷ ("type", some (str (event_text w.event_type)))
      ∷ ("timestamp_ms", some (int_json w.timestamp_ms))
      ∷ ("user_id", some (str w.user_id))
      ∷ ("device_id", some (str w.device_id))
      ∷ ("source", Option.map (λ s. str (source_text s)) w.source)
      ∷ ("provider", Option.map (λ x. str x) w.provider)
      ∷ ("model", Option.map (λ x. str x) w.model)
      ∷ ("app", Option.map (λ x. str x) w.app)
      ∷ ("decision", some (str (action_text w.decision)))
      ∷ ("risk_level", some (str (risk_text w.risk_level)))
      ∷ ("classification", some (str (classification_text w.classification)))
      ∷ ("policy_version", some (num (of_ℕ w.policy_version)))
      ∷ ("matched_rule_id", Option.map (λ x. str x) w.matched_rule_id)
      ∷ ("suppressions", some (arr (array (map suppression_object w.suppressions))))
      ∷ ("incomplete", some (bool w.incomplete))
      ∷ ("findings", some (arr (array (map finding_object w.findings))))
      ∷ []))

-- The wire record of an event.
unfoldable pub event_wire : AuditEvent → AuditEventWire
event_wire e = record {
  event_id = e.event_id;
  schema = e.schema;
  event_type = e.event_type;
  timestamp_ms = e.timestamp_ms;
  user_id = e.user_id;
  device_id = e.device_id;
  source = e.source;
  provider = e.provider;
  model = e.model;
  app = e.app;
  decision = e.decision;
  risk_level = e.risk_level;
  classification = e.classification;
  policy_version = e.policy_version;
  matched_rule_id = e.matched_rule_id;
  suppressions = map suppression_wire e.suppressions;
  incomplete = e.incomplete;
  findings = map finding_wire e.findings;
}

encode_event_lem : (e : AuditEvent) → encode_audit_event e ≡ event_object (event_wire e)
unfolding encode_audit_event event_object event_wire
encode_event_lem e = rw (encode_findings_lem e.findings, encode_suppressions_lem e.suppressions)

decode_event-wire : (e : AuditEvent) → decode_event (event_wire e) ≡ e
unfolding decode_event event_wire
decode_event-wire e = rw (decode_findings_lem e.findings, decode_suppressions_lem e.suppressions)

decode_of_schema :
    (parse : Json → Option AuditEventWire) (raw : Json) {w : AuditEventWire}
    → parse raw ≡ some w
    → decode_audit_event parse raw ≡ ok (decode_event w)
unfolding decode_audit_event
decode_of_schema parse raw h = rw (h, decode_audit_event)

-- Where the schema turns the object that it describes for an event into the record of its keys, an
-- event that is encoded is decoded to itself.
pub decode-encode_event :
    (parse : Json → Option AuditEventWire) (e : AuditEvent)
    → parse (event_object (event_wire e)) ≡ some (event_wire e)
    → decode_audit_event parse (encode_audit_event e) ≡ ok e
decode-encode_event parse e accepted =
    decode_of_schema parse _ (ap parse (encode_event_lem e) ∙ accepted)
    ∙ ap (λ t. ok t) (decode_event-wire e)
