-- ===== src/Sdk/AgentStatus.antt =====
-- connector-sdk/src/models/agent-status.ts: the health of the agent and recent decisions, with
-- their wire forms and codecs. A schema's `parse` is an argument, as in Sdk/Codec.
use mathlib.Core.Option
use vguardrail.Base.{ℕ, String, Bool, Option, none, some, List, [], ◌∷◌, Outcome, ok, err}
use vguardrail.Base.Number.{ℤ, of_ℕ}
use vguardrail.Json.{Json, bool, num, str, obj, compact, Items, nil, cons}
use vguardrail.Sdk.Enums.{Action, RiskLevel}
use vguardrail.Sdk.Errors.{Thrown, foreign}
use vguardrail.Sdk.Words.{action_text, risk_text}

-- `AgentStatus`, and what `AgentStatusWireSchema` reads
pub record AgentStatus : Type 0 where
  pub engine_serving : Bool
  pub active_policy_version : ℕ
  pub queued_events : ℕ
  pub last_upload_outcome : Option String
  pub engine_connected : Bool
  pub agent_version : String

-- `DecisionSummary`, and what `DecisionSummaryWireSchema` reads
pub record DecisionSummary : Type 0 where
  pub request_id : String
  pub timestamp_ms : ℤ
  pub action : Action
  pub risk_level : RiskLevel
  pub matched_rule_id : Option String
  pub provider : Option String
  pub app : Option String

abbrev pub schema_error : {A : Type 0} → Outcome Thrown A
schema_error = err (foreign "ZodError")

-- `decodeAgentStatus`
unfoldable pub decode_agent_status : (Json → Option AgentStatus) → Json → Outcome Thrown AgentStatus
decode_agent_status parse raw = elim (parse raw) [
  | none ↦ schema_error
  | some w ↦ ok (record {
    engine_serving = w.engine_serving;
    active_policy_version = w.active_policy_version;
    queued_events = w.queued_events;
    last_upload_outcome = w.last_upload_outcome;
    engine_connected = w.engine_connected;
    agent_version = w.agent_version;
  })
]

-- `encodeAgentStatus`
unfoldable pub encode_agent_status : AgentStatus → Json
encode_agent_status s = obj (
    compact (
      ("engineServing", some (bool s.engine_serving))
      ∷ ("activePolicyVersion", some (num (of_ℕ s.active_policy_version)))
      ∷ ("queuedEvents", some (num (of_ℕ s.queued_events)))
      ∷ ("lastUploadOutcome", Option.map (λ x. str x) s.last_upload_outcome)
      ∷ ("engineConnected", some (bool s.engine_connected))
      ∷ ("agentVersion", some (str s.agent_version))
      ∷ []))

-- `decodeDecisionSummary`
unfoldable pub decode_decision_summary :
    (Json → Option DecisionSummary) → Json → Outcome Thrown DecisionSummary
decode_decision_summary parse raw = elim (parse raw) [
  | none ↦ schema_error
  | some w ↦ ok (record {
    request_id = w.request_id;
    timestamp_ms = w.timestamp_ms;
    action = w.action;
    risk_level = w.risk_level;
    matched_rule_id = w.matched_rule_id;
    provider = w.provider;
    app = w.app;
  })
]

summary_and :
    Outcome Thrown DecisionSummary
    → Outcome Thrown (List DecisionSummary)
    → Outcome Thrown (List DecisionSummary)
summary_and (ok d) (ok ds) = ok (d ∷ ds)
summary_and (ok d) (err e) = err e
summary_and (err e) rest = err e

pub decode_items : (Json → Option DecisionSummary) → Items → Outcome Thrown (List DecisionSummary)
unfolding summary_and
decode_items parse nil = ok []
decode_items parse (cons x xs) =
    summary_and (decode_decision_summary parse x) (decode_items parse xs)

-- `decodeDecisionSummaries`
unfoldable pub decode_decision_summaries :
    (Json → Option DecisionSummary) → Json → Outcome Thrown (List DecisionSummary)
unfolding decode_items
decode_decision_summaries parse (Json.arr items) = decode_items parse items
decode_decision_summaries parse _ = schema_error

-- `encodeDecisionSummary`
unfoldable pub encode_decision_summary : DecisionSummary → Json
encode_decision_summary d = obj (
    compact (
      ("requestID", some (str d.request_id))
      ∷ ("timestampMs", some (num (record { mantissa = d.timestamp_ms; scale = 0 })))
      ∷ ("action", some (str (action_text d.action)))
      ∷ ("riskLevel", some (str (risk_text d.risk_level)))
      ∷ ("matchedRuleID", Option.map (λ x. str x) d.matched_rule_id)
      ∷ ("provider", Option.map (λ x. str x) d.provider)
      ∷ ("app", Option.map (λ x. str x) d.app)
      ∷ []))
