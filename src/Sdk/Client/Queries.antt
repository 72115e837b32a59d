-- ===== src/Sdk/Client/Queries.antt =====
-- The other calls of `ConnectorClient`: `status`, `acknowledgeWarning`, `recentDecisions`.
use vguardrail.Base.{ℕ, String, Bool, Option, List, [], ◌∷◌, Outcome, ok, Act, ◌>>=◌}
use vguardrail.Base.Number.{of_ℕ}
use vguardrail.Json.{Json, obj, object, bool, str, num, end}
use vguardrail.Sdk.Errors.{Thrown}
use vguardrail.Sdk.AgentStatus.{
  AgentStatus, DecisionSummary, decode_agent_status, decode_decision_summaries, schema_error,
}
use vguardrail.Sdk.Client.{
  Deps, Client, read, write, ensure_connected, invoke, on_world, throw_or, decode,
}

-- `z.boolean().parse`
abbrev parse_boolean : Json → Outcome Thrown Bool
parse_boolean (bool b) = ok b
parse_boolean _ = schema_error

module _ {S : Type 0} (deps : Deps S) where
  -- `status`
  pub status : (Json → Option AgentStatus) → Act Thrown (Client S) AgentStatus
  status parse = do
    _ ← ensure_connected deps
    result ← on_world deps (invoke deps "getStatus" (obj end) read)
    throw_or deps (decode deps "AgentStatus" (decode_agent_status parse result))

  -- `acknowledgeWarning`
  pub acknowledge_warning : String → Bool → Act Thrown (Client S) Bool
  acknowledge_warning event_id accepted = do
    _ ← ensure_connected deps
    result ← on_world deps (
        invoke deps "acknowledgeWarning"
          (obj (object (("eventID", str event_id) ∷ ("accepted", bool accepted) ∷ []))) write)
    throw_or deps (decode deps "boolean" (parse_boolean result))

  -- `recentDecisions`
  pub recent_decisions :
      (Json → Option DecisionSummary) → ℕ → Act Thrown (Client S) (List DecisionSummary)
  recent_decisions parse limit = do
    _ ← ensure_connected deps
    result ←
        on_world deps
          (invoke deps "recentDecisions" (obj (object (("limit", num (of_ℕ limit)) ∷ []))) read)
    throw_or deps (decode deps "DecisionSummary[]" (decode_decision_summaries parse result))
