-- ===== src/Cli/PolicyClient.antt =====
-- cli-connectors/framework/src/sdk/client.ts: the policy client of the command line.
use Prim.Native.String
use vguardrail.Base.{String, Bool, true, false, Option, some, Outcome, ok, err, Act}
use vguardrail.Json.{Json}
use vguardrail.Sdk.Enums.{block}
use vguardrail.Sdk.Decision.{Decision, ScanResponse}
use vguardrail.Sdk.ScanRequest.{ScanRequest}
use vguardrail.Sdk.Errors.{Thrown, version_mismatch_error, validation_error, foreign, message}
use vguardrail.Sdk.AgentStatus.{AgentStatus}
use vguardrail.Sdk.Client.{Deps, Client, scan, safe_scan}
use vguardrail.Sdk.Client.Queries.{status, acknowledge_warning}

-- What the handler of `scan` throws on.
policy_error : Thrown → Thrown
policy_error (validation_error m) = validation_error m
policy_error (version_mismatch_error m) = version_mismatch_error m
policy_error e = foreign (String.◌++◌ "Policy evaluation failed: " (message e))

unfoldable pub decided :
    {S : Type 0} → Outcome Thrown ScanResponse × S → Outcome Thrown Decision × S
unfolding policy_error
decided (ok r, s) = (ok r.decision, s)
decided (err e, s) = (err (policy_error e), s)

module _ {S : Type 0} (deps : Deps S) where
  -- `scan`
  unfoldable pub policy_scan : ScanRequest → Act Thrown (Client S) Decision
  unfolding decided
  policy_scan request c = decided (safe_scan deps request (some block) c)

  strict : Outcome Thrown ScanResponse × Client S → Outcome Thrown Decision × Client S
  strict (ok r, s) = (ok r.decision, s)
  strict (err e, s) = (err e, s)

  -- `scanStrict`
  pub scan_strict : ScanRequest → Act Thrown (Client S) Decision
  unfolding strict
  scan_strict request c = strict (scan deps request c)

  -- `acknowledgeBypass`; `id` is the event id with the time of the call. Failures are swallowed.
  unfoldable pub acknowledge_bypass : String → Client S → Client S
  acknowledge_bypass id c = (acknowledge_warning deps id true c).1

  serving : Outcome Thrown AgentStatus × Client S → Bool × Client S
  serving (ok a, s) = (a.engine_serving, s)
  serving (err e, s) = (false, s)

  -- `isAvailable`
  pub is_available : (Json → Option AgentStatus) → Client S → Bool × Client S
  unfolding serving
  is_available parse c = serving (status deps parse c)
