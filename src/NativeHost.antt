-- ===== src/NativeHost.antt =====
-- browser-connectors/chrome/native-host/src: the host that stands between the extension and the
-- client. handlers.ts, with the requests and replies of protocol.ts.
pub mod Replies
pub mod Loop
mod Tests
use vguardrail.Base.{String, Bool, true, false, Option, none, some, List, Outcome, ok, err}
use vguardrail.Json.{Json}
use vguardrail.Sdk.Enums.{block, browser, Role}
use vguardrail.Sdk.Decision.{Decision, ScanResponse, synthetic_decision, or_else}
use vguardrail.Sdk.Errors.{Thrown}
use vguardrail.Sdk.AgentStatus.{AgentStatus}
use vguardrail.Sdk.ScanRequest.{ScanRequest, UserContext}
use vguardrail.Base.{ℕ}
use vguardrail.Sdk.Client.{Deps, Client, safe_scan}
use vguardrail.Sdk.Client.Queries.{status, acknowledge_warning}

-- `HostRequest`
pub data HostRequest : Type 0 where
  scan_request : String → List ℕ → Option String → Option String → Option String → HostRequest
  ack_request : String → String → Bool → HostRequest
  status_request : String → HostRequest

-- `HostResponse`
pub data HostResponse : Type 0 where
  scan_reply : String → Decision → HostResponse
  ack_reply : String → Bool → HostResponse
  status_reply : String → AgentStatus → HostResponse
  error_reply : String → String → String → HostResponse

module _ {S : Type 0} (deps : Deps S) (identity : UserContext)
    (parse_status : Json → Option AgentStatus) where
  -- The request of `handleScan`.
  unfoldable pub host_request : List ℕ → Option String → Option String → Option String → ScanRequest
  host_request text provider model app = record {
    text = text;
    context = record {
      source = some browser;
      provider = provider;
      model = model;
      app = some (or_else app "chrome");
      repo = none;
      file = none;
      user = identity;
    };
  }

  unfoldable pub scan_settled :
      String → Outcome Thrown ScanResponse × Client S → HostResponse × Client S
  scan_settled id (ok r, c) = (scan_reply id r.decision, c)
  scan_settled id (err e, c) =
      let (request_id, w) = deps.random_uuid c.world in
      (
        scan_reply id
            (synthetic_decision request_id block "connector error; fail-closed block" none none),
        record c { world = w },
      )

  -- `handleScan`
  unfoldable pub handle_scan : String → ScanRequest → Client S → HostResponse × Client S
  unfolding scan_settled
  handle_scan id request c = scan_settled id (safe_scan deps request (some block) c)

  unfoldable pub ack_settled : String → Outcome Thrown Bool × Client S → HostResponse × Client S
  ack_settled id (ok accepted, c) = (ack_reply id accepted, c)
  ack_settled id (err e, c) = (error_reply id "ACK_FAILED" "acknowledge failed", c)

  unfoldable pub status_settled :
      String → Outcome Thrown AgentStatus × Client S → HostResponse × Client S
  status_settled id (ok a, c) = (status_reply id a, c)
  status_settled id (err e, c) = (error_reply id "STATUS_FAILED" "status unavailable", c)

  -- `handleRequest`, with `handleAck` and `handleStatus`
  unfoldable pub handle_request : HostRequest → Client S → HostResponse × Client S
  unfolding handle_scan host_request ack_settled status_settled
  handle_request (scan_request id text provider model app) c =
      handle_scan id (host_request text provider model app) c
  handle_request (ack_request id event_id accepted) c =
      ack_settled id (acknowledge_warning deps event_id accepted c)
  handle_request (status_request id) c = status_settled id (status deps parse_status c)
