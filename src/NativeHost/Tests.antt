-- ===== src/NativeHost/Tests.antt =====
-- Requests to the host.
use vguardrail.Base.{◌≡◌, refl, ap, true, Option, none, some, [], ok}
use vguardrail.Base.Units.{units}
use vguardrail.Json.{Json, null}
use vguardrail.Sdk.Enums.{allow, block, Role}
use vguardrail.Sdk.Decision.{ScanResponse}
use vguardrail.Sdk.AgentStatus.{AgentStatus}
use vguardrail.Sdk.ScanRequest.{UserContext}
use vguardrail.Sdk.Client.{Client, scan}
use vguardrail.Sdk.Client.Tests.{counting, fresh, decision, safely_scanned}
use vguardrail.NativeHost.{
  scan_request, ack_request, scan_reply, host_request, handle_request, handle_scan, scan_settled,
}
use vguardrail.NativeHost.Replies.{Answers, handle_request_allows, handle_request-Answers}

abbrev someone : UserContext
someone = record { user_id = "u"; role = Role.user; groups = [] }

abbrev no_status : Json → Option AgentStatus
no_status j = none

replied :
    (handle_request
      (counting (ok null))
      someone
      no_status
      (scan_request "q" (units "hi") none none none)
      fresh).0
    ≡ scan_reply "q" (decision allow)
unfolding handle_request handle_scan
replied =
    ap (λ out. (scan_settled (counting (ok null)) someone no_status "q" out).0)
      (safely_scanned
        (host_request (counting (ok null)) someone no_status (units "hi") none none none)
        (some block))

handle_request_allows_example :
    (r : ScanResponse) × (c' : Client _) × (scan
        (counting (ok null))
        (host_request (counting (ok null)) someone no_status (units "hi") none none none)
        fresh
      ≡ (ok r, c'))
    × (r.decision ≡ decision allow)
handle_request_allows_example =
    handle_request_allows (counting (ok null)) someone no_status fresh "q" (units "hi") none none
      none (decision allow) replied refl

handle_request-Answers_example :
    Answers
      (counting (ok null))
      someone
      no_status
      fresh
      (ack_request "q" "e" true)
      (handle_request (counting (ok null)) someone no_status (ack_request "q" "e" true) fresh).0
handle_request-Answers_example =
    handle_request-Answers (counting (ok null)) someone no_status fresh (ack_request "q" "e" true)
