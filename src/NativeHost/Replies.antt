-- ===== src/NativeHost/Replies.antt =====
-- What the host replies.
use vguardrail.Base.{◌≡◌, refl, sym, ap, ◌∙◌, String, Bool, Option, some, List, Outcome, ok, err, ℕ}
use vguardrail.Json.{Json}
use vguardrail.Sdk.Enums.{allow, block}
use vguardrail.Sdk.Decision.{Decision, ScanResponse, synthetic_decision}
use vguardrail.Sdk.Errors.{Thrown}
use vguardrail.Sdk.AgentStatus.{AgentStatus}
use vguardrail.Sdk.ScanRequest.{ScanRequest, UserContext}
use vguardrail.Sdk.Client.{Deps, Client, scan, safe_scan}
use vguardrail.Sdk.Client.Safety.{Course, engine, thrown, fallen_back, safe_scan-Course}
use vguardrail.NativeHost.{
  HostRequest, scan_request, ack_request, status_request, HostResponse, scan_reply, ack_reply,
  status_reply, error_reply, host_request, scan_settled, handle_scan, ack_settled, status_settled,
  handle_request,
}

module _ {S : Type 0} (deps : Deps S) (identity : UserContext)
    (parse_status : Json → Option AgentStatus) (c : Client S) where
  reply_decision : (id : String) (d d' : Decision) → scan_reply id d ≡ scan_reply id d' → d ≡ d'
  reply_decision id d d' h = cc

  settled_allows :
      (id : String) (request : ScanRequest) (out : Outcome Thrown ScanResponse × Client S)
      (d : Decision)
      → Course deps request (some block) c out
      → (scan_settled deps identity parse_status id out).0 ≡ scan_reply id d
      → d.action ≡ allow
      → (r : ScanResponse) × (c' : Client S) × (scan deps request c ≡ (ok r, c')) × (r.decision ≡ d)
  unfolding scan_settled synthetic_decision
  settled_allows id request (ok q, x) d (engine r c' e f) h a = (
    r,
    c',
    e,
    let same : q ≡ r = cc in
        ap (λ (t : ScanResponse). t.decision) (sym same) ∙ reply_decision id q.decision d h,
  )
  settled_allows id request (ok q, x) d (thrown y c' e _ f) h a = absurd (cc)
  settled_allows id request (ok q, x) d (fallen_back y c' r c'' e _ f fallback) h a =
      let same : q ≡ r = cc in
      let shown : q.decision.action ≡ d.action =
        ap (λ (t : Decision). t.action) (reply_decision id q.decision d h) in
      absurd (cc (ap (λ (t : ScanResponse). t.decision.action) same, fallback.acts))
  settled_allows id request (err y, x) d k h a =
      absurd (cc (ap (λ (t : Decision). t.action) (reply_decision id _ d h)))

  -- A prompt that the host lets through was scanned: if the decision in the reply to a scan request
  -- allows it, then the engine answered that request, and with that decision.
  pub handle_request_allows :
      (id : String) (text : List ℕ) (provider model app : Option String) (d : Decision)
      → (handle_request deps identity parse_status (scan_request id text provider model app) c).0
        ≡ scan_reply id d
      → d.action ≡ allow
      → (r : ScanResponse) × (c' : Client S) × (scan deps
            (host_request deps identity parse_status text provider model app)
            c
          ≡ (ok r, c'))
        × (r.decision ≡ d)
  unfolding handle_request handle_scan
  handle_request_allows id text provider model app d h a =
      let request = host_request deps identity parse_status text provider model app in
      settled_allows id request (safe_scan deps request (some block) c) d
        (safe_scan-Course deps request (some block) c) h a

  -- A reply that fits a request: its id is echoed, and a scan is answered by a decision, never by an
  -- error.
  abbrev pub Answers : HostRequest → HostResponse → Type 0
  Answers (scan_request id t p m a) (scan_reply id' d) = id' ≡ id
  Answers (ack_request id e a) (ack_reply id' b) = id' ≡ id
  Answers (ack_request id e a) (error_reply id' code m) = id' ≡ id
  Answers (status_request id) (status_reply id' s) = id' ≡ id
  Answers (status_request id) (error_reply id' code m) = id' ≡ id
  Answers _ _ = ⊥

  scan_Answers :
      (id : String) (t : List ℕ) (p m a : Option String)
      (out : Outcome Thrown ScanResponse × Client S)
      → Answers (scan_request id t p m a) (scan_settled deps identity parse_status id out).0
  unfolding scan_settled
  scan_Answers id t p m a (ok r, x) = refl
  scan_Answers id t p m a (err e, x) = refl

  ack_Answers :
      (id e : String) (b : Bool) (out : Outcome Thrown Bool × Client S)
      → Answers (ack_request id e b) (ack_settled deps identity parse_status id out).0
  unfolding ack_settled
  ack_Answers id e b (ok x, y) = refl
  ack_Answers id e b (err x, y) = refl

  status_Answers :
      (id : String) (out : Outcome Thrown AgentStatus × Client S)
      → Answers (status_request id) (status_settled deps identity parse_status id out).0
  unfolding status_settled
  status_Answers id (ok x, y) = refl
  status_Answers id (err x, y) = refl

  -- Every request is answered under its own id, whatever fails on the way; a scan by a decision.
  pub handle_request-Answers :
      (request : HostRequest)
      → Answers request (handle_request deps identity parse_status request c).0
  unfolding handle_request handle_scan
  handle_request-Answers (scan_request id t p m a) = scan_Answers id t p m a _
  handle_request-Answers (ack_request id e b) = ack_Answers id e b _
  handle_request-Answers (status_request id) = status_Answers id _
