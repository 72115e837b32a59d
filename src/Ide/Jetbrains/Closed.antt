-- ===== src/Ide/Jetbrains/Closed.antt =====
-- The bridge allows nothing by itself.
use vguardrail.Base.{◌≡◌, refl, ◌∙◌, ap, String, Bool, true, Option, none, some, Outcome, ok, err}
use vguardrail.Json.{Json, Fields}
use vguardrail.Sdk.Enums.{allow, block}
use vguardrail.Sdk.Decision.{Decision, ScanResponse, synthetic_decision}
use vguardrail.Sdk.Errors.{Thrown}
use vguardrail.Sdk.ScanRequest.{ScanRequest, UserContext}
use vguardrail.Sdk.Client.{Deps, Client, scan, safe_scan}
use vguardrail.Sdk.Client.Safety.{Course, engine, thrown, fallen_back, safe_scan-Course}
use vguardrail.Ide.Jetbrains.{
  property, decision_line, as_record, normalize_scan, fail_closed, ack_answered, ack_line,
  scan_answered, scan_line, record_line, value_line, handle_line,
}

module _ {S : Type 0} (deps : Deps S) (identity : UserContext) (d : Decision) (fallback : Bool)
    (c : Client S) where
  -- The engine gave this decision for the prompt of this request.
  abbrev pub Decided : Fields → Type 0
  Decided raw =
      (request : ScanRequest) × (r : ScanResponse) × (c' : Client S) × (normalize_scan identity raw
        ≡ some request)
      × (scan deps request c ≡ (ok r, c'))
      × (r.decision ≡ d)

  engine_answered :
      (request : ScanRequest) (r : ScanResponse) (c' : Client S)
      → Course deps request (some block) c (safe_scan deps request (some block) c)
      → safe_scan deps request (some block) c ≡ (ok r, c')
      → r.decision.action ≡ allow
      → scan deps request c ≡ (ok r, c')
  engine_answered request r c' (engine q x e out) h allowed = cc
  engine_answered request r c' (thrown y x e _ out) h allowed = cc
  engine_answered request r c' (fallen_back y x q x' e _ out f) h allowed = cc (f.acts)

  same_decision : (e : Decision) (b : Bool) → decision_line e b ≡ decision_line d fallback → e ≡ d
  same_decision e b h = cc

  closed_blocks :
      (reason : String) (s : Client S)
      → (fail_closed deps identity reason s).0 ≡ decision_line d fallback
      → d.action ≡ allow
      → ⊥
  unfolding fail_closed synthetic_decision
  closed_blocks reason s h a =
      absurd (cc (ap (λ (t : Decision). t.action) (same_decision _ true h)))

  ack_other :
      (o : Outcome Thrown Bool × Client S)
      → (ack_answered deps identity o).0 ≡ decision_line d fallback
      → ⊥
  unfolding ack_answered
  ack_other (ok b, s) h = absurd (cc)
  ack_other (err e, s) h = absurd (cc)

  ack_line_other :
      (o : Option (String × Bool)) → (ack_line deps identity o c).0 ≡ decision_line d fallback → ⊥
  unfolding ack_line
  ack_line_other none h = absurd (cc)
  ack_line_other (some (id, accepted)) h = ack_other _ h

  scanned_decides :
      (out : Outcome Thrown ScanResponse × Client S)
      → (scan_answered deps identity out).0 ≡ decision_line d fallback
      → d.action ≡ allow
      → (r : ScanResponse) × (c' : Client S) × (out ≡ (ok r, c')) × (r.decision ≡ d)
  unfolding scan_answered
  scanned_decides (ok r, c') h a = (r, c', refl, same_decision r.decision r.from_fallback h)
  scanned_decides (err e, s) h a = absurd (closed_blocks _ s h a)

  line_decides :
      (raw : Fields) (o : Option ScanRequest)
      → normalize_scan identity raw ≡ o
      → (scan_line deps identity o c).0 ≡ decision_line d fallback
      → d.action ≡ allow
      → Decided raw
  unfolding scan_line
  line_decides raw none e h a = absurd (closed_blocks _ c h a)
  line_decides raw (some request) e h a =
      let (r, c', out, same) = scanned_decides (safe_scan deps request (some block) c) h a in
      (
        request,
        r,
        c',
        e,
        engine_answered request r c' (safe_scan-Course deps request (some block) c) out
            (ap (λ (t : Decision). t.action) same ∙ a),
        same,
      )

  record_decides :
      (ack : Option Json) (raw : Fields)
      → (record_line deps identity ack raw c).0 ≡ decision_line d fallback
      → d.action ≡ allow
      → (ack ≡ none) × Decided raw
  unfolding record_line
  record_decides none raw h a = (refl, line_decides raw (normalize_scan identity raw) refl h a)
  record_decides (some ack) raw h a = absurd (ack_line_other _ h)

  -- The line is an object that acknowledges nothing, and the engine gave this decision for its prompt.
  abbrev pub LetThrough : Option Fields → Type 0
  LetThrough o = (raw : Fields) × (o ≡ some raw) × (property "acknowledge" raw ≡ none) × Decided raw

  value_decides :
      (o : Option Fields)
      → (value_line deps identity o c).0 ≡ decision_line d fallback
      → d.action ≡ allow
      → LetThrough o
  unfolding value_line
  value_decides none h a = absurd (closed_blocks _ c h a)
  value_decides (some raw) h a =
      let (silent, given) = record_decides (property "acknowledge" raw) raw h a in
      (raw, refl, silent, given)

  -- A line of the plugin that is answered by a decision to allow is an object that holds the text of a
  -- prompt and acknowledges nothing, and the engine gave that decision for that prompt. Whatever is
  -- malformed and whatever fails, the bridge allows nothing by itself.
  pub handle_line-LetThrough :
      (value : Option Json)
      → (handle_line deps identity value c).0 ≡ decision_line d fallback
      → d.action ≡ allow
      → LetThrough (as_record value)
  unfolding handle_line
  handle_line-LetThrough none h a = absurd (closed_blocks _ c h a)
  handle_line-LetThrough (some value) h a = value_decides (as_record (some value)) h a
