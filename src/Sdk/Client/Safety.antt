-- ===== src/Sdk/Client/Safety.antt =====
-- `safeScan` fails closed.
use vguardrail.Base.{
  ◌≡◌, refl, inl, inr, true, false, Option, none, [], Outcome, ok, err, Bool-cases, String,
  or_handle,
}
use vguardrail.Sdk.Enums.{Action, allow, block}
use vguardrail.Sdk.Decision.{ScanResponse, or_else, make_scan_response, synthetic_decision}
use vguardrail.Sdk.ScanRequest.{ScanRequest}
use vguardrail.Sdk.Errors.{Thrown}
use vguardrail.Sdk.Client.{
  Deps, Client, is_availability_error, fallback_response, fall_back, scan, safe_scan,
}

-- What the fallback of `safeScan` answers.
pub record IsFallback (action : Action) (r : ScanResponse) : Type 0 where
  pub marked : r.from_fallback ≡ true
  pub acts : r.decision.action ≡ action
  pub no_findings : r.decision.findings ≡ []
  pub partial : r.decision.incomplete ≡ true

module _ {S : Type 0} (deps : Deps S) (request : ScanRequest) (fallback : Option Action)
    (c : Client S) where
  -- The three courses of `safeScan`, against what `scan` does on the same world.
  pub data Course (out : Outcome Thrown ScanResponse × Client S) : Type 0 where
    engine :
        (r : ScanResponse) (c' : Client S)
        → scan deps request c ≡ (ok r, c')
        → out ≡ (ok r, c')
        → Course out
    thrown :
        (e : Thrown) (c' : Client S)
        → scan deps request c ≡ (err e, c')
        → is_availability_error e ≡ false
        → out ≡ (err e, c')
        → Course out
    fallen_back :
        (e : Thrown) (c' : Client S) (r : ScanResponse) (c'' : Client S)
        → scan deps request c ≡ (err e, c')
        → is_availability_error e ≡ true
        → out ≡ (ok r, c'')
        → IsFallback (or_else fallback block) r
        → Course out

  fallback_response-IsFallback :
      (e : Thrown) (id : String)
      → IsFallback (or_else fallback block) (fallback_response deps (or_else fallback block) e id)
  unfolding fallback_response make_scan_response synthetic_decision
  fallback_response-IsFallback e id = record {
    marked = refl;
    acts = refl;
    no_findings = refl;
    partial = refl;
  }

  course :
      (out : Outcome Thrown ScanResponse × Client S)
      → scan deps request c ≡ out
      → Course (or_handle out (fall_back deps (or_else fallback block)))
  unfolding fall_back
  course (ok r, c') h = engine r c' h refl
  course (err e, c') h = elim (Bool-cases (is_availability_error e)) [
    | inl away ↦
        fallen_back e c'
          (fallback_response deps (or_else fallback block) e (deps.random_uuid c'.world).0)
          (record c' { world = (deps.random_uuid c'.world).1 }) h away (rw away)
          (fallback_response-IsFallback e _)
    | inr other ↦ thrown e c' h other (rw other)
  ]

  -- `safeScan` returns what `scan` returns; an error of `scan` that does not mean that the engine
  -- is away it throws as it is; any other it answers by a marked decision with no findings, whose
  -- action is the fallback action, `block` unless the caller names another.
  pub safe_scan-Course : Course (safe_scan deps request fallback c)
  unfolding safe_scan
  safe_scan-Course = course (scan deps request c) refl

module _ {S : Type 0} (deps : Deps S) (request : ScanRequest) (c c' : Client S) where
  -- With no fallback action named, a response that allows the prompt is the engine's.
  pub safe_scan_allows :
      (r : ScanResponse)
      → safe_scan deps request none c ≡ (ok r, c')
      → r.decision.action ≡ allow
      → scan deps request c ≡ (ok r, c')
  safe_scan_allows r h allowed = go (safe_scan-Course deps request none c)
    where
      go :
          Course deps request none c (safe_scan deps request none c)
          → scan deps request c ≡ (ok r, c')
      go (engine s d e out) = cc
      go (thrown x d e _ out) = cc
      go (fallen_back x d s d' e _ out f) = cc (f.acts)
