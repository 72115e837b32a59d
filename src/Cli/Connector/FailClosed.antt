-- ===== src/Cli/Connector/FailClosed.antt =====
-- The connector on the policy client: without the engine no command runs.
use vguardrail.Base.{ℕ, ◌≡◌, refl, true, false, Option, some, String, List, Outcome, ok, err}
use vguardrail.Sdk.Enums.{block}
use vguardrail.Sdk.Errors.{Thrown}
use vguardrail.Sdk.Decision.{ScanResponse}
use vguardrail.Sdk.ScanRequest.{ScanRequest}
use vguardrail.Sdk.Client.{Deps, Client, scan, safe_scan}
use vguardrail.Sdk.Client.Safety.{Course, engine, thrown, fallen_back, safe_scan-Course}
use vguardrail.Cli.ScanText.{ExtractionContext, build_scan_request}
use vguardrail.Cli.PolicyClient.{policy_scan, decided}
use vguardrail.Cli.Enforcement.{enforce_decision, enforce_as}
use vguardrail.Cli.Bypass.{resolve_bypass}
use vguardrail.Cli.Connector.{
  Parts, refused, truthy, evaluated, enforced, run_scanned, run_extracted, run_guarded,
  run_resolved, run,
}
use vguardrail.Cli.Connector.Licence.{found, guard}

-- The connector that scans by the policy client.
abbrev pub with_policy : {S : Type 0} → Deps S → Parts (Client S) → Parts (Client S)
with_policy deps parts = record parts { scan = policy_scan deps }

module _ {S : Type 0} (deps : Deps S) (bare : Parts (Client S)) where
  abbrev parts : Parts (Client S)
  parts = with_policy deps bare

  -- A decision to block stops the run.
  blocked :
      (args : List String) (o : Option (List ℕ)) (out : Outcome Thrown ScanResponse × Client S)
      → ((r : ScanResponse) → out.0 ≡ ok r → r.decision.action ≡ block)
      → (evaluated parts args o (decided out)).0 ≡ refused
  unfolding evaluated enforced enforce_decision enforce_as decided
  blocked args o (err e, c) h = refl
  blocked args o (ok r, c) h = rw (h r refl) refl

  no_engine :
      (request : ScanRequest) (c c' : Client S) (e : Thrown)
      → scan deps request c ≡ (err e, c')
      → (out : Outcome Thrown ScanResponse × Client S) → Course deps request (some block) c out
      → (r : ScanResponse) → out.0 ≡ ok r
      → r.decision.action ≡ block
  no_engine request c c' e h out (engine q d f g) r k = absurd (cc)
  no_engine request c c' e h out (thrown x d f _ g) r k = absurd (cc)
  no_engine request c c' e h out (fallen_back x d q d' f _ g fallback) r k = cc (fallback.acts)

  -- Where the bypass was not asked for and the extractor found a prompt with its context and no
  -- error, the run is refused if the client's scan of the text fails, whatever the error.
  pub run-fails_closed :
      (raw : List String) (c : Client S) (x : ExtractionContext) (e : Thrown) (c' : Client S)
      → (resolve_bypass raw parts.vars).bypass ≡ false
      → truthy (found parts raw c).0.error ≡ false
      → (found parts raw c).0.found ≡ true
      → (found parts raw c).0.context ≡ some x
      → scan deps (build_scan_request x parts.tool parts.user parts.repo) (found parts raw c).1
        ≡ (err e, c')
      → (run parts raw c).0 ≡ refused
  unfolding run run_resolved run_guarded run_extracted run_scanned policy_scan
  run-fails_closed raw c x e c' off sound present context failed =
      let request = build_scan_request x parts.tool parts.user parts.repo in
      let c1 = (found parts raw c).1 in
      rw (off, sound, present, context)
        (blocked (guard parts raw c).args x.stdin_data (safe_scan deps request (some block) c1)
          (no_engine request c1 c' e failed _ (safe_scan-Course deps request (some block) c1)))
