-- ===== src/Cli/Connector/Licence.antt =====
-- When the real tool runs.
use vguardrail.Base.{
  ◌≡◌, refl, inl, inr, ℕ, String, true, false, not, ◌&&◌, Option, none, some, List, Outcome, ok,
  err, Bool-cases, subst, ap, Bool,
}
use vguardrail.Base.Text.{str_eq, eq_iff}
use vguardrail.Sdk.Decision.{Decision}
use vguardrail.Sdk.Errors.{Thrown}
use vguardrail.Cli.Enforcement.{enforce_decision}
use vguardrail.Cli.Enforcement.Tiers.{MayProceed, enforce_decision_iff}
use vguardrail.Cli.Bypass.{resolve_bypass, resolve_interactive_guard, GuardResolution}
use vguardrail.Cli.ScanText.{ExtractionContext, build_scan_request}
use vguardrail.Cli.Executor.{Launch}
use vguardrail.Cli.Connector.{
  Parts, Ending, ran, ExtractionResult, extracted, truthy, spawn_real, enforced, evaluated,
  run_scanned, run_interactive, run_extracted, run_guarded, run_resolved, run,
  run_interactive_guard, session_ended,
}

negated_lem : (b : Bool) → not b ≡ false → b ≡ true
negated_lem true h = refl
negated_lem false h = absurd (cc)

module _ {S : Type 0} (parts : Parts S) (raw : List String) (s : S) where
  -- The arguments that the tool is to see, and what its extractor says of them.
  abbrev pub guard : GuardResolution
  guard = resolve_interactive_guard (resolve_bypass raw parts.vars).args parts.vars

  abbrev pub found : ExtractionResult × S
  found = let (r, s') = parts.extract guard.args s in (extracted r, s')

  -- The reasons for which the tool may run.
  pub data Licence (launch : Launch) : Type 0 where
    bypassed :
        (resolve_bypass raw parts.vars).bypass ≡ true
        → launch.args ≡ (resolve_bypass raw parts.vars).args
        → Licence launch
    no_prompt :
        found.0.error ≡ none → found.0.found ≡ false → launch.args ≡ guard.args → Licence launch
    no_context :
        found.0.error ≡ none
        → found.0.found ≡ true
        → found.0.context ≡ none
        → launch.args ≡ guard.args
        → Licence launch
    cleared :
        (c : ExtractionContext) (d : Decision) (s' : S)
        → found.0.error ≡ none
        → found.0.found ≡ true
        → found.0.context ≡ some c
        → parts.scan (build_scan_request c parts.tool parts.user parts.repo) found.1 ≡ (ok d, s')
        → MayProceed parts.terminal s' d
        → launch.args ≡ guard.args
        → launch.stdin_data ≡ c.stdin_data
        → Licence launch

  Launched : Ending → Type 0
  Launched (ran launch code) = Licence launch
  Launched _ = Unit

  -- What follows a decision.
  evaluated-Licence :
      (c : ExtractionContext) (out : Outcome Thrown Decision × S)
      → found.0.error ≡ none
      → found.0.found ≡ true
      → found.0.context ≡ some c
      → parts.scan (build_scan_request c parts.tool parts.user parts.repo) found.1 ≡ out
      → Launched (evaluated parts guard.args c.stdin_data out).0
  unfolding Launched evaluated enforced spawn_real
  evaluated-Licence c (err e, s') e0 g f h = tt
  evaluated-Licence c (ok d, s') e0 g f h =
      elim (Bool-cases (enforce_decision parts.terminal d s').0.should_proceed) [
        | inl proceeds ↦ rw proceeds (
            cleared c d s' e0 g f h ((enforce_decision_iff parts.terminal s' d).0 proceeds) refl
              refl)
        | inr stopped ↦ rw stopped tt
      ]

  scanned-Licence :
      (o : Option ExtractionContext)
      → found.0.error ≡ none
      → found.0.found ≡ true
      → found.0.context ≡ o
      → Launched (run_scanned parts guard.args o found.1).0
  unfolding Launched run_scanned spawn_real
  scanned-Licence none e g f = no_context e g f refl
  scanned-Licence (some c) e g f = evaluated-Licence c _ e g f refl

  session-Licence : (out : Outcome String ℕ × S) → Launched (session_ended parts guard.args out).0
  unfolding Launched session_ended
  session-Licence (ok code, s') = tt
  session-Licence (err m, s') = tt

  interactive-Licence :
      found.0.error ≡ none
      → found.0.found ≡ false
      → Launched (run_interactive parts guard.enabled guard.args found.1).0
  unfolding run_interactive run_interactive_guard spawn_real Launched
  interactive-Licence e f =
      elim (Bool-cases (guard.enabled && (parts.tool.is_interactive && parts.is_tty))) [
        | inl held ↦ rw held (session-Licence _)
        | inr free ↦ rw free (elim (Bool-cases (guard.enabled && not parts.tool.is_interactive)) [
          | inl told ↦ rw told (no_prompt e f refl)
          | inr plain ↦ rw plain (no_prompt e f refl)
        ])
      ]

  unworded_or_none : (o : Option String) → (o ≡ some "" → ⊥) → truthy o ≡ false → o ≡ none
  unworded_or_none none worded h = refl
  unworded_or_none (some m) worded h =
      absurd (worded (ap (λ (t : String). some t) ((eq_iff m "").0 (negated_lem (str_eq m "") h))))

  extracted-Licence :
      (found.0.error ≡ some "" → ⊥)
      → Launched (run_extracted parts guard.enabled guard.args found.0 found.1).0
  unfolding run_extracted Launched
  extracted-Licence worded = elim (Bool-cases (truthy found.0.error)) [
    | inl broken ↦ rw broken tt
    | inr sound ↦ rw sound (elim (Bool-cases found.0.found) [
      | inl yes_found ↦ rw yes_found (
          scanned-Licence found.0.context (unworded_or_none found.0.error worded sound) yes_found
            refl)
      | inr absent ↦
          rw absent (interactive-Licence (unworded_or_none found.0.error worded sound) absent)
    ])
  ]

  run-Launched : (found.0.error ≡ some "" → ⊥) → Launched (run parts raw s).0
  unfolding run run_resolved run_guarded spawn_real Launched
  run-Launched worded = elim (Bool-cases (resolve_bypass raw parts.vars).bypass) [
    | inl on ↦ rw on (bypassed on refl)
    | inr off ↦ rw off (extracted-Licence worded)
  ]

  -- Where the extractor neither reports nor throws an error with the empty message, the real tool
  -- runs only with a licence: the emergency bypass was asked for; or the extractor reported no error
  -- and found no prompt, or found one and gave no context; or it reported no error, and the text that
  -- it found was scanned and the policy lets the decision proceed. The arguments that the tool then
  -- gets are those left when the bypass flag was stripped, and without a bypass the flag of the guard
  -- too; after a scan it gets the standard input of the scanned context.
  pub run-Licence :
      (launch : Launch) (code : ℕ) (s' : S)
      → (found.0.error ≡ some "" → ⊥)
      → run parts raw s ≡ (ran launch code, s')
      → Licence launch
  unfolding Launched
  run-Licence launch code s' worded h = subst (λ out. Launched out.0) h (run-Launched worded)
