-- ===== src/Ide/Verdicts.antt =====
-- Which prompts the editor lets through.
use vguardrail.Base.{◌≡◌, refl, ◌↔◌, ℕ, String, Bool, true, false, some, List, Outcome, ok, err}
use vguardrail.Sdk.Enums.{Action, allow, warn, block, RiskLevel}
use vguardrail.Sdk.Decision.{Decision, ScanResponse}
use vguardrail.Sdk.Errors.{Thrown}
use vguardrail.Sdk.ScanRequest.{UserContext}
use vguardrail.Sdk.Client.{Deps, Client, safe_scan}
use vguardrail.Cli.Enforcement.{warn_tier}
use vguardrail.Ide.{
  EditorPromptContext, build_request, DecisionUi, asked, resolve_tier, resolve_as, resolve_at,
  resolve, scanned, intercept,
}
use vguardrail.Sdk.Decision.{make_scan_response}

module _ {S : Type 0} (deps : Deps S) (ui : DecisionUi S) (app : String)
    (identity : UserContext) where
  -- What a decision must say, and the user must choose, for a prompt to pass.
  abbrev pub MayPass : Action → RiskLevel → Decision → Client S → Type 0
  MayPass allow risk d c = Unit
  MayPass block risk d c = ⊥
  MayPass warn RiskLevel.critical d c = ⊥
  MayPass warn RiskLevel.high d c = ⊥
  MayPass warn RiskLevel.medium d c = (asked deps ui app identity d c).0 ≡ true
  MayPass warn RiskLevel.low d c = Unit

  warned_iff :
      (risk : RiskLevel) (r : ScanResponse) (c : Client S)
      → ((resolve_tier deps ui app identity (warn_tier (some risk)) r c).0.allowed ≡ true)
        ↔ MayPass warn risk r.decision c
  unfolding resolve_tier warn_tier
  warned_iff RiskLevel.critical r c = (λ e. absurd (cc), λ e. absurd e)
  warned_iff RiskLevel.high r c = (λ e. absurd (cc), λ e. absurd e)
  warned_iff RiskLevel.medium r c = (λ e. e, λ e. e)
  warned_iff RiskLevel.low r c = (λ e. tt, λ e. refl)

  resolve_as_iff :
      (a : Action) (r : ScanResponse) (c : Client S)
      → ((resolve_as deps ui app identity a r c).0.allowed ≡ true)
        ↔ MayPass a r.decision.risk_level r.decision c
  unfolding resolve_as
  resolve_as_iff allow r c = (λ e. tt, λ e. refl)
  resolve_as_iff block r c = (λ e. absurd (cc), λ e. absurd e)
  resolve_as_iff warn r c = warned_iff r.decision.risk_level r c

  -- A response of the engine itself, under which the prompt may pass.
  abbrev pub Permits : ScanResponse → Client S → Type 0
  Permits r c =
      (r.from_fallback ≡ false) × MayPass r.decision.action r.decision.risk_level r.decision c

  resolve_at_iff :
      (b : Bool) (r : ScanResponse) (c : Client S)
      → ((resolve_at deps ui app identity b r c).0.allowed ≡ true)
        ↔ ((b ≡ false) × MayPass r.decision.action r.decision.risk_level r.decision c)
  unfolding resolve_at
  resolve_at_iff true r c = (λ e. absurd (cc), λ (e, h). absurd (cc))
  resolve_at_iff false r c =
      let (there, back) = resolve_as_iff r.decision.action r c in
      (λ e. (refl, there e), λ (e, h). back h)

  resolve_iff :
      (r : ScanResponse) (c : Client S)
      → ((resolve deps ui app identity r c).0.allowed ≡ true) ↔ Permits r c
  unfolding resolve
  resolve_iff r c = resolve_at_iff r.from_fallback r c

  abbrev pub PassesBy : Outcome Thrown ScanResponse × Client S → Type 0
  PassesBy out = (r : ScanResponse) × (c' : Client S) × (out ≡ (ok r, c')) × Permits r c'

  scanned_passes :
      (out : Outcome Thrown ScanResponse × Client S)
      → (let (r, c') = scanned deps ui app identity out in
          (resolve deps ui app identity r c').0.allowed ≡ true)
      → PassesBy out
  unfolding scanned resolve resolve_at make_scan_response
  scanned_passes (ok r, c') h = (r, c', refl, (resolve_iff r c').0 h)
  scanned_passes (err e, c') h = absurd (cc)

  -- A prompt passes exactly if its scan gave a response that is no fallback, and whose decision is to
  -- allow, or a warning of low risk, or a warning of medium risk to which the user chose to proceed.
  pub intercept_iff :
      (text : List ℕ) (ctx : EditorPromptContext) (c : Client S)
      → ((intercept deps ui app identity text ctx c).0.allowed ≡ true)
        ↔ PassesBy (safe_scan deps (build_request app identity text ctx) (some block) c)
  unfolding intercept scanned
  intercept_iff text ctx c =
      let out = safe_scan deps (build_request app identity text ctx) (some block) c in
      (scanned_passes out, λ (r, c', e, h). rw e ((resolve_iff r c').1 h))
