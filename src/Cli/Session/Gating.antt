-- ===== src/Cli/Session/Gating.antt =====
-- What a typed line comes to.
use vguardrail.Base.{
  ◌≡◌, refl, ap, ◌∙◌, ◌↔◌, ◌⊎◌, inl, inr, ℕ, true, none, some, List, arith, Outcome, ok, err,
}
use vguardrail.Sdk.Enums.{Action, allow, warn, block, RiskLevel}
use vguardrail.Sdk.Decision.{Decision}
use vguardrail.Sdk.Errors.{Thrown}
use vguardrail.Cli.ScanText.{build_scan_request, create_extraction_context}
use vguardrail.Cli.Enforcement.{warn_tier}
use vguardrail.Cli.AckStore.{consume_or_record_ack}
use vguardrail.Cli.Session.{
  Options, State, gate_tier, gate_action, gate_decided, gate_line, resubmitted,
}

module _ {S : Type 0} (options : Options S) (text : List ℕ) (s : State S) where
  -- The policy in words: what is allowed is submitted; a warning of low risk is; one of medium risk
  -- is if the same line was submitted before and is remembered.
  pub data MaySubmit : Type 0 where
    let_through :
        (d : Decision) (w : S)
        → options.scan
            (build_scan_request
              (create_extraction_context text none none)
              options.tool
              options.user
              options.repo)
            s.world
          ≡ (ok d, w)
        → (d.action ≡ allow)
          ⊎ ((d.action ≡ warn) × (d.risk_level ≡ RiskLevel.low))
          ⊎ ((d.action ≡ warn)
              × (d.risk_level ≡ RiskLevel.medium)
              × ((consume_or_record_ack (options.ack_key text) (options.now_ms w).0 s.store).0
                  ≡ true))
        → MaySubmit

  abbrev Reasons : Decision → S → RiskLevel → Action → Type 0
  Reasons d w r a =
      (a ≡ allow)
      ⊎ ((a ≡ warn) × (r ≡ RiskLevel.low))
      ⊎ ((a ≡ warn)
          × (r ≡ RiskLevel.medium)
          × ((consume_or_record_ack (options.ack_key text) (options.now_ms w).0 s.store).0 ≡ true))

  abbrev at_world : S → State S
  at_world w = record s { world = w }

  tier_iff :
      (d : Decision) (w : S) (r : RiskLevel)
      → ((gate_tier options (warn_tier (some r)) text (at_world w)).0 ≡ true) ↔ Reasons d w r warn
  unfolding gate_tier warn_tier resubmitted
  tier_iff d w RiskLevel.low = (λ h. inr (inl (refl, refl)), λ h. refl)
  tier_iff d w RiskLevel.medium = (
    λ h. inr (inr (refl, refl, h)),
    λ h. elim h [
      | inl a ↦ absurd (ground arith)
      | inr (inl (a, b)) ↦ absurd (ground arith)
      | inr (inr (a, b, c)) ↦ c
    ],
  )
  tier_iff d w RiskLevel.high = (λ h. absurd (ground arith), λ h. absurd (ground arith))
  tier_iff d w RiskLevel.critical = (λ h. absurd (ground arith), λ h. absurd (ground arith))

  action_iff :
      (d : Decision) (w : S) (a : Action)
      → ((gate_action options a d text (at_world w)).0 ≡ true) ↔ Reasons d w d.risk_level a
  unfolding gate_action
  action_iff d w allow = (λ h. inl refl, λ h. refl)
  action_iff d w warn = tier_iff d w d.risk_level
  action_iff d w block = (λ h. absurd (ground arith), λ h. absurd (ground arith))

  abbrev answer : Outcome Thrown Decision × S
  answer =
      options.scan
        (build_scan_request (create_extraction_context text none none) options.tool options.user
          options.repo)
        s.world

  decided_submits :
      (out : Outcome Thrown Decision × S)
      → answer ≡ out
      → (gate_decided options out text s).0 ≡ true
      → MaySubmit
  unfolding gate_decided
  decided_submits (ok d, w) e h = let_through d w e ((action_iff d w d.action).0 h)
  decided_submits (err x, w) e h = absurd (ground arith)

  submits_decided : MaySubmit → (gate_decided options answer text s).0 ≡ true
  unfolding gate_decided
  submits_decided (let_through d w e reasons) =
      ap (λ out. (gate_decided options out text s).0) e ∙ (action_iff d w d.action).1 reasons

  -- A line is let through exactly where its scan returned a decision and the policy lets it be
  -- submitted; in particular never when the scan failed, or on a warning of high or critical risk.
  pub gate_line_iff : ((gate_line options text s).0 ≡ true) ↔ MaySubmit
  unfolding gate_line
  gate_line_iff = (decided_submits answer refl, submits_decided)
