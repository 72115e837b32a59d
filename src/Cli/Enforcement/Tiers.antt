-- ===== src/Cli/Enforcement/Tiers.antt =====
-- When a command may go on.
use vguardrail.Base.{◌≡◌, ◌↔◌, true, ok, inl, inr, arith}
use vguardrail.Sdk.Enums.{allow, warn, RiskLevel, Action-cases, RiskLevel-cases}
use vguardrail.Sdk.Decision.{Decision}
use vguardrail.Cli.Enforcement.{Terminal, enforce_decision}

module _ {S : Type 0} (terminal : Terminal S) (s : S) where
  -- The policy in words: what is allowed goes on; a warning of low risk goes on; one of medium risk
  -- goes on if the user, shown the warning, says yes.
  pub data MayProceed (d : Decision) : Type 0 where
    allowed : d.action ≡ allow → MayProceed d
    low_risk : d.action ≡ warn → d.risk_level ≡ RiskLevel.low → MayProceed d
    confirmed :
        d.action ≡ warn
        → d.risk_level ≡ RiskLevel.medium
        → (terminal.confirm (terminal.show_warning d s)).0 ≡ ok true
        → MayProceed d

  Proceeds : Decision → Type 0
  Proceeds d = (enforce_decision terminal d s).0.should_proceed ≡ true

  warned : (d : Decision) → d.action ≡ warn → Proceeds d → MayProceed d
  unfolding enforce_decision Proceeds
  warned d w h = elim (RiskLevel-cases d.risk_level) [
    | inl low ↦ low_risk w low
    | inr (inl medium) ↦ confirmed w medium (ground arith)
    | inr (inr (inl high)) ↦ absurd (ground arith)
    | inr (inr (inr critical)) ↦ absurd (ground arith)
  ]

  to_policy : (d : Decision) → Proceeds d → MayProceed d
  unfolding enforce_decision Proceeds
  to_policy d h = elim (Action-cases d.action) [
    | inl a ↦ allowed a
    | inr (inl w) ↦ warned d w h
    | inr (inr b) ↦ absurd (ground arith)
  ]

  from_policy : (d : Decision) → MayProceed d → Proceeds d
  unfolding enforce_decision Proceeds
  from_policy d (allowed a) = ground arith
  from_policy d (low_risk w r) = ground arith
  from_policy d (confirmed w r yes_answer) = ground arith

  -- A command goes on exactly where the policy lets it; in particular never on a block, and never
  -- on a warning of high or critical risk, whatever the user would answer.
  pub enforce_decision_iff :
      (d : Decision) → ((enforce_decision terminal d s).0.should_proceed ≡ true) ↔ MayProceed d
  unfolding Proceeds
  enforce_decision_iff d = (to_policy d, from_policy d)
