-- ===== src/Cli/Enforcement.antt =====
-- cli-connectors/framework/src/policy/enforcement.ts and prompt.ts. What is printed, and what the
-- user answers, are actions on a world `S`.
pub mod Tiers
use vguardrail.Base.{String, Bool, true, false, Option, none, some, Outcome, ok, err}
use vguardrail.Sdk.Enums.{Action, allow, warn, block, RiskLevel}
use vguardrail.Sdk.Decision.{Decision}

-- `WarnTier`
pub data WarnTier : Type 0 where
  block_tier prompt_tier notice_tier : WarnTier

-- `warnTier`, here and in browser-connectors/chrome/extension/src/shared/contract.ts
unfoldable pub warn_tier : Option RiskLevel → WarnTier
warn_tier (some RiskLevel.critical) = block_tier
warn_tier (some RiskLevel.high) = block_tier
warn_tier (some RiskLevel.low) = notice_tier
warn_tier _ = prompt_tier

-- `EnforcementResult`
pub record EnforcementResult : Type 0 where
  pub decision : Decision
  pub should_proceed : Bool
  pub warning_acknowledged : Option Bool

-- The terminal: `confirm` is the yes-or-no question, which may fail.
pub record Terminal (S : Type 0) : Type 0 where
  pub show_warning : Decision → S → S
  pub show_block : Decision → Option String → S → S
  pub confirm : S → Outcome (Unit {0}) Bool × S

module _ {S : Type 0} (terminal : Terminal S) where
  answered : Outcome (Unit {0}) Bool × S → Bool × S
  answered (ok proceed, s) = (proceed, s)
  answered (err _, s) = (false, s)

  -- `showWarningPrompt`
  unfoldable pub show_warning_prompt : Decision → S → Bool × S
  unfolding answered
  show_warning_prompt decision s = answered (terminal.confirm (terminal.show_warning decision s))

  warn_at : WarnTier → Decision → S → EnforcementResult × S
  unfolding show_warning_prompt
  warn_at block_tier decision s = (
    record { decision = decision; should_proceed = false; warning_acknowledged = some false },
    terminal.show_block decision (some "high risk — blocked, no override") s,
  )
  warn_at notice_tier decision s = (
    record { decision = decision; should_proceed = true; warning_acknowledged = some true },
    terminal.show_warning decision s,
  )
  warn_at prompt_tier decision s =
      let (acknowledged, s') = show_warning_prompt decision s in
      (
        record {
          decision = decision;
          should_proceed = acknowledged;
          warning_acknowledged = some acknowledged;
        },
        s',
      )

  -- `handleWarning`
  unfoldable pub handle_warning : Decision → S → EnforcementResult × S
  unfolding warn_at warn_tier
  handle_warning decision = warn_at (warn_tier (some decision.risk_level)) decision

  unfoldable pub enforce_as : Action → Decision → S → EnforcementResult × S
  unfolding handle_warning
  enforce_as allow decision s =
      (record { decision = decision; should_proceed = true; warning_acknowledged = none }, s)
  enforce_as warn decision s = handle_warning decision s
  enforce_as block decision s = (
    record { decision = decision; should_proceed = false; warning_acknowledged = none },
    terminal.show_block decision none s,
  )

  -- `enforceDecision`; a schema lets no other action through.
  unfoldable pub enforce_decision : Decision → S → EnforcementResult × S
  unfolding enforce_as
  enforce_decision decision = enforce_as decision.action decision
