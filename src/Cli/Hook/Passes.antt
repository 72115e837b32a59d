-- ===== src/Cli/Hook/Passes.antt =====
-- Which prompts and commands the hook lets through.
use vguardrail.Base.{
  ◌≡◌, refl, ◌↔◌, ℕ, String, Bool, true, false, Option, some, List, Outcome, ok, err,
}
use vguardrail.Base.Units.{is_blank}
use vguardrail.Sdk.Enums.{Action, allow, warn, block, RiskLevel}
use vguardrail.Sdk.Decision.{Decision}
use vguardrail.Sdk.Errors.{Thrown}
use vguardrail.Cli.Enforcement.{warn_tier}
use vguardrail.Cli.Hook.{
  HookOutput, text, HookInput, event, HookDeps, State, block_prompt, warn_context, deny_tool,
  scan_text, resubmitted, warned, prompt_as, prompt_scanned, prompt_text, handle_user_prompt,
  run_event, run_hook, main, acknowledged_or_not, as_text, or_block, or_deny, tool_as, tool_scanned,
  tool_text, handle_pre_tool, tool_warned, tool_named,
}
use vguardrail.Cli.AckStore.{Store}
use vguardrail.Cli.Hook.Contract.{blocks, denies}

module _ {S : Type 0} (deps : HookDeps S) where
  -- The store and the file agree that the prompt was submitted before, within the window.
  abbrev IsResubmitted : Option String → List ℕ → State S → Type 0
  IsResubmitted session prompt s =
      (t : State S) × (resubmitted deps session prompt s ≡ (ok true, t))

  -- What a decision must say, and the user must have done, for a prompt to pass.
  abbrev pub MayPass : Action → RiskLevel → Option String → List ℕ → State S → Type 0
  MayPass allow risk session prompt s = Unit
  MayPass block risk session prompt s = ⊥
  MayPass warn RiskLevel.critical session prompt s = ⊥
  MayPass warn RiskLevel.high session prompt s = ⊥
  MayPass warn RiskLevel.medium session prompt s = IsResubmitted session prompt s
  MayPass warn RiskLevel.low session prompt s = Unit

  passes : Outcome Thrown HookOutput × State S → Bool
  passes r = blocks (or_block deps r).0

  acknowledged_iff :
      (d : Decision) (session : Option String) (prompt : List ℕ) (s : State S)
      (r : Outcome Thrown Bool × State S)
      → resubmitted deps session prompt s ≡ r
      → (blocks (or_block deps (acknowledged_or_not deps d r)).0 ≡ false)
        ↔ IsResubmitted session prompt s
  unfolding acknowledged_or_not or_block block_prompt warn_context
  acknowledged_iff d session prompt s (err e, t) h = (λ e. absurd (cc), λ (t', e). absurd (cc))
  acknowledged_iff d session prompt s (ok true, t) h = (λ e. (t, h), λ e. refl)
  acknowledged_iff d session prompt s (ok false, t) h = (λ e. absurd (cc), λ (t', e). absurd (cc))

  warned_iff :
      (risk : RiskLevel) (d : Decision) (session : Option String) (prompt : List ℕ) (s : State S)
      → (blocks (or_block deps (warned deps (warn_tier (some risk)) d session prompt s)).0 ≡ false)
        ↔ MayPass warn risk session prompt s
  unfolding warned or_block warn_context block_prompt warn_tier
  warned_iff RiskLevel.critical d session prompt s = (λ e. absurd (cc), λ e. absurd e)
  warned_iff RiskLevel.high d session prompt s = (λ e. absurd (cc), λ e. absurd e)
  warned_iff RiskLevel.medium d session prompt s =
      acknowledged_iff d session prompt s (resubmitted deps session prompt s) refl
  warned_iff RiskLevel.low d session prompt s = (λ e. tt, λ e. refl)

  prompt_as_iff :
      (a : Action) (d : Decision) (session : Option String) (prompt : List ℕ) (s : State S)
      → (blocks (or_block deps (prompt_as deps a d session prompt s)).0 ≡ false)
        ↔ MayPass a d.risk_level session prompt s
  unfolding prompt_as or_block block_prompt
  prompt_as_iff allow d session prompt s = (λ e. tt, λ e. refl)
  prompt_as_iff block d session prompt s = (λ e. absurd (cc), λ e. absurd e)
  prompt_as_iff warn d session prompt s = warned_iff d.risk_level d session prompt s

  -- A decision of the scan under which the prompt may pass.
  abbrev pub Passes : Option String → List ℕ → State S → Outcome Thrown Decision × S → Type 0
  Passes session prompt s r =
      (d : Decision) × (w : S) × (r ≡ (ok d, w))
      × MayPass d.action d.risk_level session prompt (record s { world = w })

  scanned-Passes :
      (session : Option String) (prompt : List ℕ) (s : State S) (r : Outcome Thrown Decision × S)
      → blocks (or_block deps (prompt_scanned deps session prompt s.store r)).0 ≡ false
      → Passes session prompt s r
  unfolding prompt_scanned or_block block_prompt
  scanned-Passes session prompt s (err e, w) h = absurd (cc)
  scanned-Passes session prompt s (ok d, w) h =
      (d, w, refl, (prompt_as_iff d.action d session prompt (record s { world = w })).0 h)

  scanned_iff :
      (session : Option String) (prompt : List ℕ) (s : State S) (r : Outcome Thrown Decision × S)
      → (blocks (or_block deps (prompt_scanned deps session prompt s.store r)).0 ≡ false)
        ↔ Passes session prompt s r
  unfolding prompt_scanned
  scanned_iff session prompt s r = (
    scanned-Passes session prompt s r,
    λ (d, w, e, h). rw e ((prompt_as_iff d.action d session prompt (record s { world = w })).1 h),
  )

  -- A prompt that is not blank passes the hook exactly if its scan returned a decision that allows
  -- it: one to allow, a warning of low risk, or a warning of medium risk when the same prompt was
  -- blocked before, within the window, and the store could be written.
  pub main_iff :
      (input : HookInput) (prompt : List ℕ) (s : State S)
      → input.hook_event_name ≡ some "UserPromptSubmit"
      → input.prompt ≡ text prompt
      → is_blank prompt ≡ false
      → (blocks (main deps (event input) s).0 ≡ false)
        ↔ Passes input.session_id prompt s (scan_text deps prompt s.world)
  unfolding main run_hook run_event handle_user_prompt prompt_text as_text or_block
  main_iff input prompt s named written filled =
      rw (named, written, filled)
        (scanned_iff input.session_id prompt s (scan_text deps prompt s.world))

  -- What a decision must say for a command to be denied; a command that cannot be scanned is denied.
  abbrev pub is_deniable : Action → RiskLevel → Bool
  is_deniable allow risk = false
  is_deniable block risk = true
  is_deniable warn RiskLevel.critical = true
  is_deniable warn RiskLevel.high = true
  is_deniable warn RiskLevel.medium = false
  is_deniable warn RiskLevel.low = false

  abbrev pub deniable : Outcome Thrown Decision → Bool
  deniable (ok d) = is_deniable d.action d.risk_level
  deniable (err e) = true

  denies-tool_warned :
      (risk : RiskLevel) (d : Decision)
      → denies (tool_warned deps (warn_tier (some risk)) d) ≡ is_deniable warn risk
  unfolding tool_warned warn_tier deny_tool
  denies-tool_warned RiskLevel.critical d = refl
  denies-tool_warned RiskLevel.high d = refl
  denies-tool_warned RiskLevel.medium d = refl
  denies-tool_warned RiskLevel.low d = refl

  denies-tool_as :
      (a : Action) (d : Decision) → denies (tool_as deps a d) ≡ is_deniable a d.risk_level
  unfolding tool_as deny_tool
  denies-tool_as allow d = refl
  denies-tool_as block d = refl
  denies-tool_as warn d = denies-tool_warned d.risk_level d

  denies-tool_scanned :
      (store : Store) (r : Outcome Thrown Decision × S)
      → denies (or_deny deps (tool_scanned deps store r)).0 ≡ deniable r.0
  unfolding tool_scanned or_deny deny_tool
  denies-tool_scanned store (err e, w) = refl
  denies-tool_scanned store (ok d, w) = denies-tool_as d.action d

  -- A command that is not blank is denied exactly if its scan threw, or returned a decision to
  -- block, or a warning of high or critical risk.
  pub denies-main :
      (input : HookInput) (command : List ℕ) (s : State S)
      → input.hook_event_name ≡ some "PreToolUse"
      → input.tool_name ≡ some "Bash"
      → input.command ≡ text command
      → is_blank command ≡ false
      → denies (main deps (event input) s).0 ≡ deniable (scan_text deps command s.world).0
  unfolding main run_hook run_event handle_pre_tool tool_named tool_text as_text or_block
  denies-main input command s named bash written filled =
      rw (named, bash, written, filled)
        (denies-tool_scanned s.store (scan_text deps command s.world))
