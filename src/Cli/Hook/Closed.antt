-- ===== src/Cli/Hook/Closed.antt =====
-- Whatever is on stdin and whatever fails, the hook says so in the way that Claude Code reads.
use vguardrail.Base.{
  ◌≡◌, refl, ℕ, String, Bool, true, false, not, ◌&&◌, Option, none, some, List, Outcome, ok, err,
  inl, inr, Bool-cases,
}
use vguardrail.Base.Text.{str_eq}
use vguardrail.Base.Units.{is_blank}
use vguardrail.Sdk.Enums.{Action, allow, warn, block}
use vguardrail.Sdk.Decision.{Decision}
use vguardrail.Sdk.Errors.{Thrown}
use vguardrail.Cli.Enforcement.{WarnTier, block_tier, prompt_tier, notice_tier, warn_tier}
use vguardrail.Cli.AckStore.{Store}
use vguardrail.Cli.Hook.{
  HookOutput, Value, missing, text, other, HookInput, Payload, event, malformed, nothing, HookDeps,
  State, block_prompt, warn_context, deny_tool, scan_text, resubmitted, warned, prompt_as,
  prompt_scanned, prompt_text, handle_user_prompt, run_event, run_hook, main, acknowledged_or_not,
  as_text, or_block, or_deny, tool_as, tool_scanned, tool_text, handle_pre_tool, tool_warned,
  tool_named,
}
use vguardrail.Cli.Hook.Contract.{blocks}

module _ {S : Type 0} (deps : HookDeps S) where
  -- What is printed goes with exit code 0.
  abbrev IsClean : Outcome Thrown HookOutput × State S → Type 0
  IsClean (ok out, s) = out.exit_code ≡ 0
  IsClean (err e, s) = Unit

  acknowledged-IsClean :
      (d : Decision) (r : Outcome Thrown Bool × State S) → IsClean (acknowledged_or_not deps d r)
  unfolding acknowledged_or_not warn_context block_prompt
  acknowledged-IsClean d (err e, s) = tt
  acknowledged-IsClean d (ok true, s) = refl
  acknowledged-IsClean d (ok false, s) = refl

  warned-IsClean :
      (tier : WarnTier) (d : Decision) (session : Option String) (prompt : List ℕ) (s : State S)
      → IsClean (warned deps tier d session prompt s)
  unfolding warned warn_context block_prompt
  warned-IsClean block_tier d session prompt s = refl
  warned-IsClean notice_tier d session prompt s = refl
  warned-IsClean prompt_tier d session prompt s =
      acknowledged-IsClean d (resubmitted deps session prompt s)

  prompt_as-IsClean :
      (a : Action) (d : Decision) (session : Option String) (prompt : List ℕ) (s : State S)
      → IsClean (prompt_as deps a d session prompt s)
  unfolding prompt_as block_prompt
  prompt_as-IsClean allow d session prompt s = refl
  prompt_as-IsClean block d session prompt s = refl
  prompt_as-IsClean warn d session prompt s =
      warned-IsClean (warn_tier (some d.risk_level)) d session prompt s

  prompt_scanned-IsClean :
      (session : Option String) (prompt : List ℕ) (store : Store) (r : Outcome Thrown Decision × S)
      → IsClean (prompt_scanned deps session prompt store r)
  unfolding prompt_scanned
  prompt_scanned-IsClean session prompt store (err e, w) = tt
  prompt_scanned-IsClean session prompt store (ok d, w) =
      prompt_as-IsClean d.action d session prompt _

  prompt_text-IsClean :
      (session : Option String) (t : Outcome Thrown (List ℕ)) (s : State S)
      → IsClean (prompt_text deps session t s)
  unfolding prompt_text
  prompt_text-IsClean session (err e) s = tt
  prompt_text-IsClean session (ok prompt) s = elim (Bool-cases (is_blank prompt)) [
    | inl blank ↦ rw blank refl
    | inr filled ↦
        rw filled (prompt_scanned-IsClean session prompt s.store (scan_text deps prompt s.world))
  ]

  tool_warned-IsClean : (tier : WarnTier) (d : Decision) → (tool_warned deps tier d).exit_code ≡ 0
  unfolding tool_warned deny_tool
  tool_warned-IsClean block_tier d = refl
  tool_warned-IsClean prompt_tier d = refl
  tool_warned-IsClean notice_tier d = refl

  tool_as-IsClean : (a : Action) (d : Decision) → (tool_as deps a d).exit_code ≡ 0
  unfolding tool_as deny_tool
  tool_as-IsClean allow d = refl
  tool_as-IsClean block d = refl
  tool_as-IsClean warn d = tool_warned-IsClean (warn_tier (some d.risk_level)) d

  tool_scanned-IsClean :
      (store : Store) (r : Outcome Thrown Decision × S) → IsClean (tool_scanned deps store r)
  unfolding tool_scanned
  tool_scanned-IsClean store (err e, w) = tt
  tool_scanned-IsClean store (ok d, w) = tool_as-IsClean d.action d

  tool_text-IsClean : (t : Outcome Thrown (List ℕ)) (s : State S) → IsClean (tool_text deps t s)
  unfolding tool_text
  tool_text-IsClean (err e) s = tt
  tool_text-IsClean (ok command) s = elim (Bool-cases (is_blank command)) [
    | inl blank ↦ rw blank refl
    | inr filled ↦ rw filled (tool_scanned-IsClean s.store (scan_text deps command s.world))
  ]

  tool_name-IsClean :
      (name : Option String) (input : HookInput) (s : State S)
      → IsClean (tool_named deps name input s)
  unfolding tool_named
  tool_name-IsClean none input s = refl
  tool_name-IsClean (some name) input s = elim (Bool-cases (str_eq name "Bash")) [
    | inl bash ↦ rw bash (tool_text-IsClean (as_text input.command) s)
    | inr differs ↦ rw differs refl
  ]

  or_deny_clean :
      (r : Outcome Thrown HookOutput × State S) → IsClean r → (or_deny deps r).0.exit_code ≡ 0
  unfolding or_deny deny_tool
  or_deny_clean (ok out, s) h = h
  or_deny_clean (err e, s) h = refl

  or_block_clean :
      (r : Outcome Thrown HookOutput × State S) → IsClean r → (or_block deps r).0.exit_code ≡ 0
  unfolding or_block block_prompt
  or_block_clean (ok out, s) h = h
  or_block_clean (err e, s) h = refl

  run_event_clean :
      (name : Option String) (input : HookInput) (s : State S)
      → (run_event deps name input s).0.exit_code ≡ 0
  unfolding run_event handle_user_prompt handle_pre_tool
  run_event_clean none input s = refl
  run_event_clean (some name) input s = elim (Bool-cases (str_eq name "UserPromptSubmit")) [
    | inl prompt ↦
        rw prompt (or_block_clean _ (prompt_text-IsClean input.session_id (as_text input.prompt) s))
    | inr differs ↦ rw differs (elim (Bool-cases (str_eq name "PreToolUse")) [
      | inl tool ↦ rw tool (or_deny_clean _ (tool_name-IsClean input.tool_name input s))
      | inr unknown ↦ rw unknown refl
    ])
  ]

  abbrev unreadable_event : Option String → Value → Bool
  unreadable_event (some name) other = str_eq name "UserPromptSubmit"
  unreadable_event name v = false

  -- Text that is no JSON, `null`, and a `UserPromptSubmit` event whose prompt is there (neither missing
  -- nor null) and no string.
  abbrev pub unreadable : Payload → Bool
  unreadable malformed = true
  unreadable nothing = true
  unreadable (event input) = unreadable_event input.hook_event_name input.prompt

  unread_blocked :
      (name : Option String) (v : Value) (input : HookInput) (s : State S)
      → input.prompt ≡ v
      → (unreadable_event name v && not (blocks (run_event deps name input s).0)) ≡ false
  unfolding run_event handle_user_prompt prompt_text as_text or_block block_prompt
  unread_blocked none missing input s e = refl
  unread_blocked none (text t) input s e = refl
  unread_blocked none other input s e = refl
  unread_blocked (some name) missing input s e = refl
  unread_blocked (some name) (text t) input s e = refl
  unread_blocked (some name) other input s e = elim (Bool-cases (str_eq name "UserPromptSubmit")) [
    | inl prompt ↦ rw (prompt, e) refl
    | inr differs ↦ rw differs refl
  ]

  -- Whatever is on stdin and whatever fails, the exit code is 0; and what is on stdin is blocked if it is
  -- no JSON, if it is `null`, or if it is a `UserPromptSubmit` event whose prompt is neither missing nor
  -- null nor a string.
  pub main_closed :
      (p : Payload) (s : State S)
      → ((main deps p s).0.exit_code ≡ 0)
        × ((unreadable p && not (blocks (main deps p s).0)) ≡ false)
  unfolding main run_hook or_block block_prompt
  main_closed malformed s = (refl, refl)
  main_closed nothing s = (refl, refl)
  main_closed (event input) s = (
    run_event_clean input.hook_event_name input s,
    unread_blocked input.hook_event_name input.prompt input s refl,
  )
