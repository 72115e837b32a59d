-- ===== src/Cli/Hook.antt =====
-- cli-connectors/adapters/claude/src/hook.ts: the hook that Claude Code runs with an event on stdin.
-- What Claude Code does with the output is written in that file's first comment.
pub mod Contract
pub mod Passes
pub mod Closed
mod Tests
use Prim.Native.String
use vguardrail.Base.{
  ℕ, String, Bool, true, false, Option, none, some, List, [], ◌∷◌, Outcome, ok, err, if◌then◌else◌,
}
use vguardrail.Base.Text.{str_eq}
use vguardrail.Base.Units.{is_blank}
use vguardrail.Json.{Json, obj, field, end, str}
use vguardrail.Sdk.Enums.{Action, allow, warn, block}
use vguardrail.Sdk.Decision.{Decision}
use vguardrail.Sdk.Errors.{Thrown, foreign}
use vguardrail.Sdk.ScanRequest.{ScanRequest, UserContext}
use vguardrail.Cli.Enforcement.{WarnTier, block_tier, prompt_tier, notice_tier, warn_tier}
use vguardrail.Cli.ScanText.{Tool, build_scan_request, create_extraction_context}
use vguardrail.Cli.AckStore.{Store, consume_or_record_ack}

-- `HookOutput`; no text is the empty string.
pub record HookOutput : Type 0 where
  pub stdout : Option Json
  pub exit_code : ℕ

-- A property that the types call a string, but that JSON can give any value.
pub data Value : Type 0 where
  missing : Value
  text : List ℕ → Value
  other : Value

-- `HookInput`; properties that are only compared or printed are `none` when they are no strings.
pub record HookInput : Type 0 where
  pub hook_event_name : Option String
  pub session_id : Option String
  pub prompt : Value
  pub tool_name : Option String
  pub command : Value  -- `tool_input?.command`

-- What `JSON.parse` makes of stdin.
pub data Payload : Type 0 where
  malformed : Payload
  nothing : Payload  -- `null`
  event : HookInput → Payload

-- `HookDeps`, with the calls that act on a world `S`; `ack_key` is `ackKey`, and `saves` says whether
-- the store's file could be written.
pub record HookDeps (S : Type 0) : Type 0 where
  pub user : UserContext
  pub scan : ScanRequest → S → Outcome Thrown Decision × S
  pub acknowledge_bypass : String → S → S
  pub now_ms : S → ℕ × S
  pub saves : Store → S → Bool × S
  pub ack_key : String → List ℕ → String

pub record State (S : Type 0) : Type 0 where
  pub store : Store
  pub world : S

abbrev pub claude_hook_tool : Tool
claude_hook_tool = record {
  name = "claude-code";
  display_name = "Claude Code";
  executable_path = "";
  provider = some "anthropic";
  default_model = none;
  clear_input_sequence = none;
  is_interactive = false;
}

-- `ALLOW`
abbrev pub allowed : HookOutput
allowed = record { stdout = none; exit_code = 0 }

unfoldable pub block_prompt : String → HookOutput
block_prompt reason = record {
  stdout = some (obj (field "decision" (str "block") (field "reason" (str reason) end)));
  exit_code = 0;
}

unfoldable pub warn_context : String → HookOutput
warn_context reason = record {
  stdout = some (
      obj (
        field "hookSpecificOutput"
          (obj (
            field "hookEventName" (str "UserPromptSubmit")
              (field "additionalContext" (str (String.◌++◌ "[VGuardrail] warning: " reason)) end)))
          end));
  exit_code = 0;
}

unfoldable pub deny_tool : String → HookOutput
deny_tool reason = record {
  stdout = some (
      obj (
        field "hookSpecificOutput"
          (obj (
            field "hookEventName" (str "PreToolUse") (
              field "permissionDecision" (str "deny")
                (field "permissionDecisionReason" (str reason) end))))
          end));
  exit_code = 0;
}

-- `x ?? ''` and the methods of strings that are called on it.
unfoldable pub as_text : Value → Outcome Thrown (List ℕ)
as_text missing = ok []
as_text (text s) = ok s
as_text other = err (foreign "not a string")

scope : Option String → String
scope none = "claude-hook:no-session"
scope (some id) = String.◌++◌ "claude-hook:" id

module _ {S : Type 0} (deps : HookDeps S) where
  -- `scanText`
  unfoldable pub scan_text : List ℕ → S → Outcome Thrown Decision × S
  scan_text t w =
      deps.scan
        (build_scan_request (create_extraction_context t none none) claude_hook_tool deps.user none)
        w

  saved : Bool → Store → State S → Bool × S → Outcome Thrown Bool × State S
  saved acknowledged store s (true, w) = (ok acknowledged, record { store = store; world = w })
  saved acknowledged store s (false, w) =
      (err (foreign "the store cannot be written"), record s { world = w })

  -- `consumeOrRecordAck`, with the file of its store
  unfoldable pub resubmitted : Option String → List ℕ → State S → Outcome Thrown Bool × State S
  unfolding saved scope
  resubmitted session prompt s =
      let (now, w) = deps.now_ms s.world in
      let (acknowledged, store) =
        consume_or_record_ack (deps.ack_key (scope session) prompt) now s.store in
      saved acknowledged store s (deps.saves store w)

  acknowledged_or_not :
      Decision → Outcome Thrown Bool × State S → Outcome Thrown HookOutput × State S
  acknowledged_or_not d (err e, s) = (err e, s)
  acknowledged_or_not d (ok true, s) = (
    ok (warn_context (String.◌++◌ "acknowledged — " d.reason)),
    record s { world = deps.acknowledge_bypass "warn:claude-code" s.world },
  )
  acknowledged_or_not d (ok false, s) = (
    ok (
        block_prompt (
          String.◌++◌ "medium risk: " (
            String.◌++◌ d.reason
              " — resubmit the same prompt within 60 seconds to acknowledge and proceed."))),
    s,
  )

  warned :
      WarnTier → Decision → Option String → List ℕ → State S → Outcome Thrown HookOutput × State S
  unfolding resubmitted acknowledged_or_not
  warned block_tier d session prompt s =
      (ok (block_prompt (String.◌++◌ d.reason " | high risk — blocked, no override")), s)
  warned notice_tier d session prompt s = (ok (warn_context d.reason), s)
  warned prompt_tier d session prompt s = acknowledged_or_not d (resubmitted session prompt s)

  prompt_as :
      Action → Decision → Option String → List ℕ → State S → Outcome Thrown HookOutput × State S
  unfolding warned
  prompt_as allow d session prompt s = (ok allowed, s)
  prompt_as block d session prompt s = (ok (block_prompt d.reason), s)
  prompt_as warn d session prompt s = warned (warn_tier (some d.risk_level)) d session prompt s

  prompt_scanned :
      Option String
      → List ℕ
      → Store
      → Outcome Thrown Decision × S
      → Outcome Thrown HookOutput × State S
  unfolding prompt_as
  prompt_scanned session prompt store (err e, w) = (err e, record { store = store; world = w })
  prompt_scanned session prompt store (ok d, w) =
      prompt_as d.action d session prompt (record { store = store; world = w })

  prompt_text :
      Option String → Outcome Thrown (List ℕ) → State S → Outcome Thrown HookOutput × State S
  unfolding prompt_scanned scan_text
  prompt_text session (err e) s = (err e, s)
  prompt_text session (ok prompt) s =
      if is_blank prompt
      then (ok allowed, s)
      else prompt_scanned session prompt s.store (scan_text prompt s.world)

  -- `handleUserPrompt`
  unfoldable pub handle_user_prompt : HookInput → State S → Outcome Thrown HookOutput × State S
  unfolding prompt_text as_text
  handle_user_prompt input s = prompt_text input.session_id (as_text input.prompt) s

  tool_warned : WarnTier → Decision → HookOutput
  tool_warned block_tier d = deny_tool d.reason
  tool_warned prompt_tier d = allowed
  tool_warned notice_tier d = allowed

  tool_as : Action → Decision → HookOutput
  unfolding tool_warned
  tool_as allow d = allowed
  tool_as block d = deny_tool d.reason
  tool_as warn d = tool_warned (warn_tier (some d.risk_level)) d

  tool_scanned : Store → Outcome Thrown Decision × S → Outcome Thrown HookOutput × State S
  unfolding tool_as
  tool_scanned store (err e, w) = (err e, record { store = store; world = w })
  tool_scanned store (ok d, w) = (ok (tool_as d.action d), record { store = store; world = w })

  tool_text : Outcome Thrown (List ℕ) → State S → Outcome Thrown HookOutput × State S
  unfolding tool_scanned scan_text
  tool_text (err e) s = (err e, s)
  tool_text (ok command) s =
      if is_blank command then (ok allowed, s) else tool_scanned s.store (scan_text command s.world)

  tool_named : Option String → HookInput → State S → Outcome Thrown HookOutput × State S
  unfolding tool_text as_text
  tool_named none input s = (ok allowed, s)
  tool_named (some name) input s =
      if str_eq name "Bash" then tool_text (as_text input.command) s else (ok allowed, s)

  -- `handlePreTool`
  unfoldable pub handle_pre_tool : HookInput → State S → Outcome Thrown HookOutput × State S
  unfolding tool_named
  handle_pre_tool input s = tool_named input.tool_name input s

  -- The handler of the second `try`.
  or_deny : Outcome Thrown HookOutput × State S → HookOutput × State S
  or_deny (ok out, s) = (out, s)
  or_deny (err e, s) = (deny_tool "security check unavailable — command blocked (fail-closed)", s)

  or_block : Outcome Thrown HookOutput × State S → HookOutput × State S
  or_block (ok out, s) = (out, s)
  or_block (err e, s) =
      (block_prompt "security check unavailable — prompt blocked (fail-closed)", s)

  unfoldable pub run_event : Option String → HookInput → State S → HookOutput × State S
  unfolding handle_user_prompt handle_pre_tool or_deny or_block
  run_event none input s = (allowed, s)
  run_event (some name) input s =
      if str_eq name "UserPromptSubmit"
      then or_block (handle_user_prompt input s)
      else if str_eq name "PreToolUse"
      then or_deny (handle_pre_tool input s)
      else (allowed, s)

  -- `runHook`, which throws on `null`: its handler reads the event's name again.
  unfoldable pub run_hook : Payload → State S → Outcome Thrown HookOutput × State S
  unfolding run_event
  run_hook malformed s = (
    ok (
        block_prompt
          "security check unavailable (malformed hook input) — prompt blocked (fail-closed)"),
    s,
  )
  run_hook nothing s = (err (foreign "null has no properties"), s)
  run_hook (event input) s = let (out, s') = run_event input.hook_event_name input s in (ok out, s')

  -- `main`, from the text that was read on
  unfoldable pub main : Payload → State S → HookOutput × State S
  unfolding run_hook or_block
  main p s = or_block (run_hook p s)
