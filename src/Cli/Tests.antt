-- ===== src/Cli/Tests.antt =====
-- Concrete runs of the connector.
mod Adapters
use vguardrail.Base.{
  ◌≡◌, refl, ◌↔◌, ◌≤◌, ◌+◌, ℕ, true, false, ◌||◌, none, some, List, [], ◌∷◌, ok, any, length, take,
  if◌then◌else◌, arith,
}
use vguardrail.Base.Text.{str_eq}
use vguardrail.Base.Units.{units}
use vguardrail.Sdk.Enums.{allow, warn, Role}
use vguardrail.Sdk.Errors.{engine_unavailable_error}
use vguardrail.Sdk.ScanRequest.{UserContext}
use vguardrail.Sdk.Client.Tests.{decision, away, away-fails, fresh, afterwards}
use vguardrail.Cli.Enforcement.{Terminal, enforce_decision}
use vguardrail.Cli.Enforcement.Tiers.{MayProceed, enforce_decision_iff}
use vguardrail.Cli.Bypass.{
  resolve_bypass, resolve_interactive_guard, bypass_flag, flag, env, is_one,
}
use vguardrail.Cli.Bypass.Flags.{resolve_bypass_lem}
use vguardrail.Cli.ScanText.{
  ScannedFile, ExtractionContext, Tool, max_prompt_length, truncation_mark, truncate_prompt,
  build_scan_request, compose_scan_text,
}
use vguardrail.Cli.ScanText.Coverage.{Occurs, In, build_scan_request-covers, truncate_prompt_bounds}
use vguardrail.Cli.Executor.{Launch, exited, execute_tool, result_of}
use vguardrail.Cli.Connector.{
  Parts, ran, refused, run, run_resolved, run_guarded, run_extracted, extracted, run_scanned,
  evaluated, enforced, spawn_real,
}
use vguardrail.Cli.Connector.Licence.{found, Licence, run-Licence}
use vguardrail.Cli.Connector.FailClosed.{with_policy, run-fails_closed}

abbrev agreeing : {S : Type 0} → Terminal S
agreeing = record { show_warning = λ d s. s; show_block = λ d o s. s; confirm = λ s. (ok true, s) }

abbrev tool : Tool
tool = record {
  name = "claude";
  display_name = "Claude";
  executable_path = "/usr/bin/claude";
  provider = some "anthropic";
  default_model = none;
  clear_input_sequence = none;
  is_interactive = false;
}

abbrev someone : UserContext
someone = record { user_id = "u"; role = Role.user; groups = [] }

abbrev context : ExtractionContext
context = record {
  prompt = units "hi";
  files = record { path = units "a"; content = units "key" } ∷ [];
  stdin_data = some (units "in");
}

abbrev parts : {S : Type 0} → Parts S
parts = record {
  tool = tool;
  user = someone;
  repo = none;
  vars = λ name. none;
  is_tty = false;
  extract = λ args s. (ok (record { found = true; context = some context; error = none }), s);
  scan = λ request s. (ok (decision allow), s);
  acknowledge = λ name s. s;
  spawn = λ launch s. (exited 0, s);
  run_pty = λ args s. (ok 0, s);
  terminal = agreeing;
  say = λ m s. s;
}

abbrev launch : Launch
launch = record {
  executable = "/usr/bin/claude";
  args = "-p" ∷ "hi" ∷ [];
  stdin_data = some (units "in");
}

ran_here : run {S = ℕ} parts ("-p" ∷ "hi" ∷ []) 0 ≡ (ran launch 0, 0)
unfolding run run_resolved resolve_bypass resolve_interactive_guard run_guarded run_extracted
    extracted run_scanned evaluated enforced enforce_decision spawn_real execute_tool result_of
ran_here = refl

no_error : (found {S = ℕ} parts ("-p" ∷ "hi" ∷ []) 0).0.error ≡ some "" → ⊥
unfolding extracted
no_error h = absurd (cc)

run-Licence_example : Licence {S = ℕ} parts ("-p" ∷ "hi" ∷ []) 0 launch
run-Licence_example = run-Licence {S = ℕ} parts ("-p" ∷ "hi" ∷ []) 0 launch 0 0 no_error ran_here

run-fails_closed_example : (run (with_policy away parts) ("-p" ∷ "hi" ∷ []) fresh).0 ≡ refused
unfolding resolve_bypass extracted
run-fails_closed_example =
    run-fails_closed away parts ("-p" ∷ "hi" ∷ []) fresh context (engine_unavailable_error "down")
      afterwards refl refl refl refl (away-fails _)

enforce_decision_iff_example :
    ((enforce_decision {S = ℕ} agreeing (decision warn) 0).0.should_proceed ≡ true)
    ↔ MayProceed {S = ℕ} agreeing 0 (decision warn)
enforce_decision_iff_example = enforce_decision_iff {S = ℕ} agreeing 0 (decision warn)

short_text : length (compose_scan_text context) ≤ max_prompt_length
unfolding compose_scan_text
short_text = omega arith

build_scan_request-covers_example :
    Occurs context.prompt (build_scan_request context tool someone none).text
    × ((s : List ℕ)
        → context.stdin_data ≡ some s
        → Occurs s (build_scan_request context tool someone none).text)
    × ((f : ScannedFile)
        → In f context.files
        → Occurs f.content (build_scan_request context tool someone none).text)
build_scan_request-covers_example = build_scan_request-covers context tool someone none short_text

resolve_bypass_lem_example :
    ((resolve_bypass ("-p" ∷ "--bypass" ∷ []) (λ name. none)).bypass
      ≡ (any (λ a. str_eq a bypass_flag) ("-p" ∷ "--bypass" ∷ []) || is_one none))
    × ((resolve_bypass ("-p" ∷ "--bypass" ∷ []) (λ name. none)).source ≡ (
        if any (λ a. str_eq a bypass_flag) ("-p" ∷ "--bypass" ∷ [])
        then some flag
        else if is_one none
        then some env
        else none))
    × (any (λ a. str_eq a bypass_flag) (resolve_bypass ("-p" ∷ "--bypass" ∷ []) (λ name. none)).args
        ≡ false)
resolve_bypass_lem_example = resolve_bypass_lem ("-p" ∷ "--bypass" ∷ []) (λ name. none)

truncate_prompt_bounds_example :
    (length (truncate_prompt (units "hi")) ≤ max_prompt_length + length truncation_mark)
    × (take max_prompt_length (truncate_prompt (units "hi")) ≡ take max_prompt_length (units "hi"))
truncate_prompt_bounds_example = truncate_prompt_bounds (units "hi")
