-- ===== src/Cli/Connector.antt =====
-- cli-connectors/framework/src/core/connector.ts: one wrapped run of a tool. What the connector is
-- built from and what Node gives it are fields of `Parts`; they act on a world `S`. `process.exit`
-- is the end of the run.
pub mod Licence
pub mod FailClosed
use vguardrail.Base.{
  ℕ, String, Bool, true, false, not, ◌&&◌, Option, none, some, List, [], Outcome, ok, err,
  if◌then◌else◌,
}
use vguardrail.Base.Text.{str_eq}
use vguardrail.Sdk.Decision.{Decision}
use vguardrail.Sdk.Errors.{Thrown}
use vguardrail.Sdk.ScanRequest.{ScanRequest, UserContext, RepoContext}
use vguardrail.Cli.Enforcement.{Terminal, EnforcementResult, enforce_decision}
use vguardrail.Cli.Bypass.{
  BypassResolution, resolve_bypass, GuardResolution, resolve_interactive_guard,
}
use vguardrail.Cli.ScanText.{ExtractionContext, Tool, build_scan_request}
use vguardrail.Cli.Executor.{Launch, Fate, ExecutionResult, execute_tool}

-- `ExtractionResult`
pub record ExtractionResult : Type 0 where
  pub found : Bool
  pub context : Option ExtractionContext
  pub error : Option String

-- How a run ends: the real tool ran and gave its exit code, the guarded session did, or the run
-- was refused with exit code 1.
pub data Ending : Type 0 where
  ran : Launch → ℕ → Ending
  guarded : List String → ℕ → Ending
  refused : Ending

-- `extract` is the tool's extractor, which may throw an error with a message; `run_pty` is
-- `runPtySession`, with the import of its module.
pub record Parts (S : Type 0) : Type 0 where
  pub tool : Tool
  pub user : UserContext
  pub repo : Option RepoContext
  pub vars : String → Option String
  pub is_tty : Bool
  pub extract : List String → S → Outcome String ExtractionResult × S
  pub scan : ScanRequest → S → Outcome Thrown Decision × S
  pub acknowledge : String → S → S
  pub spawn : Launch → S → Fate × S
  pub run_pty : List String → S → Outcome String ℕ × S
  pub terminal : Terminal S
  pub say : String → S → S

-- `if (extractionResult.error)`: an empty message counts as no error.
abbrev pub truthy : Option String → Bool
truthy none = false
truthy (some m) = not (str_eq m "")

-- The handler of `extractContext`.
unfoldable pub extracted : Outcome String ExtractionResult → ExtractionResult
extracted (ok r) = r
extracted (err m) = record { found = false; context = none; error = some m }

module _ {S : Type 0} (parts : Parts S) where
  -- `spawnReal`
  unfoldable pub spawn_real : List String → Option (List ℕ) → S → Ending × S
  spawn_real args stdin_data s =
      let launch : Launch = record {
        executable = parts.tool.executable_path;
        args = args;
        stdin_data = stdin_data;
      } in
      let (result, s') = execute_tool parts.spawn launch s in (ran launch result.exit_code, s')

  unfoldable pub session_ended : List String → Outcome String ℕ × S → Ending × S
  session_ended args (ok code, s) = (guarded args code, s)
  session_ended args (err m, s) = (refused, parts.say "Interactive guard could not start" s)

  -- `runInteractiveGuard`
  unfoldable pub run_interactive_guard : List String → S → Ending × S
  unfolding session_ended
  run_interactive_guard args s = session_ended args (parts.run_pty args s)

  unfoldable pub enforced : List String → Option (List ℕ) → EnforcementResult × S → Ending × S
  unfolding spawn_real
  enforced args stdin_data (result, s) =
      if result.should_proceed then spawn_real args stdin_data s else (refused, s)

  unfoldable pub evaluated :
      List String → Option (List ℕ) → Outcome Thrown Decision × S → Ending × S
  unfolding enforced enforce_decision
  evaluated args stdin_data (err e, s) = (refused, parts.say "Security check unavailable" s)
  evaluated args stdin_data (ok d, s) =
      enforced args stdin_data (enforce_decision parts.terminal d s)

  -- Steps 2 to 5 of `run`.
  unfoldable pub run_scanned : List String → Option ExtractionContext → S → Ending × S
  unfolding evaluated build_scan_request
  run_scanned args none s = spawn_real args none s
  run_scanned args (some c) s =
      evaluated args c.stdin_data
        (parts.scan (build_scan_request c parts.tool parts.user parts.repo) s)

  -- No prompt was found.
  unfoldable pub run_interactive : Bool → List String → S → Ending × S
  unfolding run_interactive_guard
  run_interactive guard_requested args s =
      if guard_requested && (parts.tool.is_interactive && parts.is_tty)
      then run_interactive_guard args s
      else if guard_requested && not parts.tool.is_interactive
      then spawn_real args none (parts.say "interactive guard not available" s)
      else spawn_real args none s

  -- What `run` does with the result of the extraction.
  unfoldable pub run_extracted : Bool → List String → ExtractionResult → S → Ending × S
  unfolding run_interactive run_scanned
  run_extracted guard_requested args r s =
      if truthy r.error
      then (refused, parts.say "Failed to extract prompt context" s)
      else if not r.found
      then run_interactive guard_requested args s
      else run_scanned args r.context s

  -- `extractContext`, and what follows it
  unfoldable pub run_guarded : GuardResolution → S → Ending × S
  unfolding run_extracted extracted
  run_guarded g s =
      let (r, s') = parts.extract g.args s in run_extracted g.enabled g.args (extracted r) s'

  unfoldable pub run_resolved : BypassResolution → S → Ending × S
  unfolding run_guarded
  run_resolved b s =
      if b.bypass
      then spawn_real b.args none
          (parts.acknowledge parts.tool.name (parts.say "EMERGENCY BYPASS ACTIVE" s))
      else run_guarded (resolve_interactive_guard b.args parts.vars) s

  -- `run`
  unfoldable pub run : List String → S → Ending × S
  unfolding run_resolved
  run raw s = run_resolved (resolve_bypass raw parts.vars) s
