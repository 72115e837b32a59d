-- ===== src/Cli/Bypass.antt =====
-- cli-connectors/framework/src/core/bypass.ts, and `resolveInteractiveGuard` of core/connector.ts.
-- An environment gives each variable its value, if it is set.
pub mod Flags
use vguardrail.Base.{
  ℕ, String, Bool, true, false, not, ◌||◌, Option, none, some, List, keep, length, ◌==◌,
  if◌then◌else◌,
}
use vguardrail.Base.Text.{str_eq}

abbrev pub bypass_flag : String
bypass_flag = "--bypass"

abbrev pub bypass_env_var : String
bypass_env_var = "VG_BYPASS"

pub data BypassSource : Type 0 where
  flag env : BypassSource

-- `BypassResolution`
pub record BypassResolution : Type 0 where
  pub bypass : Bool
  pub args : List String
  pub source : Option BypassSource

-- `env[name] === '1'`
abbrev pub is_one : Option String → Bool
is_one none = false
is_one (some v) = str_eq v "1"

-- `args.filter((arg) => arg !== flag)`
abbrev pub strip : String → List String → List String
strip f args = keep (λ a. not (str_eq a f)) args

-- The two early returns of `resolveBypass`, and its last.
bypass_from : Bool → Bool → List String → BypassResolution
bypass_from flag_present env_present stripped =
    if flag_present
    then record { bypass = true; args = stripped; source = some BypassSource.flag }
    else if env_present
    then record { bypass = true; args = stripped; source = some BypassSource.env }
    else record { bypass = false; args = stripped; source = none }

-- `resolveBypass`
unfoldable pub resolve_bypass : List String → (String → Option String) → BypassResolution
unfolding bypass_from
resolve_bypass args vars =
    let stripped = strip bypass_flag args in
    bypass_from (not (length stripped == length args)) (is_one (vars bypass_env_var)) stripped

abbrev pub guard_flag : String
guard_flag = "--interactive-guard"

pub record GuardResolution : Type 0 where
  pub enabled : Bool
  pub args : List String

-- `resolveInteractiveGuard`
unfoldable pub resolve_interactive_guard : List String → (String → Option String) → GuardResolution
resolve_interactive_guard args vars =
    let stripped = strip guard_flag args in
    let flag_present = not (length stripped == length args) in
    record { enabled = flag_present || is_one (vars "VG_INTERACTIVE_GUARD"); args = stripped }
