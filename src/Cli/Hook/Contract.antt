-- ===== src/Cli/Hook/Contract.antt =====
-- What Claude Code does with the output of the hook: an exit code other than 0 and 2 lets the prompt
-- through, and so does an output without a decision.
use vguardrail.Base.{String, Bool, false, ◌&&◌, Option, none, some, ◌==◌, if◌then◌else◌}
use vguardrail.Base.Text.{str_eq}
use vguardrail.Json.{Json, str, obj, Fields, end, field}
use vguardrail.Cli.Hook.{HookOutput}

-- A property of an object.
abbrev property : String → Fields → Option Json
property k end = none
property k (field i v r) = let rest = property k r in if str_eq i k then some v else rest

abbrev property_of : String → Option Json → Option Json
property_of k (some (obj fields)) = property k fields
property_of k _ = none

abbrev is_text : String → Option Json → Bool
is_text s (some (str t)) = str_eq t s
is_text s _ = false

-- `{ "decision": "block" }`
abbrev pub blocks : HookOutput → Bool
blocks out = out.exit_code == 0 && is_text "block" (property_of "decision" out.stdout)

-- `{ "hookSpecificOutput": { "permissionDecision": "deny" } }`
abbrev pub denies : HookOutput → Bool
denies out =
    out.exit_code == 0
    && is_text "deny"
        (property_of "permissionDecision" (property_of "hookSpecificOutput" out.stdout))
