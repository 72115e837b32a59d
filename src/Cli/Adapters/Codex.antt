-- ===== src/Cli/Adapters/Codex.antt =====
-- cli-connectors/adapters/codex/src/index.ts
pub mod Words
use vguardrail.Base.{
  String, Bool, true, false, not, ◌&&◌, ◌||◌, Option, none, some, List, [], ◌∷◌, if◌then◌else◌,
}
use vguardrail.Base.Units.{units, join}
use vguardrail.Cli.Connector.{ExtractionResult}
use vguardrail.Cli.Adapters.{Word, is, one_of, is_flag, Host, not_found, with_stdin}

-- `VALUE_FLAGS`
abbrev pub value_flags : List String
value_flags =
    "-m" ∷ "--model" ∷ "-p" ∷ "--profile" ∷ "-s" ∷ "--sandbox" ∷ "-a" ∷ "--ask-for-approval" ∷ "-c"
    ∷ "--config" ∷ "-C" ∷ "--cd" ∷ "-i" ∷ "--image" ∷ "--color" ∷ "--output-schema"
    ∷ "--output-last-message" ∷ []

-- `NON_PROMPT_SUBCOMMANDS`
abbrev pub non_prompt_subcommands : List String
non_prompt_subcommands =
    "login" ∷ "logout" ∷ "mcp" ∷ "proto" ∷ "completion" ∷ "debug" ∷ "apply" ∷ "resume" ∷ "sandbox"
    ∷ []

-- `VALUE_FLAGS.has(arg)`
unfoldable pub takes_value : Word → Bool
takes_value arg = one_of value_flags arg

-- `NON_PROMPT_SUBCOMMANDS.has(arg)`
unfoldable pub carries_none : Word → Bool
carries_none arg = one_of non_prompt_subcommands arg

-- A flag whose value does not follow; `-` stands for stdin.
unfoldable pub is_switch : Word → Bool
is_switch arg = is_flag arg && not (is "-" arg)

-- `positional.push(arg)`, unless it is `-`
unfoldable pub with_word : Word → Option (List Word) → Option (List Word)
with_word arg none = none
with_word arg (some words) = if is "-" arg then some words else some (arg ∷ words)

-- The loop: `skip` says that this argument is the value of the last, and `seen` is
-- `firstPositionalSeen`. It gives nothing for a subcommand without a prompt.
unfoldable pub positional : Bool → Bool → List Word → Option (List Word)
unfolding with_word takes_value carries_none is_switch
positional skip seen [] = some []
positional true seen (arg ∷ args) = positional false seen args
positional false seen (arg ∷ args) =
    let valued = takes_value arg in
    let skipped = valued || is_switch arg in
    let rest = positional valued (seen || not skipped) args in
    if skipped
    then rest
    else if not seen && is "exec" arg
    then rest
    else if not seen && carries_none arg
    then none
    else with_word arg rest

unfoldable pub extracted_from : Option (List Word) → Host → ExtractionResult
unfolding with_stdin
extracted_from none host = not_found
extracted_from (some words) host = with_stdin (join (units " ") words) host

-- `extractContext`
unfoldable pub extract_context : List Word → Host → ExtractionResult
unfolding extracted_from positional
extract_context args host = extracted_from (positional false false args) host
