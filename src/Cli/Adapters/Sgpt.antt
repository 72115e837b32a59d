-- ===== src/Cli/Adapters/Sgpt.antt =====
-- cli-connectors/adapters/sgpt/src/index.ts
use vguardrail.Base.{
  String, Bool, true, false, not, ◌&&◌, ◌||◌, Option, none, some, List, [], ◌∷◌, if◌then◌else◌,
}
use vguardrail.Base.Units.{units, is_empty, starts_with}
use vguardrail.Cli.Connector.{ExtractionResult}
use vguardrail.Cli.Adapters.{Word, is, one_of, is_flag, Host, not_found, with_stdin}

-- `VALUE_FLAGS`
abbrev pub value_flags : List String
value_flags =
    "--model" ∷ "--temperature" ∷ "--top-p" ∷ "--top-probability" ∷ "--role" ∷ "--create-role"
    ∷ "--show-role" ∷ "--show-chat" ∷ []

-- Whether the value of this flag follows.
abbrev pub is_valued : Word → List Word → Bool
is_valued arg args = (is "--chat" arg && not (is_empty args)) || one_of value_flags arg

-- The loop, from the prompt met so far; it gives nothing for a session of prompts.
unfoldable pub positional_prompt : Bool → Word → List Word → Option Word
positional_prompt skip prompt [] = some prompt
positional_prompt true prompt (arg ∷ args) = positional_prompt false prompt args
positional_prompt false prompt (arg ∷ args) =
    let valued = is_valued arg args in
    let rest =
      positional_prompt valued
        (if not valued && not (is_flag arg) && is_empty prompt then arg else prompt) args in
    if is "--repl" arg || starts_with (units "--repl=") arg then none else rest

unfoldable pub extracted_from : Option Word → Host → ExtractionResult
unfolding with_stdin
extracted_from none host = not_found
extracted_from (some prompt) host = with_stdin prompt host

-- `extractContext`
unfoldable pub extract_context : List Word → Host → ExtractionResult
unfolding extracted_from positional_prompt
extract_context args host = extracted_from (positional_prompt false [] args) host
