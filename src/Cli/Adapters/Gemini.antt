-- ===== src/Cli/Adapters/Gemini.antt =====
-- cli-connectors/adapters/gemini/src/index.ts
use vguardrail.Base.{String, not, ◌&&◌, ◌||◌, Option, none, some, List, [], ◌∷◌, if◌then◌else◌}
use vguardrail.Base.Units.{units, join, is_empty, starts_with}
use vguardrail.Cli.Connector.{ExtractionResult}
use vguardrail.Cli.Adapters.{Word, is, one_of, is_flag, value_of, Host, not_found, with_stdin}

-- `VALUE_FLAGS`
abbrev pub value_flags : List String
value_flags =
    "-m" ∷ "--model" ∷ "-e" ∷ "--extensions" ∷ "--include-directories" ∷ "--proxy"
    ∷ "--sandbox-image" ∷ "--allowed-mcp-server-names" ∷ "--allowed-tools" ∷ "--approval-mode"
    ∷ "--telemetry-target" ∷ "--telemetry-otlp-endpoint" ∷ "--telemetry-outfile" ∷ []

-- What the next argument is: read by itself, skipped, or the prompt.
pub data Expected : Type 0 where
  argument skipped prompt : Expected

-- What the argument after this one is.
abbrev pub expected_after : Word → List Word → Expected
expected_after arg args =
    if (is "-p" arg || is "--prompt" arg) && not (is_empty args)
    then prompt
    else if one_of value_flags arg
    then skipped
    else argument

-- `positional.push(arg)`
unfoldable pub with_positional : Word → Option (Word × List Word) → Option (Word × List Word)
with_positional arg none = none
with_positional arg (some (flag_prompt, words)) = some (flag_prompt, arg ∷ words)

-- The loop, from the prompt of the flags so far; with it, the positional arguments. It gives nothing
-- for an interactive session.
unfoldable pub collected : Expected → Word → List Word → Option (Word × List Word)
unfolding with_positional
collected e flag_prompt [] = some (flag_prompt, [])
collected skipped flag_prompt (arg ∷ args) = collected argument flag_prompt args
collected prompt flag_prompt (arg ∷ args) = collected argument arg args
collected argument flag_prompt (arg ∷ args) =
    let inline = starts_with (units "--prompt=") arg in
    let rest =
      collected (expected_after arg args) (if inline then value_of "--prompt=" arg else flag_prompt)
        args in
    if is "-i" arg || is "--interactive" arg
    then none
    else if is_flag arg
    then rest
    else with_positional arg rest

unfoldable pub extracted_from : Option (Word × List Word) → Host → ExtractionResult
unfolding with_stdin
extracted_from none host = not_found
extracted_from (some (flag_prompt, positional)) host =
    with_stdin (if is_empty flag_prompt then join (units " ") positional else flag_prompt) host

-- `extractContext`
unfoldable pub extract_context : List Word → Host → ExtractionResult
unfolding extracted_from collected
extract_context args host = extracted_from (collected argument [] args) host
