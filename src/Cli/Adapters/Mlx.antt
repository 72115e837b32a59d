-- ===== src/Cli/Adapters/Mlx.antt =====
-- cli-connectors/adapters/mlx/src/index.ts
use vguardrail.Base.{Bool, true, false, not, ◌&&◌, Option, none, some, List, [], ◌∷◌, if◌then◌else◌}
use vguardrail.Base.Units.{units, is_empty, starts_with}
use vguardrail.Cli.Connector.{ExtractionResult}
use vguardrail.Cli.Adapters.{Word, is, value_of, Host, stdin_of, not_found, found_with}

-- The prompt of the flag so far; `none` says that the flag was not met.
abbrev pub prompt_after : Option Word → Word → Option Word
prompt_after prompt arg =
    if starts_with (units "--prompt=") arg then some (value_of "--prompt=" arg) else prompt

-- The loop: `taken` says that this argument is the prompt.
unfoldable pub collected : Bool → Option Word → List Word → Option Word
collected taken prompt [] = prompt
collected true prompt (arg ∷ args) = collected false (some arg) args
collected false prompt (arg ∷ args) =
    collected (is "--prompt" arg && not (is_empty args)) (prompt_after prompt arg) args

unfoldable pub extracted_from : Option Word → Host → ExtractionResult
unfolding stdin_of
extracted_from none host = not_found
extracted_from (some prompt) host =
    if is "-" prompt
    then (if host.piped
        then (if is_empty (stdin_of host)
            then not_found
            else found_with (stdin_of host) none (some (stdin_of host)))
        else not_found)
    else if is_empty prompt
    then not_found
    else found_with prompt none none

-- `extractContext`
unfoldable pub extract_context : List Word → Host → ExtractionResult
unfolding extracted_from collected
extract_context args host = extracted_from (collected false none args) host
