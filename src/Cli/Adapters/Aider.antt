-- ===== src/Cli/Adapters/Aider.antt =====
-- cli-connectors/adapters/aider/src/index.ts
use vguardrail.Base.{not, ◌&&◌, ◌||◌, Option, none, some, List, [], ◌∷◌, if◌then◌else◌}
use vguardrail.Base.Units.{units, is_empty, starts_with}
use vguardrail.Cli.Connector.{ExtractionResult}
use vguardrail.Cli.Adapters.{
  Word, is, value_of, Host, read_file_content, not_found, unreadable, found_with,
}

-- What the next argument is: read by itself, the prompt, or the file of the prompt.
pub data Expected : Type 0 where
  argument prompt file : Expected

abbrev pub expected_after : Word → List Word → Expected
expected_after arg args =
    if (is "--message" arg || (is "--msg" arg || is "-m" arg)) && not (is_empty args)
    then prompt
    else if (is "--message-file" arg) && not (is_empty args)
    then file
    else argument

-- The prompt and its file after this argument.
abbrev pub prompt_after : Word → Word → Word
prompt_after found arg =
    if starts_with (units "--message=") arg
    then value_of "--message=" arg
    else if starts_with (units "--msg=") arg
    then value_of "--msg=" arg
    else found

abbrev pub file_after : Word → Word → Word
file_after path arg =
    if starts_with (units "--message-file=") arg then value_of "--message-file=" arg else path

-- The loop, from the prompt and the file so far.
unfoldable pub collected : Expected → Word → Word → List Word → Word × Word
collected e found path [] = (found, path)
collected argument found path (arg ∷ args) =
    collected (expected_after arg args) (prompt_after found arg) (file_after path arg) args
collected prompt found path (arg ∷ args) = collected argument arg path args
collected file found path (arg ∷ args) = collected argument found arg args

-- The content of the file is the prompt if there is no other.
unfoldable pub with_file : Word → Word → Option Word → ExtractionResult
with_file found path none = unreadable "Cannot read --message-file"
with_file found path (some content) =
    found_with (if is_empty found then content else found)
      (some (record { path = path; content = content } ∷ [])) none

unfoldable pub extracted_from : Host → Word × Word → ExtractionResult
unfolding with_file read_file_content
extracted_from host (found, path) =
    if is_empty found && is_empty path
    then not_found
    else if is_empty path
    then found_with found (some []) none
    else with_file found path (read_file_content host path)

-- `extractContext`
unfoldable pub extract_context : List Word → Host → ExtractionResult
unfolding extracted_from collected
extract_context args host = extracted_from host (collected argument [] [] args)
