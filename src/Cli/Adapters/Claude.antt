-- ===== src/Cli/Adapters/Claude.antt =====
-- cli-connectors/adapters/claude/src/index.ts
use vguardrail.Base.{not, ◌&&◌, Option, none, some, List, [], ◌∷◌, if◌then◌else◌}
use vguardrail.Base.Units.{units, is_empty, starts_with}
use vguardrail.Cli.Connector.{ExtractionResult}
use vguardrail.Cli.ScanText.{ScannedFile, cut}
use vguardrail.Cli.Adapters.{
  Word, is, is_flag, value_of, Host, max_content_length, read_file_content, not_found, found_with,
}

-- What the next argument is: read by itself, the prompt, or a file to read.
pub data Expected : Type 0 where
  argument prompt file : Expected

abbrev pub expected_after : Word → List Word → Expected
expected_after arg args =
    if is "--prompt" arg && not (is_empty args)
    then prompt
    else if is "--read" arg && not (is_empty args)
    then file
    else argument

-- The prompt after this argument.
abbrev pub prompt_after : Word → Word → Word
prompt_after found arg =
    if starts_with (units "--prompt=") arg
    then value_of "--prompt=" arg
    else if not (is_flag arg) && is_empty found
    then arg
    else found

-- The loop, from the prompt so far; with it, the files to read.
unfoldable pub collected : Expected → Word → List Word → Word × List Word
collected e found [] = (found, [])
collected argument found (arg ∷ args) =
    collected (expected_after arg args) (prompt_after found arg) args
collected prompt found (arg ∷ args) = collected argument arg args
collected file found (arg ∷ args) =
    let (last, files) = collected argument found args in (last, arg ∷ files)

-- `readFiles`: a file that cannot be read is left out, and a long content is cut as
-- `truncateContent` does it.
unfoldable pub with_file : Word → Option Word → List ScannedFile → List ScannedFile
with_file path none files = files
with_file path (some content) files =
    record { path = path; content = cut max_content_length content } ∷ files

unfoldable pub read_files : Host → List Word → List ScannedFile
unfolding with_file
read_files host [] = []
read_files host (path ∷ paths) =
    with_file path (read_file_content host path) (read_files host paths)

unfoldable pub extracted_from : Word × List Word → Host → ExtractionResult
unfolding read_files
extracted_from (found, files) host =
    if is_empty found && (not host.piped && is_empty files)
    then not_found
    else found_with found (some (read_files host files)) none

-- `extractContext`
unfoldable pub extract_context : List Word → Host → ExtractionResult
unfolding extracted_from collected
extract_context args host = extracted_from (collected argument [] args) host
