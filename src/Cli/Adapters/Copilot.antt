-- ===== src/Cli/Adapters/Copilot.antt =====
-- cli-connectors/adapters/gh-copilot/src/index.ts
use vguardrail.Base.{String, Bool, true, false, not, ◌&&◌, ◌||◌, none, List, [], ◌∷◌, if◌then◌else◌}
use vguardrail.Base.Units.{is_empty}
use vguardrail.Cli.Connector.{ExtractionResult}
use vguardrail.Cli.Adapters.{Word, is, one_of, is_flag, not_found, found_with}

-- `VALUE_FLAGS`
abbrev pub value_flags : List String
value_flags = "-t" ∷ "--target" ∷ "--hostname" ∷ []

-- The loop, from the subcommand and the prompt so far.
unfoldable pub collected : Bool → Word → Word → List Word → Word × Word
collected skip name prompt [] = (name, prompt)
collected true name prompt (arg ∷ args) = collected false name prompt args
collected false name prompt (arg ∷ args) =
    let skipped = one_of value_flags arg || is_flag arg in
    collected (one_of value_flags arg) (if not skipped && is_empty name then arg else name)
      (if not skipped && not (is_empty name) && is_empty prompt then arg else prompt) args

unfoldable pub extracted_from : Word × Word → ExtractionResult
extracted_from (name, prompt) =
    if not (is "suggest" name) && not (is "explain" name)
    then not_found
    else if is_empty prompt
    then not_found
    else found_with prompt none none

-- `extractContext`
unfoldable pub extract_context : List Word → ExtractionResult
unfolding extracted_from collected
extract_context [] = not_found
extract_context (first ∷ args) =
    if is "copilot" first then extracted_from (collected false [] [] args) else not_found
