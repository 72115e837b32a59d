-- ===== src/Cli/Adapters/Ollama.antt =====
-- cli-connectors/adapters/ollama/src/index.ts
use vguardrail.Base.{
  String, Bool, true, false, not, ◌&&◌, ◌||◌, Option, none, some, List, [], ◌∷◌, if◌then◌else◌,
}
use vguardrail.Base.Units.{units, join, is_empty}
use vguardrail.Cli.Connector.{ExtractionResult}
use vguardrail.Cli.Adapters.{Word, is, one_of, is_flag, Host, not_found, with_stdin}

-- `VALUE_FLAGS`
abbrev pub value_flags : List String
value_flags = "--format" ∷ "--keepalive" ∷ "--think" ∷ []

-- The first loop: the subcommand, if it is not empty, and the arguments after it.
unfoldable pub subcommand : Bool → List Word → Option (Word × List Word)
subcommand skip [] = none
subcommand true (arg ∷ args) = subcommand false args
subcommand false (arg ∷ args) =
    let valued = one_of value_flags arg in
    let rest = subcommand valued args in
    if valued || is_flag arg then rest else if is_empty arg then none else some (arg, args)

-- The second loop: the positional arguments, of which the first that is not empty is the model.
-- `modelled` says that the model was met.
unfoldable pub prompt_words : Bool → Bool → List Word → List Word
prompt_words skip modelled [] = []
prompt_words true modelled (arg ∷ args) = prompt_words false modelled args
prompt_words false modelled (arg ∷ args) =
    let skipped = one_of value_flags arg || is_flag arg in
    let rest =
      prompt_words (one_of value_flags arg) (modelled || (not skipped && not (is_empty arg)))
        args in
    if skipped || not modelled then rest else arg ∷ rest

unfoldable pub extracted_from : Option (Word × List Word) → Host → ExtractionResult
unfolding prompt_words with_stdin
extracted_from none host = not_found
extracted_from (some (name, args)) host =
    if is "run" name
    then with_stdin (join (units " ") (prompt_words false false args)) host
    else not_found

-- `extractContext`
unfoldable pub extract_context : List Word → Host → ExtractionResult
unfolding extracted_from subcommand
extract_context args host = extracted_from (subcommand false args) host
