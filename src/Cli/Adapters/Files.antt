-- ===== src/Cli/Adapters/Files.antt =====
-- The files of the adapters for aider and llama: what is read is scanned, or the run is refused.
use vguardrail.Base.{◌≡◌, String, Bool, true, false, ◌||◌, Option, some, List, [], ◌∷◌, ◌++◌, ℕ}
use vguardrail.Base.Units.{units, starts_with}
use vguardrail.Cli.ScanText.{ExtractionContext}
use vguardrail.Cli.ScanText.Coverage.{In}
use vguardrail.Cli.Connector.{ExtractionResult, Parts, refused, run_extracted}
use vguardrail.Cli.Adapters.{Word, is, unquote, Host, read_bytes}
use vguardrail.Cli.Adapters.Aider
use vguardrail.Cli.Adapters.Llama

-- The adapters that read a file for the prompt.
pub data FileReader : Type 0 where
  aider llama : FileReader

unfoldable pub extract_with : FileReader → List Word → Host → ExtractionResult
extract_with aider = Aider.extract_context
extract_with llama = Llama.extract_context

-- The tools' own words for a prompt and for the file of a prompt.
abbrev pub is_prompt_flag : FileReader → Word → Bool
is_prompt_flag aider w = is "--message" w || (is "--msg" w || is "-m" w)
is_prompt_flag llama w = is "-p" w || is "--prompt" w

abbrev pub is_file_flag : FileReader → Word → Bool
is_file_flag aider w = is "--message-file" w
is_file_flag llama w = is "-f" w || is "--file" w

abbrev pub long_file : FileReader → Word
long_file aider = units "--message-file="
long_file llama = units "--file="

abbrev pub is_inline : FileReader → Word → Bool
is_inline aider w = starts_with (units "--message-file=") w
is_inline llama w = starts_with (units "--file=") w || starts_with (units "-f=") w

-- The parts of a command line: a flag with its prompt, a flag with the file of the prompt, that in
-- one word, and any other word.
pub data Item : Type 0 where
  prompted : Word → Word → Item
  named : Word → Word → Item
  named_inline : Word → Item
  other : Word → Item

pub print : FileReader → List Item → List Word
print reader [] = []
print reader (prompted flag value ∷ items) = flag ∷ value ∷ print reader items
print reader (named flag path ∷ items) = flag ∷ path ∷ print reader items
print reader (named_inline path ∷ items) = (long_file reader ++ path) ∷ print reader items
print reader (other w ∷ items) = w ∷ print reader items

abbrev pub IsItem : FileReader → Item → Type 0
IsItem reader (prompted flag value) =
    (is_prompt_flag reader flag ≡ true) × (is_inline reader flag ≡ false)
IsItem reader (named flag path) =
    (is_prompt_flag reader flag ≡ false) × (is_file_flag reader flag ≡ true)
IsItem reader (named_inline path) = Unit
IsItem reader (other w) =
    (is_prompt_flag reader w ≡ false)
    × (is_file_flag reader w ≡ false)
    × (is_inline reader w ≡ false)

-- The file that is named last.
unfoldable pub last_file : Word → List Item → Word
last_file path [] = path
last_file path (prompted flag value ∷ items) = last_file path items
last_file path (named flag new ∷ items) = last_file new items
last_file path (named_inline new ∷ items) = last_file (unquote new) items
last_file path (other w ∷ items) = last_file path items

module _ {S : Type 0} (parts : Parts S) (host : Host) where
  -- What is made of a file that the command line names: a run with one that cannot be read, or that
  -- is no file, is refused; of any other the bytes that are read are among the files to scan.
  pub Covers : Word → Option (Bool × List ℕ) → ExtractionResult → Type 0
  Covers path (some (true, bytes)) r =
      (c : ExtractionContext) × (r.context ≡ some c)
      × In (record { path = path; content = host.decode_utf8 (read_bytes bytes) }) c.files
  Covers path _ r =
      (guarded : Bool) (args : List String) (s : S)
      → (run_extracted parts guarded args r s).0 ≡ refused
