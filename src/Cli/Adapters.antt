-- ===== src/Cli/Adapters.antt =====
-- cli-connectors/adapters: what each adapter takes for the prompt on its tool's command line. Here
-- are the helpers that they share, with util/stdin.ts and
-- util/file.ts of cli-connectors/framework/src. Arguments are
-- strings as UTF-16 code units.
pub mod Codex
pub mod Ollama
pub mod Sgpt
pub mod Gemini
pub mod Claude
pub mod Aider
pub mod Copilot
pub mod Llama
pub mod Mlx
pub mod Covered
pub mod Files
use vguardrail.Base.{
  ℕ, ◌+◌, ◌*◌, String, Bool, true, false, not, ◌&&◌, ◌||◌, Option, none, some, List, [], ◌∷◌, ◌++◌,
  any, leb, ltb, take, length, if◌then◌else◌, ◌==◌,
}
use vguardrail.Base.Units.{units, units_eq, starts_with, is_empty}
use vguardrail.Cli.ScanText.{ScannedFile, create_extraction_context}
use vguardrail.Cli.Connector.{ExtractionResult}

abbrev pub Word : Type 0
Word = List ℕ

-- `arg === s`
abbrev pub is : String → Word → Bool
is s arg = units_eq arg (units s)

-- `set.has(arg)`
abbrev pub one_of : List String → Word → Bool
one_of set arg = any (λ s. is s arg) set

-- `arg.startsWith('-')`
abbrev pub is_flag : Word → Bool
is_flag arg = starts_with (units "-") arg

-- `arg.slice(prefix.length)`
abbrev pub past : List ℕ → Word → Word
past [] arg = arg
past (p ∷ ps) [] = []
past (p ∷ ps) (a ∷ arg) = past ps arg

abbrev is_quote : ℕ → Bool
is_quote c = c == 34 || c == 39

abbrev without_first_quote : Word → Word
without_first_quote [] = []
without_first_quote (c ∷ s) = if is_quote c then s else c ∷ s

abbrev without_last_quote : Word → Word
without_last_quote [] = []
without_last_quote (c ∷ []) = if is_quote c then [] else c ∷ []
without_last_quote (c ∷ d ∷ s) = c ∷ without_last_quote (d ∷ s)

-- `.replace(/^["']|["']$/g, '')`
abbrev pub unquote : Word → Word
unquote s = without_last_quote (without_first_quote s)

-- The value of `--name=value`.
abbrev pub value_of : String → Word → Word
value_of name arg = unquote (past (units name) arg)

-- What an adapter finds around it: whether stdin is no terminal, the chunks that come on it, the
-- decoding of UTF-8, `path.resolve`, and what stands at a path (`none` if the file system throws):
-- whether it is a file, and its bytes.
pub record Host : Type 0 where
  pub piped : Bool
  pub chunks : List (List ℕ)
  pub decode_utf8 : List ℕ → Word
  pub resolve_path : Word → Word
  pub entry_at : Word → Option (Bool × List ℕ)

-- `MAX_STDIN_SIZE`
abbrev pub max_stdin_size : ℕ
max_stdin_size = 1 * 1024 * 1024

-- The chunks of `readStdin`, until they hold `size` bytes; `total` is how many came before.
unfoldable pub captured : ℕ → ℕ → List (List ℕ) → List ℕ
captured size total [] = []
captured size total (chunk ∷ chunks) =
    let rest = captured size (total + length chunk) chunks in
    if leb size (total + length chunk) then chunk else chunk ++ rest

-- `readStdin`; `decode` is the decoding of UTF-8.
unfoldable pub read_stdin : (List ℕ → Word) → List (List ℕ) → Word
unfolding captured
read_stdin decode chunks =
    let content = decode (captured max_stdin_size 0 chunks) in
    if leb (length content) max_stdin_size then content else take max_stdin_size content

-- What `readStdin` gives here.
unfoldable pub stdin_of : Host → Word
unfolding read_stdin
stdin_of host = read_stdin host.decode_utf8 host.chunks

-- `MAX_FILE_SIZE`
abbrev pub max_file_size : ℕ
max_file_size = 10 * 1024 * 1024

-- `MAX_CONTENT_LENGTH`
abbrev pub max_content_length : ℕ
max_content_length = 1 * 1024 * 1024

-- The bytes of a file that are read: all of them, or of a large file the first.
unfoldable pub read_bytes : List ℕ → List ℕ
read_bytes bytes = if ltb max_file_size (length bytes) then take max_content_length bytes else bytes

unfoldable pub content_of : Host → Option (Bool × List ℕ) → Option Word
unfolding read_bytes
content_of host none = none
content_of host (some (false, bytes)) = none
content_of host (some (true, bytes)) = some (host.decode_utf8 (read_bytes bytes))

-- `readFileContent`; `resolvesWithinProject` says yes to every path.
unfoldable pub read_file_content : Host → Word → Option Word
unfolding content_of
read_file_content host path = content_of host (host.entry_at (host.resolve_path path))

abbrev pub not_found : ExtractionResult
not_found = record { found = false; context = none; error = none }

abbrev pub unreadable : String → ExtractionResult
unreadable m = record { found = false; context = none; error = some m }

abbrev pub found_with : Word → Option (List ScannedFile) → Option Word → ExtractionResult
found_with prompt files stdin_data = record {
  found = true;
  context = some (create_extraction_context prompt files stdin_data);
  error = none;
}

abbrev lacks : Option Word → Bool
lacks none = true
lacks (some s) = is_empty s

-- `!prompt && !stdinData`
unfoldable pub found_unless_empty : Word → Option Word → ExtractionResult
found_unless_empty prompt stdin_data =
    if is_empty prompt && lacks stdin_data then not_found else found_with prompt none stdin_data

-- The prompt with what is piped: both are scanned, and the latter is the prompt if there is none.
unfoldable pub with_stdin : Word → Host → ExtractionResult
unfolding found_unless_empty stdin_of
with_stdin prompt host =
    if host.piped
    then found_unless_empty (if is_empty prompt then stdin_of host else prompt)
        (some (stdin_of host))
    else found_unless_empty prompt none
