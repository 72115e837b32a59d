-- ===== src/Cli/ScanText.antt =====
-- cli-connectors/framework/src/sdk/scan-request.ts: the text that is scanned, and the request.
mod Cut
pub mod Coverage
use mathlib.Core.Option
use vguardrail.Base.{
  ℕ, String, Bool, true, false, not, ◌&&◌, ◌||◌, Option, none, some, List, [], ◌∷◌, ◌++◌, leb,
  length, take, if◌then◌else◌,
}
use vguardrail.Base.Units.{units, units_eq, includes, is_empty, join}
use vguardrail.Base.Text.{str_eq}
use vguardrail.Sdk.Enums.{Role, cli, Classification}
use vguardrail.Sdk.ScanRequest.{ScanRequest, ScanContext, UserContext, RepoContext}

pub record ScannedFile : Type 0 where
  pub path : List ℕ
  pub content : List ℕ

-- `ExtractionContext`
pub record ExtractionContext : Type 0 where
  pub prompt : List ℕ
  pub files : List ScannedFile
  pub stdin_data : Option (List ℕ)

-- What a `ToolDefinition` says beside its extractor.
pub record Tool : Type 0 where
  pub name : String
  pub display_name : String
  pub executable_path : String
  pub provider : Option String
  pub default_model : Option String
  pub clear_input_sequence : Option (List ℕ)
  pub is_interactive : Bool

abbrev pub max_prompt_length : ℕ
max_prompt_length = 100_000

abbrev pub truncation_mark : List ℕ
truncation_mark = 10 ∷ units "... [truncated]"

prompt_part : List ℕ → List (List ℕ)
prompt_part prompt = if is_empty prompt then [] else prompt ∷ []

stdin_part : List ℕ → Option (List ℕ) → List (List ℕ)
stdin_part prompt none = []
stdin_part prompt (some stdin) =
    if not (is_empty stdin) && (not (units_eq stdin prompt) && not (includes stdin prompt))
    then (units "--- stdin ---" ++ (10 ∷ stdin)) ∷ []
    else []

file_text : ScannedFile → List ℕ
file_text f = units "--- file: " ++ (f.path ++ (units " ---" ++ (10 ∷ f.content)))

file_parts : List ℕ → List ScannedFile → List (List ℕ)
file_parts prompt [] = []
file_parts prompt (f ∷ fs) =
    if not (is_empty prompt) && includes f.content prompt
    then file_parts prompt fs
    else file_text f ∷ file_parts prompt fs

-- `composeScanText`
unfoldable pub compose_scan_text : ExtractionContext → List ℕ
unfolding prompt_part stdin_part file_parts file_text
compose_scan_text c =
    join (10 ∷ 10 ∷ [])
      (prompt_part c.prompt ++ (stdin_part c.prompt c.stdin_data ++ file_parts c.prompt c.files))

-- The text up to `n` code units, with a mark where it was cut.
unfoldable pub cut : ℕ → List ℕ → List ℕ
cut n prompt = if leb (length prompt) n then prompt else take n prompt ++ truncation_mark

-- `truncatePrompt`
unfoldable pub truncate_prompt : List ℕ → List ℕ
truncate_prompt prompt = cut max_prompt_length prompt

-- `tool.provider` is left out if it is empty.
non_empty : Option String → Option String
non_empty none = none
non_empty (some s) = if str_eq s "" then none else some s

-- `createScanContext`
pub create_scan_context : Tool → UserContext → Option RepoContext → ScanContext
unfolding non_empty
create_scan_context tool user repo = record {
  source = some cli;
  provider = non_empty tool.provider;
  model = none;
  app = some tool.name;
  repo = repo;
  file = none;
  user = user;
}

-- `buildScanRequest`
unfoldable pub build_scan_request :
    ExtractionContext → Tool → UserContext → Option RepoContext → ScanRequest
build_scan_request c tool user repo = record {
  text = truncate_prompt (compose_scan_text c);
  context = create_scan_context tool user repo;
}

abbrev pub files_or_none : Option (List ScannedFile) → List ScannedFile
files_or_none none = []
files_or_none (some fs) = fs

-- `createExtractionContext`
unfoldable pub create_extraction_context :
    List ℕ → Option (List ScannedFile) → Option (List ℕ) → ExtractionContext
create_extraction_context prompt files stdin_data = record {
  prompt = prompt;
  files = files_or_none files;
  stdin_data = stdin_data;
}
