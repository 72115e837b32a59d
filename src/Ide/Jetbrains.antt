-- ===== src/Ide/Jetbrains.antt =====
-- ide-connectors/jetbrains/bridge/src/handler.ts: one line of the plugin, and the line that answers
-- it. Parsing a line gives `none` if it is no JSON.
pub mod Closed
use vguardrail.Base.{
  ℕ, String, Bool, true, false, not, Option, none, some, List, [], ◌∷◌, Outcome, ok, err,
  if◌then◌else◌,
}
use vguardrail.Base.Text.{str_eq}
use vguardrail.Base.Units.{units, is_empty}
use vguardrail.Json.{Json, null, bool, num, str, text, arr, obj, Fields, end, field}
use vguardrail.Sdk.Enums.{Source, browser, ide, cli, api, block}
use vguardrail.Sdk.Decision.{Decision, ScanResponse, synthetic_decision}
use vguardrail.Sdk.Errors.{Thrown}
use vguardrail.Sdk.ScanRequest.{ScanRequest, ScanContext, UserContext, RepoContext, FileContext}
use vguardrail.Sdk.Client.{Deps, Client, safe_scan}
use vguardrail.Sdk.Client.Queries.{acknowledge_warning}

-- The line that answers: a decision with its provenance, or an acknowledgement.
pub data Line : Type 0 where
  decision_line : Decision → Bool → Line
  acknowledged_line : Bool → Line

-- `asRecord`
unfoldable pub as_record : Option Json → Option Fields
as_record (some (obj fields)) = some fields
as_record _ = none

abbrev pub property : String → Fields → Option Json
property k end = none
property k (field i v r) = let rest = property k r in if str_eq i k then some v else rest

-- `asNonEmptyString` of a property
unfoldable pub as_non_empty_string : Option Json → Option String
as_non_empty_string (some (str s)) = if str_eq s "" then none else some s
as_non_empty_string _ = none

abbrev string_at : String → Option Fields → Option String
string_at k none = none
string_at k (some fields) = as_non_empty_string (property k fields)

abbrev or_else : {A : Type 0} → Option A → Option A → Option A
or_else none b = b
or_else (some a) b = some a

-- `SOURCES`
unfoldable pub source_named : Option String → Source
source_named none = ide
source_named (some s) =
    if str_eq s "browser"
    then browser
    else if str_eq s "cli"
    then cli
    else if str_eq s "api"
    then api
    else ide

unfoldable pub repo_named : Option String → Option RepoContext
repo_named none = none
repo_named (some name) = some (record { name = name; classification = none })

unfoldable pub file_at : Option String → Option String → Option FileContext
file_at none extension = none
file_at (some path) extension = some (record { path = path; file_extension = extension })

-- The text of a prompt, if there is one.
unfoldable pub prompt_text : Option Json → Option (List ℕ)
prompt_text (some (str s)) = if str_eq s "" then none else some (units s)
prompt_text (some (text s)) = if is_empty s then none else some s
prompt_text _ = none

unfoldable pub record_at : String → Option Fields → Option Fields
unfolding as_record
record_at k none = none
record_at k (some fields) = as_record (property k fields)

unfoldable pub request_for : UserContext → Option Fields → List ℕ → ScanRequest
unfolding source_named repo_named file_at record_at as_non_empty_string
request_for identity context t =
    let repo = record_at "repo" context in
    let file = record_at "file" context in
    (record {
      text = t;
      context = record {
        source = some (source_named (string_at "source" context));
        provider = string_at "provider" context;
        model = string_at "model" context;
        app = or_else (string_at "app" context) (some "jetbrains");
        repo = repo_named (string_at "name" repo);
        file =
            file_at (string_at "path" file)
              (or_else (string_at "fileExtension" file) (string_at "extension" file));
        user = identity;
      };
    })

unfoldable pub scan_for : UserContext → Fields → Option (List ℕ) → Option ScanRequest
unfolding request_for as_record
scan_for identity raw none = none
scan_for identity raw (some t) = some (request_for identity (as_record (property "context" raw)) t)

-- `normalizeScan`
unfoldable pub normalize_scan : UserContext → Fields → Option ScanRequest
unfolding scan_for prompt_text
normalize_scan identity raw = scan_for identity raw (prompt_text (property "text" raw))

abbrev ack_of : Option String → Option Json → Option (String × Bool)
ack_of (some event_id) (some (bool accepted)) = some (event_id, accepted)
ack_of _ _ = none

-- `normalizeAck`, of the value of `acknowledge`
unfoldable pub normalize_ack : Option Fields → Option (String × Bool)
unfolding as_non_empty_string
normalize_ack none = none
normalize_ack (some ack) =
    ack_of (as_non_empty_string (property "eventId" ack)) (property "accepted" ack)

module _ {S : Type 0} (deps : Deps S) (identity : UserContext) where
  -- `failClosed`
  unfoldable pub fail_closed : String → Client S → Line × Client S
  unfolding synthetic_decision
  fail_closed reason c =
      let (id, w) = deps.random_uuid c.world in
      (decision_line (synthetic_decision id block reason none none) true, record c { world = w })

  unfoldable pub ack_answered : Outcome Thrown Bool × Client S → Line × Client S
  ack_answered (ok acknowledged, c) = (acknowledged_line acknowledged, c)
  ack_answered (err e, c) = (acknowledged_line false, c)

  unfoldable pub ack_line : Option (String × Bool) → Client S → Line × Client S
  unfolding ack_answered
  ack_line none c = (acknowledged_line false, c)
  ack_line (some (event_id, accepted)) c =
      ack_answered (acknowledge_warning deps event_id accepted c)

  unfoldable pub scan_answered : Outcome Thrown ScanResponse × Client S → Line × Client S
  unfolding fail_closed
  scan_answered (ok r, c) = (decision_line r.decision r.from_fallback, c)
  scan_answered (err e, c) = fail_closed "connector error; fail-closed block" c

  unfoldable pub scan_line : Option ScanRequest → Client S → Line × Client S
  unfolding scan_answered fail_closed
  scan_line none c =
      fail_closed "malformed bridge request: missing prompt text; fail-closed block" c
  scan_line (some request) c = scan_answered (safe_scan deps request (some block) c)

  unfoldable pub record_line : Option Json → Fields → Client S → Line × Client S
  unfolding scan_line ack_line normalize_scan normalize_ack as_record
  record_line none raw c = scan_line (normalize_scan identity raw) c
  record_line (some ack) raw c = ack_line (normalize_ack (as_record (some ack))) c

  unfoldable pub value_line : Option Fields → Client S → Line × Client S
  unfolding record_line fail_closed
  value_line none c =
      fail_closed "malformed bridge request: expected a JSON object; fail-closed block" c
  value_line (some raw) c = record_line (property "acknowledge" raw) raw c

  -- `handleLine`
  unfoldable pub handle_line : Option Json → Client S → Line × Client S
  unfolding value_line fail_closed as_record
  handle_line none c = fail_closed "malformed bridge request: not valid JSON; fail-closed block" c
  handle_line (some value) c = value_line (as_record (some value)) c
