-- ===== src/Ide.antt =====
-- ide-connectors/vscode/src: scan-service.ts and interceptor.ts. The notifications of the editor are
-- actions on the world of the client.
pub mod Categories
pub mod Verdicts
pub mod Passive
pub mod Muted
pub mod Jetbrains
mod Tests
use Prim.Native.String
use vguardrail.Base.{
  ℕ, String, Bool, true, false, Option, none, some, List, [], ◌∷◌, Outcome, ok, err, if◌then◌else◌,
}
use vguardrail.Base.Text.{str_eq}
use vguardrail.Sdk.Enums.{Action, allow, warn, block, ide, RiskLevel}
use vguardrail.Sdk.Decision.{Decision, ScanResponse, make_scan_response, synthetic_decision}
use vguardrail.Sdk.Errors.{Thrown}
use vguardrail.Sdk.ScanRequest.{ScanRequest, ScanContext, UserContext, RepoContext, FileContext}
use vguardrail.Sdk.Client.{Deps, Client, safe_scan}
use vguardrail.Sdk.Client.Queries.{acknowledge_warning}
use vguardrail.Cli.Enforcement.{WarnTier, block_tier, prompt_tier, notice_tier, warn_tier}
use vguardrail.Ide.Categories.{with_categories}

-- `EditorPromptContext`
pub record EditorPromptContext : Type 0 where
  pub file_path : Option String
  pub file_extension : Option String
  pub language_id : Option String
  pub workspace_name : Option String

-- A string that is given and not empty.
abbrev given : Option String → Option String
given none = none
given (some s) = if str_eq s "" then none else some s

repo_of : Option String → Option RepoContext
repo_of none = none
repo_of (some name) = some (record { name = name; classification = none })

-- `fileExtension ?? languageId`
extension_of : Option String → Option String → Option String
extension_of none language = given language
extension_of (some e) language = given (some e)

file_of : Option String → Option String → Option FileContext
file_of none extension = none
file_of (some path) extension = some (record { path = path; file_extension = extension })

-- `buildRequest`
unfoldable pub build_request : String → UserContext → List ℕ → EditorPromptContext → ScanRequest
unfolding repo_of extension_of file_of
build_request app identity text ctx = record {
  text = text;
  context = record {
    source = some ide;
    provider = none;
    model = none;
    app = some app;
    repo = repo_of (given ctx.workspace_name);
    file = file_of (given ctx.file_path) (extension_of ctx.file_extension ctx.language_id);
    user = identity;
  };
}

unfoldable pub warn_message : Decision → String
warn_message d = with_categories (String.◌++◌ "VGuardrail warning: " d.reason) d.findings

unfoldable pub block_message : Decision → String
block_message d = with_categories (String.◌++◌ "VGuardrail blocked: " d.reason) d.findings

unfoldable pub high_risk_block_message : Decision → String
high_risk_block_message d =
    with_categories (String.◌++◌ "VGuardrail blocked (high risk): " d.reason) d.findings

-- `InterceptOutcome`
pub record InterceptOutcome : Type 0 where
  pub allowed : Bool
  pub response : ScanResponse

-- `DecisionUi`; what is chosen is the text of a button, if any.
pub record DecisionUi (S : Type 0) : Type 0 where
  pub show_warning : String → List String → S → Option String × S
  pub show_error : String → S → S

abbrev is_proceed : Option String → Bool
is_proceed none = false
is_proceed (some choice) = str_eq choice "Proceed"

module _ {S : Type 0} (deps : Deps S) (ui : DecisionUi S) (app : String)
    (identity : UserContext) where
  unfoldable pub shown : String → Client S → Client S
  shown message c = record c { world = ui.show_error message c.world }

  -- `acknowledge`; its failure is swallowed.
  unfoldable pub acknowledge : String → Bool → Client S → Client S
  acknowledge id accepted c = (acknowledge_warning deps id accepted c).1

  -- The question of a warning of medium risk
  unfoldable pub asked : Decision → Client S → Bool × Client S
  unfolding warn_message
  asked d c =
      let (choice, w) = ui.show_warning (warn_message d) ("Proceed" ∷ "Cancel" ∷ []) c.world in
      (is_proceed choice, record c { world = w })

  unfoldable pub resolve_tier : WarnTier → ScanResponse → Client S → InterceptOutcome × Client S
  unfolding shown acknowledge asked high_risk_block_message warn_message
  resolve_tier block_tier r c = (
    record { allowed = false; response = r },
    acknowledge r.decision.request_id false (shown (high_risk_block_message r.decision) c),
  )
  resolve_tier notice_tier r c = (
    record { allowed = true; response = r },
    acknowledge r.decision.request_id true
        (record c { world = (ui.show_warning (warn_message r.decision) [] c.world).1 }),
  )
  resolve_tier prompt_tier r c =
      let (accepted, c') = asked r.decision c in
      (record { allowed = accepted; response = r }, acknowledge r.decision.request_id accepted c')

  unfoldable pub resolve_as : Action → ScanResponse → Client S → InterceptOutcome × Client S
  unfolding resolve_tier warn_tier block_message shown
  resolve_as allow r c = (record { allowed = true; response = r }, c)
  resolve_as warn r c = resolve_tier (warn_tier (some r.decision.risk_level)) r c
  resolve_as block r c =
      (record { allowed = false; response = r }, shown (block_message r.decision) c)

  unfoldable pub resolve_at : Bool → ScanResponse → Client S → InterceptOutcome × Client S
  unfolding resolve_as shown
  resolve_at true r c = (
    record { allowed = false; response = r },
    shown "VGuardrail: policy engine unavailable — prompt blocked" c,
  )
  resolve_at false r c = resolve_as r.decision.action r c

  -- `resolve`, by `fromFallback`
  unfoldable pub resolve : ScanResponse → Client S → InterceptOutcome × Client S
  unfolding resolve_at
  resolve r c = resolve_at r.from_fallback r c

  -- The handler of the scan
  unfoldable pub scanned : Outcome Thrown ScanResponse × Client S → ScanResponse × Client S
  unfolding synthetic_decision make_scan_response
  scanned (ok r, c) = (r, c)
  scanned (err e, c) =
      let (id, w) = deps.random_uuid c.world in
      (
        make_scan_response
            (synthetic_decision id block "connector error; fail-closed block" none none) id 0
            (some true),
        record c { world = w },
      )

  -- `intercept`; its listener is left out.
  unfoldable pub intercept : List ℕ → EditorPromptContext → Client S → InterceptOutcome × Client S
  unfolding resolve scanned build_request
  intercept text ctx c =
      let (r, c') = scanned (safe_scan deps (build_request app identity text ctx) (some block) c) in
      resolve r c'
