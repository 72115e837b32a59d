-- ===== src/Ide/Tests.antt =====
-- A prompt in the editor.
use vguardrail.Base.{◌≡◌, refl, ap, ◌↔◌, Option, true, false, none, some, [], ok}
use vguardrail.Base.Units.{units}
use vguardrail.Json.{Json, null, obj, field, end, str}
use vguardrail.Sdk.Enums.{allow, block, Role}
use vguardrail.Sdk.ScanRequest.{ScanRequest, UserContext}
use vguardrail.Sdk.Client.{safe_scan}
use vguardrail.Sdk.Client.Tests.{counting, fresh, decision, safely_scanned}
use vguardrail.Ide.{EditorPromptContext, build_request, DecisionUi, intercept}
use vguardrail.Ide.Verdicts.{PassesBy, intercept_iff}
use vguardrail.Ide.Jetbrains.{
  decision_line, as_record, request_for, scan_for, normalize_scan, prompt_text, handle_line,
  value_line, record_line, scan_line, scan_answered,
}
use vguardrail.Ide.Jetbrains.Closed.{LetThrough, handle_line-LetThrough}

abbrev someone : UserContext
someone = record { user_id = "u"; role = Role.user; groups = [] }

abbrev ui : {S : Type 0} → DecisionUi S
ui = record { show_warning = λ m buttons s. (some "Proceed", s); show_error = λ m s. s }

abbrev editor : EditorPromptContext
editor = record {
  file_path = some "a.ts";
  file_extension = some "ts";
  language_id = none;
  workspace_name = some "w";
}

intercept_iff_example :
    ((intercept (counting (ok null)) ui "vscode" someone (units "hi") editor fresh).0.allowed
      ≡ true)
    ↔ PassesBy (counting (ok null)) ui "vscode" someone (
        safe_scan
          (counting (ok null))
          (build_request "vscode" someone (units "hi") editor)
          (some block)
          fresh)
intercept_iff_example =
    intercept_iff (counting (ok null)) ui "vscode" someone (units "hi") editor fresh

abbrev plugin_line : Option Json
plugin_line = some (obj (field "text" (str "hi") end))

abbrev plugin_request : ScanRequest
plugin_request = request_for someone none (units "hi")

let_through :
    (handle_line (counting (ok null)) someone plugin_line fresh).0
    ≡ decision_line (decision allow) false
unfolding handle_line value_line record_line scan_line normalize_scan scan_for prompt_text as_record
    request_for
let_through =
    ap (λ out. (scan_answered (counting (ok null)) someone out).0)
      (safely_scanned plugin_request (some block))

handle_line-LetThrough_example :
    LetThrough (counting (ok null)) someone (decision allow) false fresh (as_record plugin_line)
handle_line-LetThrough_example =
    handle_line-LetThrough (counting (ok null)) someone (decision allow) false fresh plugin_line
      let_through refl
