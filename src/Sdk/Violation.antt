-- ===== src/Sdk/Violation.antt =====
-- connector-sdk/src/models/violation.ts, and the distinct categories of a list of findings, which
-- browser-connectors/chrome/extension/src/content/gate.ts also takes.
pub mod Severities
pub mod Categories
use vguardrail.Base.{
  ℕ, String, Bool, true, false, Option, none, some, List, [], ◌∷◌, map, ltb, if◌then◌else◌, ◌||◌,
}
use vguardrail.Sdk.Enums.{Action, allow, warn, block, Severity, Category, Category-discrete}
use vguardrail.Sdk.Decision.{Finding, Decision}

pub record Violation : Type 0 where
  pub rule_id : String
  pub severity : Option Severity
  pub categories : List Category
  pub findings : List Finding

-- `SEVERITY_ORDER`
abbrev pub severity_order : Severity → ℕ
severity_order Severity.low = 0
severity_order Severity.medium = 1
severity_order Severity.high = 2
severity_order Severity.critical = 3

-- One turn of the loop of `maxSeverity`.
unfoldable pub better : Option Severity → Severity → Severity
better none s = s
better (some best) s = if ltb (severity_order best) (severity_order s) then s else best

unfoldable pub max_from : Option Severity → List Finding → Option Severity
max_from best [] = best
max_from best (f ∷ fs) = max_from (some (better best f.severity)) fs

-- `maxSeverity`
unfoldable pub max_severity : List Finding → Option Severity
max_severity fs = max_from none fs

-- `===` on categories
unfoldable pub category_eq : Category → Category → Bool
category_eq c d = elim (Category-discrete c d) [ yes _ ↦ true | no _ ↦ false ]

unfoldable pub has : Category → List Category → Bool
has c [] = false
has c (d ∷ ds) = category_eq c d || has c ds

-- A `Set` keeps its values in the order of their first insertion.
unfoldable pub insert_all : List Category → List Category → List Category
insert_all seen [] = []
insert_all seen (c ∷ cs) =
    let rest = insert_all seen cs in
    let grown = insert_all (c ∷ seen) cs in if has c seen then rest else c ∷ grown

-- `[...new Set(findings.map((f) => f.category))]`
unfoldable pub distinct_categories : List Finding → List Category
distinct_categories fs = insert_all [] (map (λ f. f.category) fs)

severity_or : Option Severity → Option Severity → Option Severity
severity_or none d = d
severity_or (some s) d = some s

violations_for : Action → Option String → Decision → List Violation
unfolding severity_or
violations_for allow rule d = []
violations_for warn none d = []
violations_for block none d = []
violations_for _ (some rule_id) d =
    (record {
      rule_id = rule_id;
      severity = severity_or (max_severity d.findings) d.severity;
      categories = distinct_categories d.findings;
      findings = d.findings;
    })
    ∷ []

-- `violationsFrom`
unfoldable pub violations_from : Decision → List Violation
unfolding violations_for
violations_from d = violations_for d.action d.matched_rule_id d
