-- ===== src/Ide/Categories.antt =====
-- ide-connectors/vscode/src/categories.ts
use Prim.Native.String
use vguardrail.Base.{String, List, [], ◌∷◌, any, if◌then◌else◌}
use vguardrail.Sdk.Enums.{Category}
use vguardrail.Sdk.Decision.{Finding}
use vguardrail.Sdk.Violation.{category_eq}

-- `CATEGORY_LABELS`, which has every category of the schema
unfoldable pub category_label : Category → String
category_label Category.secret = "Secrets & credentials"
category_label Category.pii = "Personal data (PII)"
category_label Category.source_code = "Source code"
category_label Category.company_confidential = "Company confidential"
category_label Category.financial = "Financial data"
category_label Category.intellectual_property = "Intellectual property"
category_label Category.usage_policy = "Usage policy"
category_label Category.prompt_injection = "Prompt injection"
category_label Category.sensitive_document = "Sensitive document"
category_label Category.customer_data = "Customer data"
category_label Category.compliance = "Compliance"
category_label Category.keyword = "Watched keyword"
category_label Category.file_policy = "File policy"
category_label Category.image_policy = "Image policy"
category_label Category.ai_classification = "AI classification"
category_label Category.destructive_command = "Destructive command"
category_label Category.legal = "Legal content"
category_label Category.medical = "Medical / health data"
category_label Category.hr = "HR content"
category_label Category.security = "Security material"
category_label Category.research_development = "Research & development"
category_label Category.communication = "Internal communication"
category_label Category.procurement = "Procurement & vendor data"
category_label Category.government = "Government / export-controlled"
category_label Category.classification = "Data classification"

-- The loop of `findingCategories`, with the categories seen so far
unfoldable pub labels_from : List Category → List Finding → List String
unfolding category_label
labels_from seen [] = []
labels_from seen (f ∷ fs) =
    let is_seen = any (λ c. category_eq c f.category) seen in
    let rest = labels_from (if is_seen then seen else f.category ∷ seen) fs in
    if is_seen then rest else category_label f.category ∷ rest

-- `findingCategories`
unfoldable pub finding_categories : List Finding → List String
unfolding labels_from
finding_categories findings = labels_from [] findings

abbrev join : List String → String
join [] = ""
join (s ∷ []) = s
join (s ∷ t ∷ ts) = String.◌++◌ s (String.◌++◌ ", " (join (t ∷ ts)))

unfoldable pub bracketed : String → List String → String
bracketed prefix [] = prefix
bracketed prefix (l ∷ ls) = String.◌++◌ prefix (String.◌++◌ " [" (String.◌++◌ (join (l ∷ ls)) "]"))

-- `withCategories`
unfoldable pub with_categories : String → List Finding → String
unfolding bracketed finding_categories
with_categories prefix findings = bracketed prefix (finding_categories findings)
