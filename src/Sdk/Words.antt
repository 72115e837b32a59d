-- ===== src/Sdk/Words.antt =====
-- The wire texts of the enumerations of connector-sdk/src/models/enums.ts.
use vguardrail.Base.{String}
use vguardrail.Sdk.Enums.{Action, RiskLevel, Severity, Classification, Category, Source, Role}

abbrev pub action_text : Action → String
action_text Action.allow = "allow"
action_text Action.warn = "warn"
action_text Action.block = "block"

abbrev pub risk_text : RiskLevel → String
risk_text RiskLevel.low = "low"
risk_text RiskLevel.medium = "medium"
risk_text RiskLevel.high = "high"
risk_text RiskLevel.critical = "critical"

abbrev pub severity_text : Severity → String
severity_text Severity.low = "low"
severity_text Severity.medium = "medium"
severity_text Severity.high = "high"
severity_text Severity.critical = "critical"

abbrev pub classification_text : Classification → String
classification_text Classification.public = "public"
classification_text Classification.internal = "internal"
classification_text Classification.confidential = "confidential"
classification_text Classification.restricted = "restricted"

abbrev pub source_text : Source → String
source_text Source.browser = "browser"
source_text Source.ide = "ide"
source_text Source.cli = "cli"
source_text Source.api = "api"

abbrev pub role_text : Role → String
role_text Role.super_admin = "super_admin"
role_text Role.security_admin = "security_admin"
role_text Role.auditor = "auditor"
role_text Role.manager = "manager"
role_text Role.user = "user"

abbrev pub category_text : Category → String
category_text Category.secret = "secret"
category_text Category.pii = "pii"
category_text Category.source_code = "source_code"
category_text Category.classification = "classification"
category_text Category.company_confidential = "company_confidential"
category_text Category.financial = "financial"
category_text Category.intellectual_property = "intellectual_property"
category_text Category.usage_policy = "usage_policy"
category_text Category.prompt_injection = "prompt_injection"
category_text Category.sensitive_document = "sensitive_document"
category_text Category.customer_data = "customer_data"
category_text Category.compliance = "compliance"
category_text Category.keyword = "keyword"
category_text Category.file_policy = "file_policy"
category_text Category.image_policy = "image_policy"
category_text Category.ai_classification = "ai_classification"
category_text Category.destructive_command = "destructive_command"
category_text Category.legal = "legal"
category_text Category.medical = "medical"
category_text Category.hr = "hr"
category_text Category.security = "security"
category_text Category.research_development = "research_development"
category_text Category.communication = "communication"
category_text Category.procurement = "procurement"
category_text Category.government = "government"
