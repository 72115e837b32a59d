-- ===== src/Sdk/Enums.antt =====
-- connector-sdk/src/models/enums.ts
use vguardrail.Base.{◌≡◌, refl, ◌⊎◌, inl, inr}

pub data Action : Type 0 where
  allow warn block : Action

pub data RiskLevel : Type 0 where
  low medium high critical : RiskLevel

pub data Severity : Type 0 where
  low medium high critical : Severity

pub data Classification : Type 0 where
  public internal confidential restricted : Classification

-- The policy categories, with the older `classification`.
pub data Category : Type 0 where
  secret pii source_code classification company_confidential financial : Category
  intellectual_property usage_policy prompt_injection sensitive_document customer_data : Category
  compliance keyword file_policy image_policy ai_classification destructive_command : Category
  legal medical hr security research_development communication procurement : Category
  government : Category

pub Category-discrete : Discrete Category
Category-discrete = hlevel

pub data Source : Type 0 where
  browser ide cli api : Source

pub data Role : Type 0 where
  super_admin security_admin auditor manager user : Role

pub data EventType : Type 0 where
  prompt_submitted policy_evaluated prompt_allowed prompt_warned warning_accepted : EventType
  warning_rejected prompt_blocked policy_violation upload_success upload_failure : EventType
  agent_started policy_updated : EventType

-- `primaryEventType`
pub primary_event_type : Action → EventType
primary_event_type allow = prompt_allowed
primary_event_type warn = prompt_warned
primary_event_type block = prompt_blocked

pub Action-cases : (a : Action) → (a ≡ allow) ⊎ (a ≡ warn) ⊎ (a ≡ block)
Action-cases allow = inl refl
Action-cases warn = inr (inl refl)
Action-cases block = inr (inr refl)

pub RiskLevel-cases :
    (r : RiskLevel)
    → (r ≡ RiskLevel.low) ⊎ (r ≡ RiskLevel.medium) ⊎ (r ≡ RiskLevel.high) ⊎ (r ≡ RiskLevel.critical)
RiskLevel-cases RiskLevel.low = inl refl
RiskLevel-cases RiskLevel.medium = inr (inl refl)
RiskLevel-cases RiskLevel.high = inr (inr (inl refl))
RiskLevel-cases RiskLevel.critical = inr (inr (inr refl))
