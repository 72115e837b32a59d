-- ===== src/Browser/Gate.antt =====
-- browser-connectors/chrome/extension/src/content/gate.ts. What the gate does to the page and to
-- the user is a list of deeds, in order; the scan and the dialog are actions on a world `S`.
pub mod Sends
pub mod Captures
use vguardrail.Base.{
  ℕ, String, Bool, true, false, not, ◌&&◌, Option, none, some, List, [], ◌∷◌, map, Outcome, ok, err,
  if◌then◌else◌,
}
use vguardrail.Base.Number.{Number, exceeds}
use vguardrail.Base.Units.{is_blank}
use vguardrail.Sdk.Enums.{Action, allow, warn, block, RiskLevel, Category}
use vguardrail.Sdk.Violation.{insert_all}
use vguardrail.Cli.Enforcement.{WarnTier, block_tier, prompt_tier, notice_tier, warn_tier}
use vguardrail.Browser.Contract.{Finding, Decision, send_anyway_threshold, warn_medium_floor}

-- `WarnContent`
pub record WarnContent : Type 0 where
  pub reason : String
  pub risk_level : RiskLevel
  pub categories : List Category

pub data Deed : Type 0 where
  block_notice : Option String → String → List Category → Deed
  warn_notice : String → List Category → Deed
  asked : WarnContent → Deed
  acked : String → Bool → Deed
  submitted : Deed

-- The calls of `GateDeps` that answer.
pub record GateDeps (S : Type 0) : Type 0 where
  pub scan : List ℕ → S → Outcome (Unit {0}) Decision × S
  pub warn : WarnContent → S → Bool × S

-- `distinctCategories`
abbrev pub distinct_categories : Decision → List Category
distinct_categories d = insert_all [] (map (λ (f : Finding). f.category) d.findings)

abbrev pub high_risk_notice : Decision → Deed
high_risk_notice d =
    block_notice (some "Blocked by policy — high risk") d.reason (distinct_categories d)

-- A warning at the level `r`.
abbrev pub warn_content : Decision → RiskLevel → WarnContent
warn_content d r = record { reason = d.reason; risk_level = r; categories = distinct_categories d }

abbrev pub band : Number → RiskLevel
band score = if exceeds score warn_medium_floor then RiskLevel.medium else RiskLevel.low

-- What follows the user's answer.
unfoldable pub answered : Decision → WarnContent → Bool → List Deed
answered d w true = asked w ∷ acked d.request_id true ∷ submitted ∷ []
answered d w false = asked w ∷ acked d.request_id false ∷ []

module _ {S : Type 0} (deps : GateDeps S) where
  unfoldable pub ask_user : Decision → RiskLevel → S → List Deed × S
  unfolding answered
  ask_user d r s =
      let w = warn_content d r in let (proceed, s') = deps.warn w s in (answered d w proceed, s')

  unfoldable pub warn_tiered : WarnTier → Decision → S → List Deed × S
  unfolding ask_user
  warn_tiered block_tier d s = (high_risk_notice d ∷ acked d.request_id false ∷ [], s)
  warn_tiered notice_tier d s =
      (warn_notice d.reason (distinct_categories d) ∷ acked d.request_id true ∷ submitted ∷ [], s)
  warn_tiered prompt_tier d s = ask_user d d.risk_level s

  -- The branch for `warn`.
  unfoldable pub warn_scored : Option Number → Decision → S → List Deed × S
  unfolding ask_user warn_tiered warn_tier
  warn_scored none d s = warn_tiered (warn_tier (some d.risk_level)) d s
  warn_scored (some score) d s =
      if exceeds score send_anyway_threshold
      then (high_risk_notice d ∷ acked d.request_id false ∷ [], s)
      else ask_user d (band score) s

  unfoldable pub act_on : Action → Decision → S → List Deed × S
  unfolding warn_scored
  act_on allow d s = (submitted ∷ [], s)
  act_on block d s = (block_notice none d.reason (distinct_categories d) ∷ [], s)
  act_on warn d s = warn_scored d.risk_score d s

  unfoldable pub settle : Outcome (Unit {0}) Decision × S → List Deed × S
  unfolding act_on
  settle (err _, s) = (block_notice none "agent unavailable; prompt blocked" [] ∷ [], s)
  settle (ok d, s) = act_on d.action d s

  -- `decide`
  unfoldable pub decide : List ℕ → S → List Deed × S
  unfolding settle
  decide text s = settle (deps.scan text s)

-- What becomes of an event in the capture phase: the page gets it, or it is stopped and its text is
-- decided on.
pub data Capture : Type 0 where
  passed : Capture
  stopped : List ℕ → Capture

-- `intercept`
unfoldable pub intercept : List ℕ → Capture
intercept text = if is_blank text then passed else stopped text

-- What the adapter sees at an event: the text of the input if there is one, whether the key is the
-- one that submits, and whether the target lies in the send button.
pub record Sight : Type 0 where
  pub input : Option (List ℕ)
  pub is_submit_key : Bool
  pub on_send_button : Bool

intercept_input : Option (List ℕ) → Capture
unfolding intercept
intercept_input none = passed
intercept_input (some text) = intercept text

-- `onKeydown` and `onClick`, with the one-shot token `bypass`
unfoldable pub on_keydown : Bool → Sight → Capture
unfolding intercept_input
on_keydown bypass e =
    if bypass then passed else if e.is_submit_key then intercept_input e.input else passed

unfoldable pub on_click : Bool → Sight → Capture
unfolding intercept_input
on_click bypass e =
    if bypass then passed else if e.on_send_button then intercept_input e.input else passed
