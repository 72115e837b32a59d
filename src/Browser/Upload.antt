-- ===== src/Browser/Upload.antt =====
-- browser-connectors/chrome/extension/src/content/upload-policy.ts
use vguardrail.Base.{
  ◌≡◌, refl, inl, inr, ap, ◌∙◌, sym, Bool, true, false, Option, none, some, err, Bool-cases, not,
}
use vguardrail.Base.Number.{Number, of_ℕ, exceeds}
use vguardrail.Sdk.Enums.{Action, allow, warn, block}
use vguardrail.Browser.Contract.{Decision, send_anyway_threshold}
use vguardrail.Browser.Gate.{GateDeps, act_on, warn_scored, ask_user, answered}
use vguardrail.Browser.Gate.Sends.{sends}

score_or_zero : Option Number → Number
score_or_zero none = of_ℕ 0
score_or_zero (some x) = x

blocks_at : Action → Option Number → Bool
unfolding score_or_zero
blocks_at block o = true
blocks_at warn o = exceeds (score_or_zero o) send_anyway_threshold
blocks_at allow o = false

-- `shouldBlockUpload`
unfoldable pub should_block_upload : Decision → Bool
unfolding blocks_at
should_block_upload d = blocks_at d.action d.risk_score

-- A user who says yes to every warning.
abbrev pub agreeable : GateDeps (Unit {0})
agreeable = record { scan = λ text s. (err tt, s); warn = λ content s. (true, s) }

scored_upload :
    (d : Decision) (a : Action) (o : Option Number) (x : Number)
    → d.risk_score ≡ o
    → o ≡ some x
    → blocks_at a o ≡ not (sends (act_on agreeable a d tt).0)
unfolding blocks_at act_on warn_scored ask_user answered score_or_zero
scored_upload d allow o x e f = refl
scored_upload d block o x e f = refl
scored_upload d warn none x e f = absurd (cc)
scored_upload d warn (some y) x e f = elim (Bool-cases (exceeds y send_anyway_threshold)) [
  | inl above ↦
      rw above (sym (ap (λ p. not (sends (warn_scored agreeable p d tt).0)) e ∙ rw above refl))
  | inr within ↦
      rw within (sym (ap (λ p. not (sends (warn_scored agreeable p d tt).0)) e ∙ rw within refl))
]

-- For a decision with a numeric score, an upload is blocked exactly if the gate would not send a
-- prompt with that decision even if the user says yes to the question.
pub should_block_upload_lem :
    (d : Decision) (x : Number)
    → d.risk_score ≡ some x
    → should_block_upload d ≡ not (sends (act_on agreeable d.action d tt).0)
unfolding should_block_upload
should_block_upload_lem d x e = scored_upload d d.action d.risk_score x refl e

blocks_at_block : (a : Action) (o : Option Number) → blocks_at a o ≡ false → a ≡ block → ⊥
unfolding blocks_at
blocks_at_block allow o h e = absurd (cc)
blocks_at_block warn o h e = absurd (cc)
blocks_at_block block o h e = absurd (cc)

pub allowed_is_no_block : (d : Decision) → should_block_upload d ≡ false → d.action ≡ block → ⊥
unfolding should_block_upload
allowed_is_no_block d h e = blocks_at_block d.action d.risk_score h e
