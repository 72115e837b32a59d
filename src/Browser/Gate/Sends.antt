-- ===== src/Browser/Gate/Sends.antt =====
-- When the gate sends a prompt, and what it records.
use vguardrail.Base.{
  ◌≡◌, refl, sym, ◌∙◌, ap, ◌↔◌, inl, inr, Bool, true, false, ℕ, Option, none, some, List, [], ◌∷◌,
  Outcome, ok, err, arith, Bool-cases,
}
use vguardrail.Base.Number.{Number, exceeds}
use vguardrail.Sdk.Enums.{Action, allow, warn, block, RiskLevel}
use vguardrail.Cli.Enforcement.{warn_tier}
use vguardrail.Browser.Contract.{Decision, send_anyway_threshold}
use vguardrail.Browser.Gate.{
  Deed, acked, submitted, GateDeps, warn_content, band, answered, ask_user, warn_tiered,
  warn_scored, act_on, settle, decide,
}

-- Whether the prompt was handed to the page.
abbrev pub sends : List Deed → Bool
sends [] = false
sends (submitted ∷ ds) = true
sends (d ∷ ds) = sends ds

-- Every answer that was recorded says what became of the prompt, and under the decision's id.
abbrev pub Records : Decision → Bool → List Deed → Type 0
Records d sent [] = Unit
Records d sent (acked id accepted ∷ ds) =
    (id ≡ d.request_id) × (accepted ≡ sent) × Records d sent ds
Records d sent (x ∷ ds) = Records d sent ds

module _ {S : Type 0} (deps : GateDeps S) (s : S) where
  -- The policy in words: an allowed prompt is sent; one with a warning and a score at most 55 is
  -- sent if the user, asked at the level of the score's band, says yes; with no score, a warning of
  -- low risk is sent, and one of medium risk if the user says yes.
  pub data MaySend (d : Decision) : Type 0 where
    allowed : d.action ≡ allow → MaySend d
    in_band :
        (x : Number)
        → d.action ≡ warn
        → d.risk_score ≡ some x
        → exceeds x send_anyway_threshold ≡ false
        → (deps.warn (warn_content d (band x)) s).0 ≡ true
        → MaySend d
    low_risk : d.action ≡ warn → d.risk_score ≡ none → d.risk_level ≡ RiskLevel.low → MaySend d
    confirmed :
        d.action ≡ warn
        → d.risk_score ≡ none
        → d.risk_level ≡ RiskLevel.medium
        → (deps.warn (warn_content d d.risk_level) s).0 ≡ true
        → MaySend d

  sends_answered :
      (d : Decision) (r : RiskLevel)
      → sends (ask_user deps d r s).0 ≡ (deps.warn (warn_content d r) s).0
  unfolding ask_user answered
  sends_answered d r = elim (Bool-cases (deps.warn (warn_content d r) s).0) [
    | inl proceed ↦ rw proceed refl
    | inr cancel ↦ rw cancel refl
  ]

  by_score :
      (d : Decision)
      → d.action ≡ warn
      → (x : Number) → d.risk_score ≡ some x
      → sends (warn_scored deps (some x) d s).0 ≡ true
      → MaySend d
  unfolding warn_scored
  by_score d w x e = elim (Bool-cases (exceeds x send_anyway_threshold)) [
    | inl above ↦ rw above (λ h. absurd (ground arith))
    | inr within ↦ rw (within, sends_answered d (band x)) (λ h. in_band x w e within h)
  ]

  by_level :
      (d : Decision) (r : RiskLevel)
      → d.action ≡ warn
      → d.risk_score ≡ none
      → d.risk_level ≡ r
      → sends (warn_tiered deps (warn_tier (some r)) d s).0 ≡ true
      → MaySend d
  unfolding warn_tiered warn_tier
  by_level d RiskLevel.low w e l h = low_risk w e l
  by_level d RiskLevel.medium w e l h = confirmed w e l (sym (sends_answered d d.risk_level) ∙ h)
  by_level d RiskLevel.high w e l h = absurd (ground arith)
  by_level d RiskLevel.critical w e l h = absurd (ground arith)

  warned :
      (d : Decision) (o : Option Number)
      → d.action ≡ warn
      → d.risk_score ≡ o
      → sends (warn_scored deps o d s).0 ≡ true
      → MaySend d
  unfolding warn_scored
  warned d none w e h = by_level d d.risk_level w e refl h
  warned d (some x) w e h = by_score d w x e h

  to_policy :
      (d : Decision) (a : Action) → d.action ≡ a → sends (act_on deps a d s).0 ≡ true → MaySend d
  unfolding act_on
  to_policy d allow e h = allowed e
  to_policy d warn e h = warned d d.risk_score e refl h
  to_policy d block e h = absurd (ground arith)

  from_scored :
      (d : Decision) (o : Option Number)
      → d.action ≡ warn
      → d.risk_score ≡ o
      → sends (warn_scored deps o d s).0 ≡ true
      → sends (act_on deps d.action d s).0 ≡ true
  unfolding act_on
  from_scored d o w e h =
      ap (λ a. sends (act_on deps a d s).0) w ∙ ap (λ x. sends (warn_scored deps x d s).0) e ∙ h

  from_level :
      (d : Decision) (r : RiskLevel)
      → d.action ≡ warn
      → d.risk_score ≡ none
      → d.risk_level ≡ r
      → sends (warn_tiered deps (warn_tier (some r)) d s).0 ≡ true
      → sends (act_on deps d.action d s).0 ≡ true
  unfolding warn_scored
  from_level d r w e l h =
      from_scored d none w e (ap (λ x. sends (warn_tiered deps (warn_tier (some x)) d s).0) l ∙ h)

  from_policy : (d : Decision) → MaySend d → sends (act_on deps d.action d s).0 ≡ true
  unfolding act_on warn_scored warn_tiered warn_tier
  from_policy d (allowed a) = ap (λ x. sends (act_on deps x d s).0) a
  from_policy d (in_band x w e within yes_answer) =
      from_scored d (some x) w e (rw within (sends_answered d (band x) ∙ yes_answer))
  from_policy d (low_risk w e low) = from_level d RiskLevel.low w e low refl
  from_policy d (confirmed w e medium yes_answer) =
      from_level d RiskLevel.medium w e medium (sends_answered d d.risk_level ∙ yes_answer)

  answered-Records :
      (d : Decision) (r : RiskLevel)
      → let out = ask_user deps d r s in Records d (sends out.0) out.0
  unfolding ask_user answered
  answered-Records d r = elim (Bool-cases (deps.warn (warn_content d r) s).0) [
    | inl proceed ↦ rw proceed (refl, refl, tt)
    | inr cancel ↦ rw cancel (refl, refl, tt)
  ]

  tiered-Records :
      (d : Decision) (r : RiskLevel)
      → let out = warn_tiered deps (warn_tier (some r)) d s in Records d (sends out.0) out.0
  unfolding warn_tiered warn_tier
  tiered-Records d RiskLevel.low = (refl, refl, tt)
  tiered-Records d RiskLevel.medium = answered-Records d d.risk_level
  tiered-Records d RiskLevel.high = (refl, refl, tt)
  tiered-Records d RiskLevel.critical = (refl, refl, tt)

  scored-Records :
      (d : Decision) (o : Option Number)
      → let out = warn_scored deps o d s in Records d (sends out.0) out.0
  unfolding warn_scored
  scored-Records d none = tiered-Records d d.risk_level
  scored-Records d (some x) = elim (Bool-cases (exceeds x send_anyway_threshold)) [
    | inl above ↦ rw above (refl, refl, tt)
    | inr within ↦ rw within (answered-Records d (band x))
  ]

  acted-Records :
      (d : Decision) (a : Action) → let out = act_on deps a d s in Records d (sends out.0) out.0
  unfolding act_on
  acted-Records d allow = tt
  acted-Records d warn = scored-Records d d.risk_score
  acted-Records d block = tt

module _ {S : Type 0} (deps : GateDeps S) (text : List ℕ) (s : S) where
  settled_sends :
      (out : Outcome (Unit {0}) Decision × S)
      → deps.scan text s ≡ out
      → sends (settle deps out).0 ≡ true
      → (d : Decision) × (s' : S) × (deps.scan text s ≡ (ok d, s')) × MaySend deps s' d
  unfolding settle
  settled_sends (ok d, s') e h = (d, s', e, to_policy deps s' d d.action refl h)
  settled_sends (err x, s') e h = absurd (ground arith)

  settled_back :
      (d : Decision) × (s' : S) × (deps.scan text s ≡ (ok d, s')) × MaySend deps s' d
      → sends (settle deps (deps.scan text s)).0 ≡ true
  unfolding settle
  settled_back (d, s', e, m) = rw e (from_policy deps s' d m)

  -- A prompt is sent exactly where its scan returned a decision and the policy lets that be sent;
  -- in particular never when the scan failed, on a block, or on a warning with a score above 55.
  pub decide_iff :
      (sends (decide deps text s).0 ≡ true)
      ↔ ((d : Decision) × (s' : S) × (deps.scan text s ≡ (ok d, s')) × MaySend deps s' d)
  unfolding decide
  decide_iff = (settled_sends (deps.scan text s) refl, settled_back)

  -- Where the scan returned a decision, each acknowledgement that the gate records carries the id
  -- of the decision, and is positive exactly if the prompt was sent.
  pub decide-Records :
      (d : Decision) (s' : S)
      → deps.scan text s ≡ (ok d, s')
      → Records d (sends (decide deps text s).0) (decide deps text s).0
  unfolding decide settle
  decide-Records d s' e = rw e (acted-Records deps s' d d.action)
