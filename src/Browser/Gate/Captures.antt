-- ===== src/Browser/Gate/Captures.antt =====
-- Which events the page never sees.
use vguardrail.Base.{
  ◌≡◌, refl, ap, ◌↔◌, inl, inr, Bool, true, false, ℕ, Option, none, some, List, Bool-cases, arith,
  if◌then◌else◌,
}
use vguardrail.Base.Units.{is_blank}
use vguardrail.Browser.Gate.{
  Capture, passed, stopped, Sight, intercept, intercept_input, on_keydown, on_click,
}

-- An event that would submit the text `t`, which is not blank, while no approved prompt is being
-- sent.
abbrev pub Submits : Bool → Bool → Option (List ℕ) → List ℕ → Type 0
Submits bypass submitting input t =
    (bypass ≡ false) × (submitting ≡ true) × (input ≡ some t) × (is_blank t ≡ false)

abbrev stopped_text : Capture → List ℕ → List ℕ
stopped_text passed d = d
stopped_text (stopped t) d = t

abbrev is_stopped : Capture → Bool
is_stopped passed = false
is_stopped (stopped t) = true

stopped_apart : (t : List ℕ) → (passed ≡ stopped t) → ⊥
stopped_apart t h = absurd (cc)

intercept_iff : (t t' : List ℕ) → (intercept t ≡ stopped t') ↔ ((t ≡ t') × (is_blank t' ≡ false))
unfolding intercept
intercept_iff t t' = elim (Bool-cases (is_blank t)) [
  | inl blank ↦ rw blank (λ h. absurd (stopped_apart t' h), λ (e, f). absurd (cc))
  | inr full ↦ rw full (λ h. let e : t ≡ t' = cc in (e, cc), λ (e, f). cc)
]

intercept_input_iff :
    (o : Option (List ℕ)) (t : List ℕ)
    → (intercept_input o ≡ stopped t) ↔ ((o ≡ some t) × (is_blank t ≡ false))
unfolding intercept_input
intercept_input_iff none t = (λ h. absurd (stopped_apart t h), λ (e, f). absurd (cc))
intercept_input_iff (some t') t = (
  λ h. let (e, f) = (intercept_iff t' t).0 h in (ap (λ x. some x) e, f),
  λ (e, f). (intercept_iff t' t).1 (cc, f),
)

-- What both listeners do, the test of the event beside the token.
listener_iff :
    (bypass submitting : Bool) (o : Option (List ℕ)) (t : List ℕ)
    → ((if bypass then passed else if submitting then intercept_input o else passed) ≡ stopped t)
      ↔ Submits bypass submitting o t
listener_iff true submitting o t =
    (λ h. absurd (stopped_apart t h), λ (b, x, y, z). absurd (ground arith))
listener_iff false false o t =
    (λ h. absurd (stopped_apart t h), λ (b, x, y, z). absurd (ground arith))
listener_iff false true o t = (
  λ h. let (e, f) = (intercept_input_iff o t).0 h in (refl, refl, e, f),
  λ (b, x, e, f). (intercept_input_iff o t).1 (e, f),
)

-- A key stroke or a click is kept from the page, and its text decided on, exactly if it submits a
-- text that is not blank while no approved prompt is being sent.
pub on_event_iff :
    (bypass : Bool) (e : Sight) (t : List ℕ)
    → ((on_keydown bypass e ≡ stopped t) ↔ Submits bypass e.is_submit_key e.input t)
      × ((on_click bypass e ≡ stopped t) ↔ Submits bypass e.on_send_button e.input t)
unfolding on_keydown on_click
on_event_iff bypass e t =
    (listener_iff bypass e.is_submit_key e.input t, listener_iff bypass e.on_send_button e.input t)
