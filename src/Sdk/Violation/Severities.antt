-- ===== src/Sdk/Violation/Severities.antt =====
-- What a violation carries.
use vguardrail.Base.{
  ◌≡◌, refl, ◌≤◌, ◌⊎◌, inl, inr, some, List, [], ◌∷◌, ltb, Bool-cases, arith, All, subst,
}
use native.Mathlib.Nat.{le_trans}
use vguardrail.Sdk.Enums.{Severity}
use vguardrail.Sdk.Decision.{Finding}
use vguardrail.Sdk.Violation.{severity_order, better, max_from, max_severity}

abbrev pub Carries : Severity → List Finding → Type 0
Carries s [] = ⊥
Carries s (f ∷ fs) = (s ≡ f.severity) ⊎ Carries s fs

abbrev pub Bounds : Severity → List Finding → Type 0
Bounds s fs = All (λ (f : Finding). severity_order f.severity ≤ severity_order s) fs

-- The severity `s` is the greatest of the findings' and of what was seen before.
abbrev IsMaxFrom : Severity → List Finding → Severity → Type 0
IsMaxFrom b fs s = ((s ≡ b) ⊎ Carries s fs) × (severity_order b ≤ severity_order s) × Bounds s fs

better_choice :
    (b s : Severity)
    → ((better (some b) s ≡ b) × (severity_order s ≤ severity_order b))
      ⊎ ((better (some b) s ≡ s) × (severity_order b ≤ severity_order s))
unfolding better
better_choice b s = elim (Bool-cases (ltb (severity_order b) (severity_order s))) [
  | inl above ↦ inr (rw above refl, ground arith)
  | inr below ↦ inl (rw below refl, ground arith)
]

max_from_lem :
    (b : Severity) (fs : List Finding)
    → (s : Severity) × (max_from (some b) fs ≡ some s) × IsMaxFrom b fs s
unfolding max_from
max_from_lem b [] = (b, refl, (inl refl, omega arith, tt))
max_from_lem b (f ∷ fs) =
    let (s, e, (origin, above, bounds)) = max_from_lem (better (some b) f.severity) fs in
    elim (better_choice b f.severity) [
      | inl (kept, lower) ↦
          let origin' = subst (λ t. (s ≡ t) ⊎ Carries s fs) kept origin in
          let above' = subst (λ t. severity_order t ≤ severity_order s) kept above in
          (
            s,
            e,
            (
              elim origin' [ inl same ↦ inl same | inr c ↦ inr (inr c) ],
              above',
              (le_trans lower above', bounds),
            ),
          )
      | inr (raised, higher) ↦
          let origin' = subst (λ t. (s ≡ t) ⊎ Carries s fs) raised origin in
          let above' = subst (λ t. severity_order t ≤ severity_order s) raised above in
          (s, e, (inr origin', le_trans higher above', (above', bounds)))
    ]

-- The severity of a decision with findings is that of one of them, and no finding's is above it.
pub max_severity_greatest :
    (f : Finding) (fs : List Finding)
    → (s : Severity) × (max_severity (f ∷ fs) ≡ some s) × Carries s (f ∷ fs) × Bounds s (f ∷ fs)
unfolding max_severity max_from better
max_severity_greatest f fs =
    let (s, e, (origin, above, bounds)) = max_from_lem f.severity fs in
    (s, e, origin, (above, bounds))
