-- ===== src/Sdk/Violation/Categories.antt =====
-- The categories of a list of findings, each once.
use vguardrail.Base.{
  ◌≡◌, refl, sym, subst, ◌⊎◌, ◌↔◌, arith, inl, inr, true, false, List, [], ◌∷◌, map, Bool-cases,
}
use vguardrail.Sdk.Enums.{Category, Category-discrete}
use vguardrail.Sdk.Decision.{Finding}
use vguardrail.Sdk.Violation.{category_eq, has, insert_all, distinct_categories}

abbrev pub Member : Category → List Category → Type 0
Member c [] = ⊥
Member c (d ∷ ds) = (c ≡ d) ⊎ Member c ds

abbrev pub IsDistinct : List Category → Type 0
IsDistinct [] = Unit
IsDistinct (c ∷ cs) = (Member c cs → ⊥) × IsDistinct cs

category_eq_iff : (c d : Category) → (category_eq c d ≡ true) ↔ (c ≡ d)
unfolding category_eq
category_eq_iff c d =
    elim (Category-discrete c d)
      as (λ x. ((elim x [ yes _ ↦ true | no _ ↦ false ]) ≡ true) ↔ (c ≡ d)) [
        | yes e ↦ (λ _. e, λ _. refl)
        | no ne ↦ (λ h. absurd (ground arith), λ e. absurd (ne e))
      ]

has_iff : (c : Category) (ds : List Category) → (has c ds ≡ true) ↔ Member c ds
unfolding has
has_iff c [] = (λ h. absurd (ground arith), λ h. absurd h)
has_iff c (d ∷ ds) = elim (Bool-cases (category_eq c d)) [
  | inl same ↦ rw same (λ _. inl ((category_eq_iff c d).0 same), λ _. refl)
  | inr other ↦ rw other (
    λ h. inr ((has_iff c ds).0 h),
    λ m. elim m [
      | inl e ↦ absurd (cc ((category_eq_iff c d).1 e, other))
      | inr k ↦ (has_iff c ds).1 k
    ],
  )
]

-- What is inserted is new, and inserted once.
insert_all-fresh :
    (seen cs : List Category) (c : Category) → Member c seen → Member c (insert_all seen cs) → ⊥
unfolding insert_all
insert_all-fresh seen [] c h = λ m. m
insert_all-fresh seen (d ∷ cs) c h = elim (Bool-cases (has d seen)) [
  | inl old ↦ rw old (insert_all-fresh seen cs c h)
  | inr new ↦ rw new (λ m. elim m [
    | inl e ↦ absurd (cc ((has_iff d seen).1 (subst (λ x. Member x seen) e h), new))
    | inr k ↦ insert_all-fresh (d ∷ seen) cs c (inr h) k
  ])
]

insert_all-IsDistinct : (seen cs : List Category) → IsDistinct (insert_all seen cs)
unfolding insert_all
insert_all-IsDistinct seen [] = tt {0}
insert_all-IsDistinct seen (d ∷ cs) = elim (Bool-cases (has d seen)) [
  | inl old ↦ rw old (insert_all-IsDistinct seen cs)
  | inr new ↦
      rw new (insert_all-fresh (d ∷ seen) cs d (inl refl), insert_all-IsDistinct (d ∷ seen) cs)
]

insert_all-covers :
    (seen cs : List Category) (c : Category)
    → Member c cs
    → Member c seen ⊎ Member c (insert_all seen cs)
unfolding insert_all
insert_all-covers seen [] c m = absurd m
insert_all-covers seen (d ∷ cs) c m = elim (Bool-cases (has d seen)) [
  | inl old ↦ rw old (elim m [
    | inl e ↦ inl (subst (λ x. Member x seen) (sym e) ((has_iff d seen).0 old))
    | inr k ↦ insert_all-covers seen cs c k
  ])
  | inr new ↦ rw new (elim m [
    | inl e ↦ inr (inl e)
    | inr k ↦ elim (insert_all-covers (d ∷ seen) cs c k) [
      | inl (inl e) ↦ inr (inl e)
      | inl (inr s) ↦ inl s
      | inr n ↦ inr (inr n)
    ]
  ])
]

-- The categories that are shown name no category twice, and name that of every finding.
pub distinct_categories_lem :
    (fs : List Finding)
    → IsDistinct (distinct_categories fs)
      × ((c : Category)
          → Member c (map (λ (f : Finding). f.category) fs)
          → Member c (distinct_categories fs))
unfolding distinct_categories
distinct_categories_lem fs = (
  insert_all-IsDistinct [] _,
  λ c m. elim (insert_all-covers [] _ c m) [ inl none_seen ↦ absurd none_seen | inr k ↦ k ],
)
