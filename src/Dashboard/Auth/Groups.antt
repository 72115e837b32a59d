-- ===== src/Dashboard/Auth/Groups.antt =====
-- The role that a token gives.
use vguardrail.Base.{
  ◌≡◌, refl, subst, ap, ◌∙◌, ◌⊎◌, inl, inr, Bool, true, false, Option, none, some, ok, Bool-cases,
}
use vguardrail.Dashboard.Roles.{
  DashboardRole, super_admin, org_admin, auditor, viewer, one_of, is_at_least, get_role_level,
}
use vguardrail.Dashboard.Auth.{
  Claims, role_name, roles, find_role, claimed_role, group_role, role_or, role_from_claims,
}

-- A role that the test holds of, and no higher one.
abbrev pub Highest : (DashboardRole → Bool) → DashboardRole → Type 0
Highest p r = (p r ≡ true) × ((other : DashboardRole) → p other ≡ true → is_at_least r other ≡ true)

below_super : (other : DashboardRole) → is_at_least super_admin other ≡ true
unfolding is_at_least get_role_level
below_super super_admin = refl
below_super org_admin = refl
below_super auditor = refl
below_super viewer = refl

below_org : (other : DashboardRole) → (other ≡ super_admin → ⊥) → is_at_least org_admin other ≡ true
unfolding is_at_least get_role_level
below_org super_admin not_super = absurd (not_super refl)
below_org org_admin not_super = refl
below_org auditor not_super = refl
below_org viewer not_super = refl

below_auditor :
    (other : DashboardRole)
    → (other ≡ super_admin → ⊥)
    → (other ≡ org_admin → ⊥)
    → is_at_least auditor other ≡ true
unfolding is_at_least get_role_level
below_auditor super_admin not_super not_org = absurd (not_super refl)
below_auditor org_admin not_super not_org = absurd (not_org refl)
below_auditor auditor not_super not_org = refl
below_auditor viewer not_super not_org = refl

below_viewer :
    (other : DashboardRole)
    → (other ≡ super_admin → ⊥)
    → (other ≡ org_admin → ⊥)
    → (other ≡ auditor → ⊥)
    → is_at_least viewer other ≡ true
unfolding is_at_least get_role_level
below_viewer super_admin not_super not_org not_auditor = absurd (not_super refl)
below_viewer org_admin not_super not_org not_auditor = absurd (not_org refl)
below_viewer auditor not_super not_org not_auditor = absurd (not_auditor refl)
below_viewer viewer not_super not_org not_auditor = refl

module _ (p : DashboardRole → Bool) where
  -- A role that the test fails on is none that it holds of.
  differs : (r other : DashboardRole) → p r ≡ false → p other ≡ true → other ≡ r → ⊥
  differs r other fails holds same = absurd (cc)

  equal-Highest : (r q : DashboardRole) → Highest p q → some q ≡ some r → Highest p r
  equal-Highest r q h e = let same : q ≡ r = cc in subst (λ x. Highest p x) same h

  find_role-Highest : (r : DashboardRole) → find_role p roles ≡ some r → Highest p r
  find_role-Highest r = elim (Bool-cases (p super_admin)) [
    | inl a ↦ rw a (equal-Highest r super_admin (a, λ other h. below_super other))
    | inr na ↦ rw na (elim (Bool-cases (p org_admin)) [
      | inl b ↦ rw b (
          equal-Highest r org_admin
            (b, λ other h. below_org other (differs super_admin other na h)))
      | inr nb ↦ rw nb (elim (Bool-cases (p auditor)) [
        | inl c ↦ rw c (
            equal-Highest r auditor (
              c,
              λ other h.
                  below_auditor other (differs super_admin other na h)
                    (differs org_admin other nb h),
            ))
        | inr nc ↦ rw nc (elim (Bool-cases (p viewer)) [
          | inl d ↦ rw d (
              equal-Highest r viewer (
                d,
                λ other h.
                    below_viewer other (differs super_admin other na h)
                      (differs org_admin other nb h) (differs auditor other nc h),
              ))
          | inr nd ↦ rw nd (λ e. absurd (cc))
        ])
      ])
    ])
  ]

named_role :
    (c : Claims) (r : DashboardRole) (o : Option DashboardRole)
    → group_role c.groups ≡ o
    → role_or none o ≡ ok r
    → Highest (λ q. one_of c.groups (role_name q)) r
unfolding group_role role_or
named_role c r none h e = absurd (cc)
named_role c r (some q) h e =
    let same : q ≡ r = cc in
    find_role-Highest (λ x. one_of c.groups (role_name x)) r (h ∙ ap (λ x. some x) same)

role_given :
    (c : Claims) (r : DashboardRole) (o : Option DashboardRole)
    → claimed_role c.role ≡ o
    → role_or o (group_role c.groups) ≡ ok r
    → (o ≡ some r) ⊎ ((o ≡ none) × Highest (λ q. one_of c.groups (role_name q)) r)
unfolding role_or
role_given c r (some q) h e = let same : q ≡ r = cc in inl (ap (λ x. some x) same)
role_given c r none h e = inr (refl, named_role c r (group_role c.groups) refl e)

-- A role of a token is the one that its claim names, or, if that names none, the highest of the roles
-- that its groups name.
pub role_from_claims_lem :
    (c : Claims) (r : DashboardRole)
    → role_from_claims c ≡ ok r
    → (claimed_role c.role ≡ some r)
      ⊎ ((claimed_role c.role ≡ none) × Highest (λ q. one_of c.groups (role_name q)) r)
unfolding role_from_claims
role_from_claims_lem c r = role_given c r (claimed_role c.role) refl
