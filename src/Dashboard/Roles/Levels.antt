-- ===== src/Dashboard/Roles/Levels.antt =====
-- Rights follow the levels of the roles.
use vguardrail.Base.{
  ◌≡◌, refl, inl, inr, ◌⊎◌, ◌<◌, String, Bool, true, ◌||◌, [], ◌∷◌, Bool-cases, arith,
}
use vguardrail.Base.Text.{str_eq}
use vguardrail.Dashboard.Roles.{
  DashboardRole, super_admin, org_admin, auditor, viewer, get_role_level, is_at_least, same_role,
  includes_role, creation_targets, can_create_user, page_access, allowed_in, can_view_page,
  can_perform_action, one_of, pages_of_everyone, pages_of_reviewers, pages_of_admins, everyone,
  reviewers, admins, admin_actions,
}

-- Nobody makes a user of a higher level, and only a super admin one of the same.
pub can_create_user_bounds :
    (caller target : DashboardRole)
    → can_create_user caller target ≡ true
    → (get_role_level target < get_role_level caller) ⊎ (caller ≡ super_admin)
unfolding can_create_user includes_role creation_targets same_role get_role_level
can_create_user_bounds super_admin target h = inr refl
can_create_user_bounds org_admin super_admin h = absurd (ground arith)
can_create_user_bounds org_admin org_admin h = absurd (ground arith)
can_create_user_bounds org_admin auditor h = inl (omega arith)
can_create_user_bounds org_admin viewer h = inl (omega arith)
can_create_user_bounds auditor target h = absurd (ground arith)
can_create_user_bounds viewer target h = absurd (ground arith)

-- A right of a role that the roles above it have too.
abbrev Rises : (DashboardRole → Bool) → Type 0
Rises right =
    (high low : DashboardRole) → is_at_least high low ≡ true → right low ≡ true → right high ≡ true

pub super-Rises : Rises (λ r. same_role r super_admin)
unfolding is_at_least get_role_level same_role
super-Rises super_admin low h g = refl
super-Rises org_admin super_admin h g = absurd (ground arith)
super-Rises org_admin org_admin h g = absurd (ground arith)
super-Rises org_admin auditor h g = absurd (ground arith)
super-Rises org_admin viewer h g = absurd (ground arith)
super-Rises auditor super_admin h g = absurd (ground arith)
super-Rises auditor org_admin h g = absurd (ground arith)
super-Rises auditor auditor h g = absurd (ground arith)
super-Rises auditor viewer h g = absurd (ground arith)
super-Rises viewer super_admin h g = absurd (ground arith)
super-Rises viewer org_admin h g = absurd (ground arith)
super-Rises viewer auditor h g = absurd (ground arith)
super-Rises viewer viewer h g = absurd (ground arith)

admins-Rises : Rises (λ r. same_role r super_admin || same_role r org_admin)
unfolding is_at_least get_role_level same_role
admins-Rises super_admin low h g = refl
admins-Rises org_admin low h g = refl
admins-Rises auditor super_admin h g = absurd (ground arith)
admins-Rises auditor org_admin h g = absurd (ground arith)
admins-Rises auditor auditor h g = absurd (ground arith)
admins-Rises auditor viewer h g = absurd (ground arith)
admins-Rises viewer super_admin h g = absurd (ground arith)
admins-Rises viewer org_admin h g = absurd (ground arith)
admins-Rises viewer auditor h g = absurd (ground arith)
admins-Rises viewer viewer h g = absurd (ground arith)

reviewers-Rises :
    Rises (λ r. same_role r super_admin || (same_role r org_admin || same_role r auditor))
unfolding is_at_least get_role_level same_role
reviewers-Rises super_admin low h g = refl
reviewers-Rises org_admin low h g = refl
reviewers-Rises auditor low h g = refl
reviewers-Rises viewer super_admin h g = absurd (ground arith)
reviewers-Rises viewer org_admin h g = absurd (ground arith)
reviewers-Rises viewer auditor h g = absurd (ground arith)
reviewers-Rises viewer viewer h g = absurd (ground arith)

perform-Rises : (action : String) → Rises (λ r. can_perform_action r action)
unfolding can_perform_action
perform-Rises action high low h = elim (Bool-cases (one_of admin_actions action)) [
  | inl a ↦ rw a (admins-Rises high low h)
  | inr na ↦ rw na (elim (Bool-cases (str_eq action "create:super_admin")) [
    | inl b ↦ rw b (super-Rises high low h)
    | inr nb ↦ rw nb (elim (Bool-cases (one_of ("view:audit" ∷ "export:audit" ∷ []) action)) [
      | inl c ↦ rw c (reviewers-Rises high low h)
      | inr nc ↦ rw nc (λ g. g)
    ])
  ])
]

everyone_in : (role : DashboardRole) → includes_role everyone role ≡ true
unfolding includes_role same_role
everyone_in super_admin = refl
everyone_in org_admin = refl
everyone_in auditor = refl
everyone_in viewer = refl

listed_reviewers : Rises (includes_role reviewers)
unfolding includes_role
listed_reviewers high low h g =
    let given = reviewers-Rises high low h (ground arith) in ground arith

listed_admins : Rises (includes_role admins)
unfolding includes_role
listed_admins high low h g = let given = admins-Rises high low h (ground arith) in ground arith

view-Rises : (path : String) → Rises (λ r. can_view_page r path)
unfolding can_view_page page_access allowed_in includes_role
view-Rises path high low h = elim (Bool-cases (one_of pages_of_everyone path)) [
  | inl a ↦ rw a (λ g. everyone_in high)
  | inr na ↦ rw na (elim (Bool-cases (one_of pages_of_reviewers path)) [
    | inl b ↦ rw b (listed_reviewers high low h)
    | inr nb ↦ rw nb (elim (Bool-cases (one_of pages_of_admins path)) [
      | inl c ↦ rw c (listed_admins high low h)
      | inr nc ↦ rw nc (λ g. g)
    ])
  ])
]

-- A role that is at least another sees every page that the other sees, and may do whatever the
-- other may do.
pub rights-Rises :
    (high low : DashboardRole)
    → is_at_least high low ≡ true
    → ((path : String) → can_view_page low path ≡ true → can_view_page high path ≡ true)
      × ((action : String)
          → can_perform_action low action ≡ true
          → can_perform_action high action ≡ true)
rights-Rises high low h =
    (λ path. view-Rises path high low h, λ action. perform-Rises action high low h)
