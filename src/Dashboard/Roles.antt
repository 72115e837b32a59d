-- ===== src/Dashboard/Roles.antt =====
-- dashboard/lib/auth/rbac.ts. A path is looked up among the keys of the table; that the names of an
-- object's prototype are found too is left out, since no path is one.
pub mod Levels
use vguardrail.Base.{
  ℕ, String, Bool, true, false, not, ◌&&◌, ◌||◌, Option, none, some, List, [], ◌∷◌, ◌++◌, any, leb,
  ◌==◌, if◌then◌else◌,
}
use vguardrail.Base.Text.{str_eq}

-- `Role` of dashboard/types/auth.ts
pub data DashboardRole : Type 0 where
  super_admin org_admin auditor viewer : DashboardRole

-- `getRoleLevel`
unfoldable pub get_role_level : DashboardRole → ℕ
get_role_level super_admin = 100
get_role_level org_admin = 80
get_role_level auditor = 50
get_role_level viewer = 20

-- `isAtLeast`
unfoldable pub is_at_least : DashboardRole → DashboardRole → Bool
unfolding get_role_level
is_at_least caller required = leb (get_role_level required) (get_role_level caller)

-- `===` on roles
unfoldable pub same_role : DashboardRole → DashboardRole → Bool
same_role super_admin super_admin = true
same_role org_admin org_admin = true
same_role auditor auditor = true
same_role viewer viewer = true
same_role _ _ = false

abbrev pub everyone : List DashboardRole
everyone = super_admin ∷ org_admin ∷ auditor ∷ viewer ∷ []

abbrev pub reviewers : List DashboardRole
reviewers = super_admin ∷ org_admin ∷ auditor ∷ []

abbrev pub admins : List DashboardRole
admins = super_admin ∷ org_admin ∷ []

-- `roles.includes(role)`
unfoldable pub includes_role : List DashboardRole → DashboardRole → Bool
unfolding same_role
includes_role roles role = any (same_role role) roles

-- `ALLOWED_CREATION_TARGETS`
unfoldable pub creation_targets : DashboardRole → List DashboardRole
creation_targets super_admin = everyone
creation_targets org_admin = auditor ∷ viewer ∷ []
creation_targets auditor = []
creation_targets viewer = []

-- `canCreateUser`
unfoldable pub can_create_user : DashboardRole → DashboardRole → Bool
unfolding includes_role creation_targets
can_create_user caller target = includes_role (creation_targets caller) target

abbrev pub one_of : List String → String → Bool
one_of names name = any (λ n. str_eq n name) names

abbrev pub pages_of_everyone : List String
pages_of_everyone = "/dashboard" ∷ "/devices" ∷ "/devices/[id]" ∷ "/violations" ∷ []

abbrev pub pages_of_reviewers : List String
pages_of_reviewers =
    "/policies" ∷ "/policies/[id]" ∷ "/exceptions" ∷ "/exceptions/[id]" ∷ "/audit"
    ∷ "/audit/[event_id]" ∷ []

abbrev pub pages_of_admins : List String
pages_of_admins =
    "/policies/new" ∷ "/exceptions/new" ∷ "/settings" ∷ "/settings/users" ∷ "/settings/enrollment"
    ∷ []

-- `PAGE_ACCESS`
unfoldable pub page_access : String → Option (List DashboardRole)
page_access path =
    if one_of pages_of_everyone path
    then some everyone
    else if one_of pages_of_reviewers path
    then some reviewers
    else if one_of pages_of_admins path
    then some admins
    else none

-- `canViewPage`, on what the table says
unfoldable pub allowed_in : Option (List DashboardRole) → DashboardRole → Bool
unfolding includes_role
allowed_in none role = false
allowed_in (some roles) role = includes_role roles role

unfoldable pub can_view_page : DashboardRole → String → Bool
unfolding allowed_in page_access
can_view_page role path = allowed_in (page_access path) role

abbrev pub admin_actions : List String
admin_actions =
    "create:policy" ∷ "update:policy" ∷ "delete:policy" ∷ "publish:policy" ∷ "create:exception"
    ∷ "approve:exception" ∷ "deactivate:device" ∷ "manage:settings" ∷ "manage:enrollment" ∷ []

-- `canPerformAction`
unfoldable pub can_perform_action : DashboardRole → String → Bool
unfolding same_role
can_perform_action role action =
    if one_of admin_actions action
    then same_role role super_admin || same_role role org_admin
    else if str_eq action "create:super_admin"
    then same_role role super_admin
    else if one_of ("view:audit" ∷ "export:audit" ∷ []) action
    then same_role role super_admin || (same_role role org_admin || same_role role auditor)
    else str_eq action "view:violations"

-- The items of `getSidebarItems`, by their links
unfoldable pub get_sidebar_items : DashboardRole → List String
unfolding same_role
get_sidebar_items role =
    "/dashboard"
    ∷ "/devices"
    ∷ ((if not (same_role role viewer) then "/policies" ∷ [] else [])
        ++ ("/violations"
            ∷ ((if not (same_role role viewer) then "/exceptions" ∷ [] else [])
                ++ ((if same_role role super_admin
                        || (same_role role org_admin || same_role role auditor)
                      then "/audit" ∷ []
                      else [])
                    ++ (if same_role role super_admin || same_role role org_admin
                        then "/settings" ∷ []
                        else [])))))
