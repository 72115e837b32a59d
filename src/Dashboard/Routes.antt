-- ===== src/Dashboard/Routes.antt =====
-- dashboard/lib/auth/rbac-middleware.ts. A path is the list of its parts between slashes, so that
-- `/api/devices/` has an empty last part.
pub mod Rights
use Prim.Native.String
use vguardrail.Base.{
  String, Bool, true, false, not, ◌&&◌, ◌||◌, Option, none, some, List, [], ◌∷◌, Outcome, ok, err,
  if◌then◌else◌,
}
use vguardrail.Base.Text.{str_eq}
use vguardrail.Base.Units.{units, units_eq, to_upper_case}
use vguardrail.Dashboard.Roles.{
  DashboardRole, super_admin, org_admin, auditor, viewer, same_role, can_perform_action,
  can_create_user,
}

-- `Permission`
pub data Permission : Type 0 where
  read write audit settings users : Permission

-- The patterns of the table: one resource, one with an id, and both.
pub data Pattern : Type 0 where
  all_of : String → Pattern
  one_of_them : String → Pattern
  all_or_one : String → Pattern
  stats : Pattern
  settings_or_org : Pattern

pub record RoutePermission : Type 0 where
  pub method : String
  pub path : Pattern
  pub permission : Permission
  pub action : Option String

abbrev is_id : String → Bool
is_id part = not (str_eq part "")

abbrev is_all : String → List String → Bool
is_all name (a ∷ b ∷ []) = str_eq a "api" && str_eq b name
is_all name parts = false

abbrev is_one : String → List String → Bool
is_one name (a ∷ b ∷ id ∷ []) = str_eq a "api" && (str_eq b name && is_id id)
is_one name parts = false

abbrev is_stats : List String → Bool
is_stats (a ∷ b ∷ c ∷ []) = str_eq a "api" && (str_eq b "dashboard" && str_eq c "stats")
is_stats parts = false

-- `path.test(path)`
unfoldable pub test : Pattern → List String → Bool
test (all_of name) parts = is_all name parts
test (one_of_them name) parts = is_one name parts
test (all_or_one name) parts = is_all name parts || is_one name parts
test stats parts = is_all "dashboard" parts || is_stats parts
test settings_or_org parts = is_all "settings" parts || is_all "org" parts

abbrev route : String → Pattern → Permission → Option String → RoutePermission
route m p permission a = record { method = m; path = p; permission = permission; action = a }

-- `ROUTE_PERMISSIONS`
abbrev pub route_permissions : List RoutePermission
route_permissions =
    route "GET" stats read none
    ∷ route "GET" (all_or_one "devices") read none
    ∷ route "DELETE" (one_of_them "devices") write (some "deactivate:device")
    ∷ route "GET" (all_or_one "violations") read (some "view:violations")
    ∷ route "GET" (all_or_one "policies") read none
    ∷ route "POST" (all_of "policies") write (some "create:policy")
    ∷ route "PATCH" (one_of_them "policies") write (some "update:policy")
    ∷ route "GET" (all_or_one "exceptions") read none
    ∷ route "POST" (all_of "exceptions") write (some "create:exception")
    ∷ route "POST" (one_of_them "exceptions") write (some "approve:exception")
    ∷ route "GET" (all_or_one "audit") audit (some "view:audit")
    ∷ route "GET" (all_or_one "users") users none
    ∷ route "POST" (all_of "users") users none
    ∷ route "DELETE" (one_of_them "users") settings (some "manage:settings")
    ∷ route "GET" settings_or_org settings none
    ∷ route "PATCH" settings_or_org settings (some "manage:settings")
    ∷ []

-- `entry.method === method.toUpperCase()`; a method of HTTP is ASCII.
unfoldable pub same_method : String → String → Bool
same_method entry_method method = units_eq (units entry_method) (to_upper_case (units method))

-- `find`
unfoldable pub find_route : String → List String → List RoutePermission → Option RoutePermission
unfolding test same_method
find_route method parts [] = none
find_route method parts (entry ∷ entries) =
    let rest = find_route method parts entries in
    if same_method entry.method method && test entry.path parts then some entry else rest

-- `routePermissionFor`
unfoldable pub route_permission_for : String → List String → Option RoutePermission
unfolding find_route
route_permission_for method parts = find_route method parts route_permissions

abbrev pub is_read : Permission → Bool
is_read read = true
is_read _ = false

-- `["read", "audit"].includes(permission)`
abbrev pub is_read_or_audit : Permission → Bool
is_read_or_audit read = true
is_read_or_audit audit = true
is_read_or_audit _ = false

-- Whether the action of an entry, if it has one, is refused.
unfoldable pub lacks_action : Option String → DashboardRole → Bool
lacks_action none role = false
lacks_action (some action) role = not (can_perform_action role action)

-- What `authorizeRoute` throws for an entry, after `super_admin` has passed.
unfoldable pub authorize_entry : RoutePermission → DashboardRole → Outcome String (Unit {0})
unfolding lacks_action
authorize_entry entry role =
    if lacks_action entry.action role
    then err "Role cannot perform the action"
    else if same_role role viewer && not (is_read entry.permission)
    then err "Viewer role is read-only"
    else if same_role role auditor && not (is_read_or_audit entry.permission)
    then err "Auditor role is read-only"
    else ok tt

unfoldable pub authorize_with : Option RoutePermission → DashboardRole → Outcome String (Unit {0})
unfolding authorize_entry
authorize_with none role = ok tt
authorize_with (some entry) role =
    if same_role role super_admin then ok tt else authorize_entry entry role

-- `authorizeRoute`
unfoldable pub authorize_route : DashboardRole → String → List String → Outcome String (Unit {0})
unfolding authorize_with route_permission_for
authorize_route role method parts = authorize_with (route_permission_for method parts) role

-- `assertCanCreateRole`
unfoldable pub assert_can_create_role : DashboardRole → DashboardRole → Outcome String (Unit {0})
assert_can_create_role caller target =
    if not (can_create_user caller target) then err "Role cannot create user" else ok tt
