-- ===== src/Dashboard/Tests.antt =====
-- Roles at work.
use vguardrail.Base.{◌≡◌, refl, true, false, some, [], ◌∷◌}
use vguardrail.Dashboard.Roles.{
  org_admin, auditor, viewer, get_role_level, is_at_least, can_create_user, can_perform_action,
  creation_targets, includes_role, same_role,
}
use vguardrail.Dashboard.Routes.{
  RoutePermission, one_of_them, write, authorize_route, authorize_with, authorize_entry,
  route_permission_for, find_route, test, same_method, lacks_action,
}
use vguardrail.Dashboard.Routes.Rights.{passes, authorize_route-Rises, authorize_route_reads}

abbrev patch_policy : RoutePermission
patch_policy = record {
  method = "PATCH";
  path = one_of_them "policies";
  permission = write;
  action = some "update:policy";
}

may_create : can_create_user org_admin viewer ≡ true
unfolding can_create_user creation_targets includes_role same_role
may_create = refl

above : is_at_least org_admin auditor ≡ true
unfolding is_at_least get_role_level
above = refl

may_read : passes (authorize_route auditor "GET" ("api" ∷ "audit" ∷ [])) ≡ true
unfolding authorize_route authorize_with authorize_entry route_permission_for find_route test
    same_method lacks_action can_perform_action same_role
may_read = refl

authorize_route-Rises_example :
    passes (authorize_route org_admin "GET" ("api" ∷ "audit" ∷ [])) ≡ true
authorize_route-Rises_example =
    authorize_route-Rises org_admin auditor "GET" ("api" ∷ "audit" ∷ []) above may_read

patching : route_permission_for "patch" ("api" ∷ "policies" ∷ "p" ∷ []) ≡ some patch_policy
unfolding route_permission_for find_route test same_method
patching = refl

patch_differs : same_method "GET" "patch" ≡ false
unfolding same_method
patch_differs = refl

authorize_route_reads_example :
    (passes (authorize_route viewer "patch" ("api" ∷ "policies" ∷ "p" ∷ [])) ≡ false)
    × (passes (authorize_route auditor "patch" ("api" ∷ "policies" ∷ "p" ∷ [])) ≡ false)
authorize_route_reads_example =
    authorize_route_reads "patch" ("api" ∷ "policies" ∷ "p" ∷ []) patch_policy patching
      patch_differs
