-- ===== src/Dashboard/Scope/Tenant/Tests.antt =====
-- A backend that answers with what it was asked.
use vguardrail.Base.{◌≡◌, ℕ, Option, some, []}
use vguardrail.Json.{str}
use vguardrail.Dashboard.Roles.{viewer}
use vguardrail.Dashboard.Auth.{UserSession}
use vguardrail.Dashboard.Scope.{Filters, Registry, create_scoped_repositories}
use vguardrail.Dashboard.Scope.Tenant.{Scoped, value, create_scoped_repositories-Scoped}

abbrev base : Registry ℕ ℕ (Option Filters)
base = record {
  list_devices = λ q f s. (f, s);
  list_policies = λ q f s. (f, s);
  list_violations = λ q f s. (f, s);
  list_exceptions = λ q f s. (f, s);
  list_audit = λ q f s. (f, s);
  list_users = λ q s. (some [], s);
  get_device = λ id s. (some [], s);
  deactivate_device = λ id s. (some [], s);
  device_inventory = λ id s. (some [], s);
  device_events = λ id q s. (some [], s);
  get_policy = λ id s. (some [], s);
  list_versions = λ id s. (some [], s);
  get_violation = λ id s. (some [], s);
  get_exception = λ id s. (some [], s);
  create_exception = λ rule reason s. (some [], s);
  approve_exception = λ id approver s. (some [], s);
  reject_exception = λ id approver reason s. (some [], s);
  get_event = λ id s. (some [], s);
  invite_user = λ email role s. (some [], s);
  disable_user = λ id s. (some [], s);
  get_org = λ s. (some [], s);
  update_org = λ patch s. (some patch, s);
  get_stats = λ s. (some [], s);
}

abbrev session : UserSession
session = record {
  id = "u";
  email = "u@x";
  role = viewer;
  org_id = "org";
  org_name = "Org";
  groups = [];
}

create_scoped_repositories-Scoped_example :
    let scoped = create_scoped_repositories base session in
    Scoped "org" scoped.list_devices base.list_devices
    × Scoped "org" scoped.list_policies base.list_policies
    × Scoped "org" scoped.list_violations base.list_violations
    × Scoped "org" scoped.list_exceptions base.list_exceptions
    × Scoped "org" scoped.list_audit base.list_audit
    × ((patch : Filters) (s : ℕ)
        → (sent : Filters) × (scoped.update_org patch s ≡ base.update_org sent s)
          × (value "org_id" sent ≡ some (str "org")))
create_scoped_repositories-Scoped_example = create_scoped_repositories-Scoped base session
