-- ===== src/Dashboard/Scope.antt =====
-- dashboard/lib/api/scoped-repository.ts: the repositories of a caller. Their calls go to the
-- backend, which is a world `S`; `R` is what it answers. Filters are objects, by their entries.
pub mod Tenant
use vguardrail.Base.{
  String, Bool, true, false, not, Option, none, some, List, [], ◌∷◌, keep, if◌then◌else◌,
}
use vguardrail.Base.Text.{str_eq}
use vguardrail.Json.{Json, str}
use vguardrail.Dashboard.Auth.{UserSession}

abbrev pub Filters : Type 0
Filters = List (String × Json)

-- `{ [key]: _ignored, ...rest }`
unfoldable pub without : String → Filters → Filters
without key [] = []
without key ((k, x) ∷ rest) =
    let further = without key rest in if str_eq k key then further else (k, x) ∷ further

-- `stripOrgId`
unfoldable pub strip_org_id : Option Filters → Option Filters
unfolding without
strip_org_id none = none
strip_org_id (some filters) = some (without "org_id" filters)

-- `{ ...object, [key]: value }`
unfoldable pub put : String → Json → Filters → Filters
put key v [] = (key, v) ∷ []
put key v ((k, x) ∷ rest) =
    let further = put key v rest in if str_eq k key then (k, v) ∷ rest else (k, x) ∷ further

-- `withOrgFilter`
unfoldable pub with_org_filter : Option Filters → String → Filters
unfolding put
with_org_filter none org = put "org_id" (str org) []
with_org_filter (some filters) org = put "org_id" (str org) filters

abbrev pub Listing : Type 0 → Type 0 → Type 0 → Type 0
Listing Q S R = Q → Option Filters → S → R × S

-- The repositories of `RepositoryRegistry`, by their calls; `Q` is `PageQuery`, and calls that name
-- what they are about have its name first.
pub record Registry (Q S R : Type 0) : Type 0 where
  pub list_devices : Listing Q S R
  pub list_policies : Listing Q S R
  pub list_violations : Listing Q S R
  pub list_exceptions : Listing Q S R
  pub list_audit : Listing Q S R
  pub list_users : Q → S → R × S
  pub get_device : String → S → R × S
  pub deactivate_device : String → S → R × S
  pub device_inventory : String → S → R × S
  pub device_events : String → Q → S → R × S
  pub get_policy : String → S → R × S
  pub list_versions : String → S → R × S
  pub get_violation : String → S → R × S
  pub get_exception : String → S → R × S
  pub create_exception : String → String → S → R × S
  pub approve_exception : String → String → S → R × S
  pub reject_exception : String → String → String → S → R × S
  pub get_event : String → S → R × S
  pub invite_user : String → String → S → R × S
  pub disable_user : String → S → R × S
  pub get_org : S → R × S
  pub update_org : Filters → S → R × S
  pub get_stats : S → R × S

module _ {Q S R : Type 0} where
  -- A `list` of the wrapper
  unfoldable pub scoped_list : Listing Q S R → String → Listing Q S R
  unfolding with_org_filter strip_org_id
  scoped_list list org query filters s =
      list query (some (with_org_filter (strip_org_id filters) org)) s

  -- `createScopedRepositories`; the calls that are not here go on as they are.
  unfoldable pub create_scoped_repositories : Registry Q S R → UserSession → Registry Q S R
  unfolding scoped_list put
  create_scoped_repositories base session = record base {
    list_devices = scoped_list base.list_devices session.org_id;
    list_policies = scoped_list base.list_policies session.org_id;
    list_violations = scoped_list base.list_violations session.org_id;
    list_exceptions = scoped_list base.list_exceptions session.org_id;
    list_audit = scoped_list base.list_audit session.org_id;
    update_org = λ patch s. base.update_org (put "org_id" (str session.org_id) patch) s;
  }
