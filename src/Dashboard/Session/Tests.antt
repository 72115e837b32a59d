-- ===== src/Dashboard/Session/Tests.antt =====
-- A caller with a token for an auditor.
use vguardrail.Base.{
  ◌≡◌, refl, ℕ, String, Option, none, some, [], ◌∷◌, Outcome, ok, err, if◌then◌else◌,
}
use vguardrail.Base.Text.{str_eq}
use vguardrail.Json.{str}
use vguardrail.Dashboard.Auth.{
  UserSession, Failure, Payload, is_local_auth_disabled, verify_session_token, verify_cognito_jwt,
  session_from, verify_with, verified, get_jwt_config, claims_of, claims_from, string_claim,
  groups_claim, claims_to_session, session_of, role_from_claims, role_or, claimed_role, group_role,
  role_name,
}
use vguardrail.Dashboard.Roles.{can_perform_action, same_role}
use vguardrail.Dashboard.Routes.{
  authorize_route, authorize_with, authorize_entry, route_permission_for, find_route, test,
  same_method, lacks_action,
}
use vguardrail.Dashboard.Session.{
  Cognito, State, handled, with_bff, allow_mock_auth, get_stored_session, stored_from, stored_with,
  get_or_refresh, or_refresh, required, extract_request_context, in_context, authorized,
  run_handler, answered,
}
use vguardrail.Dashboard.Session.Guards.{Guarded, with_bff-Guarded}

abbrev vars : String → Option String
vars name =
    if str_eq name "COGNITO_ISSUER"
    then some "https://issuer"
    else if str_eq name "NEXT_PUBLIC_COGNITO_CLIENT_ID"
    then some "client"
    else none

abbrev payload : Payload
payload key =
    if str_eq key "sub"
    then some (str "u")
    else if str_eq key "email"
    then some (str "u@x")
    else if str_eq key "custom:org_id"
    then some (str "org")
    else if str_eq key "custom:role"
    then some (str "auditor")
    else none

abbrev cognito : Cognito ℕ
cognito = record {
  issuer = record { vars = vars; jwt_verify = λ url client token s. (ok payload, s) };
  refresh_tokens = λ token s. (err tt, s);
  revoke_token = λ token s. s;
}

abbrev state : State ℕ
state = record {
  cookies = record {
    access_token = some "a";
    refresh_token = none;
    id_token = some "i";
    session = none;
  };
  world = 0;
}

abbrev handler : UserSession → Option String → State ℕ → Outcome Failure ℕ × State ℕ
handler session token s = (ok 7, s)

answers : (with_bff cognito handler "GET" ("api" ∷ "audit" ∷ []) state).0 ≡ handled 7
unfolding with_bff extract_request_context allow_mock_auth get_or_refresh get_stored_session
    stored_from stored_with or_refresh required in_context authorized run_handler answered
    is_local_auth_disabled verify_session_token verify_cognito_jwt session_from verify_with verified
    get_jwt_config claims_of claims_from string_claim groups_claim claims_to_session session_of
    role_from_claims role_or claimed_role group_role role_name authorize_route authorize_with
    authorize_entry route_permission_for find_route test same_method lacks_action can_perform_action
    same_role
answers = refl

with_bff-Guarded_example : Guarded cognito handler "GET" ("api" ∷ "audit" ∷ []) 7
unfolding is_local_auth_disabled allow_mock_auth
with_bff-Guarded_example =
    with_bff-Guarded cognito handler "GET" ("api" ∷ "audit" ∷ []) state 7 refl refl answers
