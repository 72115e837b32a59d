-- ===== src/Dashboard/Session.antt =====
-- dashboard/lib/auth/session-store.ts, lib/api/request-context.ts and lib/api/with-rbac.ts: the
-- cookies of a caller, the session that they stand for, and the handlers that run for it. Cookies
-- are their values; their ages are the browser's. A cookie that was deleted is not read again.
pub mod Guards
mod Tests
use vguardrail.Base.{
  ℕ, String, Bool, true, false, not, ◌||◌, Option, none, some, List, [], ◌∷◌, Outcome, ok, err,
  if◌then◌else◌,
}
use vguardrail.Base.Text.{str_eq}
use vguardrail.Dashboard.Roles.{DashboardRole, org_admin}
use vguardrail.Dashboard.Routes.{authorize_route}
use vguardrail.Dashboard.Auth.{
  UserSession, Failure, api_error, auth_error, plain_error, Issuer, is_local_auth_disabled,
  mock_user_session, verify_session_token, filled, or_else,
}

pub record Cookies : Type 0 where
  pub access_token : Option String
  pub refresh_token : Option String
  pub id_token : Option String
  pub session : Option (Option UserSession)  -- its text, as a session if it is the JSON of one

-- `StoredAuthSession`
pub record StoredAuthSession : Type 0 where
  pub access_token : String
  pub refresh_token : Option String
  pub id_token : String
  pub session : UserSession

-- What Cognito answers to a refresh.
pub record Tokens : Type 0 where
  pub access_token : String
  pub refresh_token : Option String
  pub id_token : String

-- `refreshCognitoTokens` and `revokeCognitoToken`, beside the issuer.
pub record Cognito (S : Type 0) : Type 0 where
  pub issuer : Issuer S
  pub refresh_tokens : String → S → Outcome (Unit {0}) Tokens × S
  pub revoke_token : String → S → S

pub record State (S : Type 0) : Type 0 where
  pub cookies : Cookies
  pub world : S

-- `MOCK_ACCESS_TOKEN`, which `MOCK_ID_TOKEN` is too
abbrev pub mock_access_token : String
mock_access_token =
    "eyJhbGciOiJub25lIiwidHlwIjoiSldUIn0.eyJzdWIiOiJ1LWRldi0wMDEiLCJleHAiOjQxMDI0NDc5OTl9."

abbrev pub mock_stored : StoredAuthSession
mock_stored = record {
  access_token = mock_access_token;
  refresh_token = some "mock-refresh-token-local";
  id_token = mock_access_token;
  session = mock_user_session;
}

-- A token that replaces the cookie if it is given and not empty.
abbrev kept : Option String → Option String → Option String
kept old none = old
kept old (some s) = if str_eq s "" then old else some s

-- `setStoredSession`
unfoldable pub set_stored_session : Bool → StoredAuthSession → Cookies → Cookies
set_stored_session true input c = record c {
  access_token = some mock_access_token;
  id_token = some mock_access_token;
  session = some (some mock_user_session);
}
set_stored_session false input c = record {
  access_token = some input.access_token;
  refresh_token = kept c.refresh_token input.refresh_token;
  id_token = some input.id_token;
  session = some (some input.session);
}

-- `clearStoredSession`
abbrev pub no_cookies : Cookies
no_cookies = record { access_token = none; refresh_token = none; id_token = none; session = none }

unfoldable pub clear_stored_session : {S : Type 0} → State S → State S
clear_stored_session s = record s { cookies = no_cookies }

-- `tokens.refresh_token ?? refreshToken`
abbrev pub or_same : String → Option String → String
or_same old none = old
or_same old (some new) = new

-- What a route answers: what its handler returns, or an error's status and code.
pub data Response (R : Type 0) : Type 0 where
  handled : R → Response R
  failed : ℕ → String → Response R

unfoldable pub plain_failure : {R : Type 0} → Bool → Response R
plain_failure true = failed 401 "unauthorized"
plain_failure false = failed 500 "internal_error"

-- `apiErrorFromUnknown`
unfoldable pub api_error_from_unknown : {R : Type 0} → Failure → Response R
unfolding plain_failure
api_error_from_unknown (api_error status code) = failed status code
api_error_from_unknown (auth_error code) = failed 401 "unauthorized"
api_error_from_unknown (plain_error m) = plain_failure (str_eq m "Authentication required")

module _ {S : Type 0} (cognito : Cognito S) where
  unfoldable pub stored_with :
      String
      → String
      → Option String
      → Cookies
      → Outcome Failure UserSession × S
      → Option StoredAuthSession × State S
  unfolding clear_stored_session
  stored_with access id refresh c (ok session, w) = (
    some (record {
      access_token = access;
      refresh_token = refresh;
      id_token = id;
      session = session;
    }),
    record { cookies = c; world = w },
  )
  stored_with access id refresh c (err e, w) =
      (none, clear_stored_session (record { cookies = c; world = w }))

  unfoldable pub stored_from :
      Option String → Option String → State S → Option StoredAuthSession × State S
  unfolding stored_with verify_session_token
  stored_from (some access) (some id) s =
      stored_with access id s.cookies.refresh_token s.cookies
        (verify_session_token cognito.issuer id s.world)
  stored_from (some access) none s = (none, s)
  stored_from none id s = (none, s)

  -- `getStoredSession`
  unfoldable pub get_stored_session : State S → Option StoredAuthSession × State S
  unfolding stored_from is_local_auth_disabled
  get_stored_session s =
      if is_local_auth_disabled cognito.issuer.vars
      then (some mock_stored, s)
      else stored_from (filled s.cookies.access_token) (filled s.cookies.id_token) s

  unfoldable pub renewed_with :
      String
      → Tokens
      → Cookies
      → Outcome Failure UserSession × S
      → Option StoredAuthSession × State S
  unfolding clear_stored_session set_stored_session is_local_auth_disabled
  renewed_with old tokens c (err e, w) =
      (none, clear_stored_session (record { cookies = c; world = w }))
  renewed_with old tokens c (ok session, w) =
      let stored : StoredAuthSession = record {
        access_token = tokens.access_token;
        refresh_token = some (or_same old tokens.refresh_token);
        id_token = tokens.id_token;
        session = session;
      } in
      (
        some stored,
        record {
          cookies = set_stored_session (is_local_auth_disabled cognito.issuer.vars) stored c;
          world = w;
        },
      )

  unfoldable pub renewed :
      String → Cookies → Outcome (Unit {0}) Tokens × S → Option StoredAuthSession × State S
  unfolding renewed_with clear_stored_session verify_session_token
  renewed old c (err e, w) = (none, clear_stored_session (record { cookies = c; world = w }))
  renewed old c (ok tokens, w) =
      renewed_with old tokens c (verify_session_token cognito.issuer tokens.id_token w)

  unfoldable pub refresh_from : Option String → State S → Option StoredAuthSession × State S
  unfolding renewed clear_stored_session
  refresh_from none s = (none, clear_stored_session s)
  refresh_from (some token) s = renewed token s.cookies (cognito.refresh_tokens token s.world)

  -- `refreshStoredSession`
  unfoldable pub refresh_stored_session : State S → Option StoredAuthSession × State S
  unfolding refresh_from is_local_auth_disabled
  refresh_stored_session s =
      if is_local_auth_disabled cognito.issuer.vars
      then (some mock_stored, s)
      else refresh_from (filled s.cookies.refresh_token) s

  unfoldable pub or_refresh :
      Option StoredAuthSession × State S → Option StoredAuthSession × State S
  unfolding refresh_stored_session
  or_refresh (some stored, s) = (some stored, s)
  or_refresh (none, s) = refresh_stored_session s

  -- `getOrRefreshStoredSession`
  unfoldable pub get_or_refresh : State S → Option StoredAuthSession × State S
  unfolding or_refresh get_stored_session
  get_or_refresh s = or_refresh (get_stored_session s)

  revoked : Option String → State S → State S
  revoked none s = s
  revoked (some token) s = record s { world = cognito.revoke_token token s.world }

  -- `logoutStoredSession`
  unfoldable pub logout_stored_session : State S → State S
  unfolding revoked clear_stored_session is_local_auth_disabled
  logout_stored_session s =
      if is_local_auth_disabled cognito.issuer.vars
      then clear_stored_session s
      else revoked (filled s.cookies.refresh_token) (clear_stored_session s)

  -- `allowMockAuth`
  unfoldable pub allow_mock_auth : Bool
  allow_mock_auth =
      str_eq (or_else "" (cognito.issuer.vars "VG_AUTH_MODE")) "mock"
      || str_eq (or_else "" (cognito.issuer.vars "NODE_ENV")) "test"

  -- `MOCK_SESSION` of lib/api/request-context.ts
  abbrev mock_session : UserSession
  mock_session = record {
    id = "u-001";
    email = "admin@corp.example.com";
    role = org_admin;
    org_id = "org-default";
    org_name = "Acme Corp";
    groups = "org_admin" ∷ "auditor" ∷ [];
  }

  unfoldable pub required :
      Option StoredAuthSession × State S → Outcome Failure UserSession × State S
  required (some stored, s) = (ok stored.session, s)
  required (none, s) = (err (plain_error "Authentication required"), s)

  or_mock : Option StoredAuthSession × State S → Outcome Failure UserSession × State S
  or_mock (some stored, s) = (ok stored.session, s)
  or_mock (none, s) = (ok mock_session, s)

  mocked : Option (Option UserSession) → State S → Outcome Failure UserSession × State S
  unfolding or_mock get_or_refresh
  mocked (some (some session)) s = (ok session, s)
  mocked (some none) s = (ok mock_session, s)
  mocked none s = or_mock (get_or_refresh s)

  -- `extractRequestContext`, up to its session; the id of the request is left out.
  unfoldable pub extract_request_context : State S → Outcome Failure UserSession × State S
  unfolding allow_mock_auth required get_or_refresh mocked
  extract_request_context s =
      if not allow_mock_auth then required (get_or_refresh s) else mocked s.cookies.session s

  module _ {R : Type 0}
      (handler : UserSession → Option String → State S → Outcome Failure R × State S) where
    unfoldable pub answered : Outcome Failure R × State S → Response R × State S
    unfolding api_error_from_unknown
    answered (ok r, s) = (handled r, s)
    answered (err e, s) = (api_error_from_unknown e, s)

    token_of : Option StoredAuthSession → Option String
    token_of none = none
    token_of (some stored) = some stored.id_token

    -- The handler, with the token for the backend.
    unfoldable pub run_handler : UserSession → State S → Response R × State S
    unfolding answered token_of get_stored_session is_local_auth_disabled
    run_handler session s =
        if is_local_auth_disabled cognito.issuer.vars
        then answered (handler session (some mock_access_token) s)
        else (let (stored, s') = get_stored_session s in
            answered (handler session (token_of stored) s'))

    unfoldable pub authorized :
        UserSession → Outcome String (Unit {0}) → State S → Response R × State S
    unfolding run_handler
    authorized session (err m) s = (failed 403 "forbidden", s)
    authorized session (ok u) s = run_handler session s

    unfoldable pub in_context :
        String → List String → Outcome Failure UserSession × State S → Response R × State S
    unfolding authorized authorize_route api_error_from_unknown
    in_context method parts (err e, s) = (api_error_from_unknown e, s)
    in_context method parts (ok session, s) =
        authorized session (authorize_route session.role method parts) s

    -- `withBff`
    unfoldable pub with_bff : String → List String → State S → Response R × State S
    unfolding in_context extract_request_context
    with_bff method parts s = in_context method parts (extract_request_context s)
