-- ===== src/Dashboard/Auth.antt =====
-- dashboard/lib/auth/jwt.ts and local-mode.ts, with the errors of dashboard/lib/api/errors.ts. The
-- library that verifies tokens is `jwt_verify`; the claims on time are left out, since nothing here
-- reads them.
pub mod Groups
use Prim.Native.String
use vguardrail.Base.{
  ℕ, String, Bool, true, false, not, ◌||◌, Option, none, some, List, [], ◌∷◌, any, Outcome, ok, err,
  if◌then◌else◌,
}
use vguardrail.Base.Text.{str_eq}
use vguardrail.Json.{Json, str, arr, Items, nil, cons}
use vguardrail.Dashboard.Roles.{DashboardRole, super_admin, org_admin, auditor, viewer, one_of}

-- `UserSession`
pub record UserSession : Type 0 where
  pub id : String
  pub email : String
  pub role : DashboardRole
  pub org_id : String
  pub org_name : String
  pub groups : List String

-- `CognitoJwtClaims`
pub record Claims : Type 0 where
  pub sub : String
  pub email : String
  pub groups : List String
  pub org_id : String
  pub org_name : Option String
  pub role : Option String

-- What a handler can throw: an `ApiError` with its status and code, an `AuthError` with its code, or
-- another error with its message.
pub data Failure : Type 0 where
  api_error : ℕ → String → Failure
  auth_error : String → Failure
  plain_error : String → Failure

-- The names of `Role`
unfoldable pub role_name : DashboardRole → String
role_name super_admin = "super_admin"
role_name org_admin = "org_admin"
role_name auditor = "auditor"
role_name viewer = "viewer"

-- `ROLES`
abbrev pub roles : List DashboardRole
roles = super_admin ∷ org_admin ∷ auditor ∷ viewer ∷ []

-- `find`
abbrev pub find_role : (DashboardRole → Bool) → List DashboardRole → Option DashboardRole
find_role p [] = none
find_role p (r ∷ rs) = let rest = find_role p rs in if p r then some r else rest

-- The role of the claim, if `ROLES` includes it.
unfoldable pub claimed_role : Option String → Option DashboardRole
unfolding role_name
claimed_role none = none
claimed_role (some name) = find_role (λ r. str_eq (role_name r) name) roles

-- The first of `ROLES` that the groups include.
unfoldable pub group_role : List String → Option DashboardRole
unfolding role_name
group_role groups = find_role (λ r. one_of groups (role_name r)) roles

unfoldable pub role_or : Option DashboardRole → Option DashboardRole → Outcome Failure DashboardRole
role_or (some r) o = ok r
role_or none (some r) = ok r
role_or none none = err (auth_error "invalid_role")

-- `roleFromClaims`
unfoldable pub role_from_claims : Claims → Outcome Failure DashboardRole
unfolding role_or claimed_role group_role
role_from_claims c = role_or (claimed_role c.role) (group_role c.groups)

abbrev pub or_else : String → Option String → String
or_else d none = d
or_else d (some s) = s

unfoldable pub session_of : Claims → Outcome Failure DashboardRole → Outcome Failure UserSession
session_of c (err e) = err e
session_of c (ok role) =
    if str_eq c.org_id ""
    then err (auth_error "invalid_org")
    else ok (record {
      id = c.sub;
      email = c.email;
      role = role;
      org_id = c.org_id;
      org_name = or_else c.org_id c.org_name;
      groups = c.groups;
    })

-- `claimsToSession`
unfoldable pub claims_to_session : Claims → Outcome Failure UserSession
unfolding session_of role_from_claims
claims_to_session c = session_of c (role_from_claims c)

-- The payload of a token, by its keys.
abbrev pub Payload : Type 0
Payload = String → Option Json

-- `stringClaim`
unfoldable pub string_claim : Option Json → Outcome Failure String
string_claim (some (str s)) = if str_eq s "" then err (auth_error "invalid_token") else ok s
string_claim _ = err (auth_error "invalid_token")

abbrev strings : Items → List String
strings nil = []
strings (cons (str s) rest) = s ∷ strings rest
strings (cons _ rest) = strings rest

-- `groupsClaim`
unfoldable pub groups_claim : Option Json → List String
groups_claim (some (arr items)) = strings items
groups_claim _ = []

-- A claim that counts if it is a string.
abbrev text_claim : Option Json → Option String
text_claim (some (str s)) = some s
text_claim _ = none

abbrev pub filled : Option String → Option String
filled none = none
filled (some s) = if str_eq s "" then none else some s

unfoldable pub claims_from :
    Payload
    → Outcome Failure String
    → Outcome Failure String
    → Outcome Failure String
    → Outcome Failure Claims
unfolding groups_claim
claims_from p (ok sub) (ok email) (ok org_id) = ok (record {
  sub = sub;
  email = email;
  groups = groups_claim (p "cognito:groups");
  org_id = org_id;
  org_name = text_claim (p "custom:org_name");
  role = filled (text_claim (p "custom:role"));
})
claims_from p (err e) email org_id = err e
claims_from p (ok sub) (err e) org_id = err e
claims_from p (ok sub) (ok email) (err e) = err e

-- The `return` of `verifyCognitoJwt`
unfoldable pub claims_of : Payload → Outcome Failure Claims
unfolding claims_from string_claim
claims_of p =
    claims_from p (string_claim (p "sub")) (string_claim (p "email"))
      (string_claim (p "custom:org_id"))

-- The environment, and `jwtVerify` with the keys of the issuer.
pub record Issuer (S : Type 0) : Type 0 where
  pub vars : String → Option String
  pub jwt_verify : String → String → String → S → Outcome (Unit {0}) Payload × S

-- `isLocalAuthDisabled`
unfoldable pub is_local_auth_disabled : (String → Option String) → Bool
is_local_auth_disabled vars = elim (vars "DISABLE_AUTH") [ none ↦ false | some v ↦ str_eq v "true" ]

-- `MOCK_USER_SESSION`
abbrev pub mock_user_session : UserSession
mock_user_session = record {
  id = "u-dev-001";
  email = "admin@localhost.dev";
  role = super_admin;
  org_id = "local-org";
  org_name = "Local Dev Org";
  groups = "super_admin" ∷ "org_admin" ∷ "auditor" ∷ [];
}

abbrev or_domain : Option String → String
or_domain none = ""
or_domain (some d) = if str_eq d "" then "" else String.◌++◌ "https://" d

abbrev issuer_of : Option String → Option String → Option String → String
issuer_of (some i) public domain = i
issuer_of none (some i) domain = i
issuer_of none none domain = or_domain domain

-- `getJwtConfig`: the issuer and the client.
unfoldable pub get_jwt_config : (String → Option String) → Outcome Failure (String × String)
get_jwt_config vars =
    let issuer =
      issuer_of (vars "COGNITO_ISSUER") (vars "NEXT_PUBLIC_COGNITO_ISSUER")
        (vars "NEXT_PUBLIC_COGNITO_DOMAIN") in
    let client = or_else "" (vars "NEXT_PUBLIC_COGNITO_CLIENT_ID") in
    if str_eq issuer "" || str_eq client ""
    then err (auth_error "auth_misconfigured")
    else ok (issuer, client)

module _ {S : Type 0} (issuer : Issuer S) where
  unfoldable pub verified : Outcome (Unit {0}) Payload × S → Outcome Failure Claims × S
  unfolding claims_of
  verified (err e, s) = (err (auth_error "invalid_token"), s)
  verified (ok p, s) = (claims_of p, s)

  unfoldable pub verify_with :
      String → Outcome Failure (String × String) → S → Outcome Failure Claims × S
  unfolding verified
  verify_with token (err e) s = (err e, s)
  verify_with token (ok (url, client)) s = verified (issuer.jwt_verify url client token s)

  -- `verifyCognitoJwt`, when authentication is on
  unfoldable pub verify_cognito_jwt : String → S → Outcome Failure Claims × S
  unfolding verify_with get_jwt_config
  verify_cognito_jwt token s = verify_with token (get_jwt_config issuer.vars) s

  unfoldable pub session_from : Outcome Failure Claims × S → Outcome Failure UserSession × S
  unfolding claims_to_session
  session_from (err e, s) = (err e, s)
  session_from (ok c, s) = (claims_to_session c, s)

  -- `verifySessionToken`
  unfoldable pub verify_session_token : String → S → Outcome Failure UserSession × S
  unfolding session_from verify_cognito_jwt is_local_auth_disabled
  verify_session_token token s =
      if is_local_auth_disabled issuer.vars
      then (ok mock_user_session, s)
      else session_from (verify_cognito_jwt token s)
