-- ===== src/Dashboard/Middleware.antt =====
-- dashboard/middleware.ts. Paths are strings as UTF-16 code units; `jwt_exp` is the claim that the
-- text of a token holds, which is JSON in base 64, in seconds.
pub mod Gate
use vguardrail.Base.{
  ℕ, ◌+◌, String, Bool, true, false, not, ◌&&◌, ◌||◌, Option, none, some, List, [], ◌∷◌, ◌++◌, any,
  ltb, if◌then◌else◌,
}
use vguardrail.Base.Text.{str_eq}
use vguardrail.Base.Units.{units, units_eq, starts_with}
use vguardrail.Dashboard.Auth.{filled}

-- `PUBLIC_PATHS`
abbrev pub public_paths : List String
public_paths =
    "/login" ∷ "/api/auth/login" ∷ "/api/auth/refresh" ∷ "/api/auth/logout" ∷ "/_next"
    ∷ "/favicon.ico" ∷ "/public" ∷ []

-- `isPublicPath`
unfoldable pub is_public_path : List ℕ → Bool
is_public_path path =
    any (λ p. units_eq path (units p) || starts_with (units p ++ units "/") path) public_paths

-- What becomes of a request: it goes on, perhaps with the token for the backend, or is redirected to
-- the login or to the refresh of the session.
pub data Answer : Type 0 where
  next : Option String → Answer
  to_login : Bool → Answer  -- whether the cookies are deleted
  to_refresh : Answer

pub record Request : Type 0 where
  pub path : List ℕ
  pub access_token : Option String
  pub refresh_token : Option String

unfoldable pub expiring : Option String → Answer
expiring none = to_login true
expiring (some token) = to_refresh

-- `exp - now < 60`, and no claim is no reason
unfoldable pub expires_soon : Option ℕ → ℕ → Bool
expires_soon none now = false
expires_soon (some e) now = ltb e (now + 60)

module _ (auth_disabled : Bool) (jwt_exp : String → Option ℕ) where
  unfoldable pub with_token : Request → ℕ → Option String → Answer
  unfolding expiring expires_soon
  with_token r now none = to_login false
  with_token r now (some token) =
      if expires_soon (jwt_exp token) now
      then expiring (filled r.refresh_token)
      else next (if starts_with (units "/api/") r.path then some token else none)

  -- `middleware`
  unfoldable pub middleware : Request → ℕ → Answer
  unfolding with_token is_public_path
  middleware r now =
      if auth_disabled
      then next none
      else if is_public_path r.path
      then next none
      else with_token r now (filled r.access_token)
