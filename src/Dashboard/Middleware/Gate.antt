-- ===== src/Dashboard/Middleware/Gate.antt =====
-- Which requests go on.
use vguardrail.Base.{
  ◌≡◌, refl, ℕ, String, Bool, true, false, not, ◌||◌, Option, none, some, Bool-cases, inl, inr,
}
use vguardrail.Dashboard.Auth.{filled}
use vguardrail.Dashboard.Middleware.{
  Answer, next, Request, expiring, expires_soon, with_token, middleware, is_public_path,
}

abbrev goes_on : Answer → Bool
goes_on (next token) = true
goes_on _ = false

-- There is a token, and it does not expire soon.
abbrev fresh : (String → Option ℕ) → Option String → ℕ → Bool
fresh jwt_exp none now = false
fresh jwt_exp (some token) now = not (expires_soon (jwt_exp token) now)

expiring_stops : (o : Option String) → goes_on (expiring o) ≡ false
unfolding expiring
expiring_stops none = refl
expiring_stops (some token) = refl

with_token-fresh :
    (disabled : Bool) (jwt_exp : String → Option ℕ) (r : Request) (now : ℕ) (o : Option String)
    → goes_on (with_token disabled jwt_exp r now o) ≡ fresh jwt_exp o now
unfolding with_token
with_token-fresh disabled jwt_exp r now none = refl
with_token-fresh disabled jwt_exp r now (some token) =
    elim (Bool-cases (expires_soon (jwt_exp token) now)) [
      | inl soon ↦ rw soon (expiring_stops (filled r.refresh_token))
      | inr later ↦ rw later refl
    ]

-- A request goes on exactly if authentication is off, its path is public, or it has an access token
-- that does not expire within a minute.
pub middleware_lem :
    (disabled : Bool) (jwt_exp : String → Option ℕ) (r : Request) (now : ℕ)
    → goes_on (middleware disabled jwt_exp r now)
      ≡ (disabled || (is_public_path r.path || fresh jwt_exp (filled r.access_token) now))
unfolding middleware
middleware_lem true jwt_exp r now = refl
middleware_lem false jwt_exp r now = elim (Bool-cases (is_public_path r.path)) [
  | inl public ↦ rw public refl
  | inr private ↦ rw private (with_token-fresh false jwt_exp r now (filled r.access_token))
]
