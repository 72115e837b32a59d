-- ===== src/Dashboard/Session/Guards.antt =====
-- Nothing runs for a caller whose session was not verified, or whose role does not permit it.
use vguardrail.Base.{
  ◌≡◌, refl, subst, ◌∙◌, ap, String, Bool, true, false, Option, none, some, List, Outcome, ok, err,
}
use vguardrail.Dashboard.Routes.{authorize_route}
use vguardrail.Dashboard.Auth.{
  UserSession, Failure, api_error, auth_error, plain_error, is_local_auth_disabled,
  verify_session_token, filled,
}
use vguardrail.Dashboard.Session.{
  Cookies, StoredAuthSession, Tokens, Cognito, State, stored_with, stored_from, get_stored_session,
  renewed_with, renewed, refresh_from, refresh_stored_session, or_refresh, get_or_refresh,
  allow_mock_auth, required, extract_request_context, handled, api_error_from_unknown, answered,
  run_handler, authorized, in_context, with_bff, plain_failure,
}

module _ {S : Type 0} (cognito : Cognito S) where
  -- The token was verified, and the session is what it says.
  abbrev pub IsVerified : StoredAuthSession → Type 0
  IsVerified stored =
      (w : S) × (w' : S) × (verify_session_token cognito.issuer stored.id_token w
        ≡ (ok stored.session, w'))

  abbrev Holds : Option StoredAuthSession → Type 0
  Holds none = Unit
  Holds (some stored) = IsVerified stored

  stored_with-Holds :
      (access id : String) (refresh : Option String) (c : Cookies) (w : S)
      (r : Outcome Failure UserSession × S)
      → verify_session_token cognito.issuer id w ≡ r
      → Holds (stored_with cognito access id refresh c r).0
  unfolding stored_with
  stored_with-Holds access id refresh c w (err e, w') h = tt
  stored_with-Holds access id refresh c w (ok session, w') h = (w, w', h)

  stored_from-Holds :
      (access id : Option String) (s : State S) → Holds (stored_from cognito access id s).0
  unfolding stored_from
  stored_from-Holds none id s = tt
  stored_from-Holds (some access) none s = tt
  stored_from-Holds (some access) (some id) s =
      stored_with-Holds access id s.cookies.refresh_token s.cookies s.world _ refl

  renewed_with-Holds :
      (old : String) (tokens : Tokens) (c : Cookies) (w : S) (r : Outcome Failure UserSession × S)
      → verify_session_token cognito.issuer tokens.id_token w ≡ r
      → Holds (renewed_with cognito old tokens c r).0
  unfolding renewed_with
  renewed_with-Holds old tokens c w (err e, w') h = tt
  renewed_with-Holds old tokens c w (ok session, w') h = (w, w', h)

  renewed-Holds :
      (old : String) (c : Cookies) (r : Outcome (Unit {0}) Tokens × S)
      → Holds (renewed cognito old c r).0
  unfolding renewed
  renewed-Holds old c (err e, w) = tt
  renewed-Holds old c (ok tokens, w) = renewed_with-Holds old tokens c w _ refl

  refresh_from-Holds : (o : Option String) (s : State S) → Holds (refresh_from cognito o s).0
  unfolding refresh_from
  refresh_from-Holds none s = tt
  refresh_from-Holds (some token) s =
      renewed-Holds token s.cookies (cognito.refresh_tokens token s.world)

  or_refresh-Holds :
      (r : Option StoredAuthSession × State S)
      → is_local_auth_disabled cognito.issuer.vars ≡ false
      → Holds r.0
      → Holds (or_refresh cognito r).0
  unfolding or_refresh refresh_stored_session
  or_refresh-Holds (some stored, s) on h = h
  or_refresh-Holds (none, s) on h = rw on (refresh_from-Holds (filled s.cookies.refresh_token) s)

  get_or_refresh-Holds :
      (s : State S)
      → is_local_auth_disabled cognito.issuer.vars ≡ false
      → Holds (get_or_refresh cognito s).0
  unfolding get_or_refresh get_stored_session
  get_or_refresh-Holds s on = rw on (
      or_refresh-Holds
        (stored_from cognito (filled s.cookies.access_token) (filled s.cookies.id_token) s) on
        (stored_from-Holds (filled s.cookies.access_token) (filled s.cookies.id_token) s))

  -- A session that a verified token says.
  abbrev pub Proved : UserSession → Type 0
  Proved session =
      (token : String) × (w : S) × (w' : S) × (verify_session_token cognito.issuer token w
        ≡ (ok session, w'))

  required-Proved :
      (r : Option StoredAuthSession × State S) (session : UserSession) (s : State S)
      → Holds r.0
      → required cognito r ≡ (ok session, s)
      → Proved session
  unfolding required
  required-Proved (none, t) session s h e = absurd (cc)
  required-Proved (some stored, t) session s h e =
      let same : stored.session ≡ session = cc in
      let (w, w', v) = h in subst (λ x. Proved x) same (stored.id_token, w, w', v)

  module _ {R : Type 0}
      (handler : UserSession → Option String → State S → Outcome Failure R × State S) where
    plain_not_handled : (b : Bool) (r : R) → plain_failure b ≡ handled r → ⊥
    unfolding plain_failure
    plain_not_handled true r h = absurd (cc)
    plain_not_handled false r h = absurd (cc)

    failure_not_handled : (e : Failure) (r : R) → api_error_from_unknown e ≡ handled r → ⊥
    unfolding api_error_from_unknown
    failure_not_handled (api_error n c) r h = absurd (cc)
    failure_not_handled (auth_error c) r h = absurd (cc)
    failure_not_handled (plain_error m) r h = plain_not_handled _ r h

    -- The handler ran for this session, and returned this.
    abbrev pub Ran : UserSession → R → Type 0
    Ran session r =
        (token : Option String) × (t : State S) × (t' : State S) × (handler session token t
          ≡ (ok r, t'))

    answered-Ran :
        (session : UserSession) (token : Option String) (t : State S)
        (o : Outcome Failure R × State S) (r : R)
        → handler session token t ≡ o
        → (answered cognito handler o).0 ≡ handled r
        → Ran session r
    unfolding answered
    answered-Ran session token t (err e, t') r h g = absurd (failure_not_handled e r g)
    answered-Ran session token t (ok q, t') r h g =
        let same : q ≡ r = cc in (token, t, t', h ∙ ap (λ x. (ok x, t')) same)

    run_handler-Ran :
        (session : UserSession) (s : State S) (r : R)
        → is_local_auth_disabled cognito.issuer.vars ≡ false
        → (run_handler cognito handler session s).0 ≡ handled r
        → Ran session r
    unfolding run_handler
    run_handler-Ran session s r on = rw on (λ g. answered-Ran session _ _ _ r refl g)

    -- What must be so for a route to have answered with its handler's result.
    abbrev pub Guarded : String → List String → R → Type 0
    Guarded method parts r =
        (session : UserSession) × Proved session
        × (authorize_route session.role method parts ≡ ok tt)
        × Ran session r

    authorized-Guarded :
        (method : String) (parts : List String) (session : UserSession)
        (o : Outcome String (Unit {0})) (s : State S) (r : R)
        → is_local_auth_disabled cognito.issuer.vars ≡ false
        → authorize_route session.role method parts ≡ o
        → Proved session
        → (authorized cognito handler session o s).0 ≡ handled r
        → Guarded method parts r
    unfolding authorized
    authorized-Guarded method parts session (err m) s r on h proved g = absurd (cc)
    authorized-Guarded method parts session (ok tt) s r on h proved g =
        (session, proved, h, run_handler-Ran session s r on g)

    in_context-Guarded :
        (method : String) (parts : List String) (o : Outcome Failure UserSession × State S) (r : R)
        → is_local_auth_disabled cognito.issuer.vars ≡ false
        → ((session : UserSession) (s : State S) → o ≡ (ok session, s) → Proved session)
        → (in_context cognito handler method parts o).0 ≡ handled r
        → Guarded method parts r
    unfolding in_context
    in_context-Guarded method parts (err e, s) r on proved g = absurd (failure_not_handled e r g)
    in_context-Guarded method parts (ok session, s) r on proved g =
        authorized-Guarded method parts session _ s r on refl (proved session s refl) g

    -- With authentication on and without mock sessions, a route answers with what its handler
    -- returned only if a token was verified, the handler ran for the session that the token says, and
    -- the role of that session is authorized for the method and the path.
    pub with_bff-Guarded :
        (method : String) (parts : List String) (s : State S) (r : R)
        → is_local_auth_disabled cognito.issuer.vars ≡ false
        → allow_mock_auth cognito ≡ false
        → (with_bff cognito handler method parts s).0 ≡ handled r
        → Guarded method parts r
    unfolding with_bff extract_request_context
    with_bff-Guarded method parts s r on no_mock = rw no_mock (
        in_context-Guarded method parts (required cognito (get_or_refresh cognito s)) r on
          (λ session t e.
            required-Proved (get_or_refresh cognito s) session t (get_or_refresh-Holds s on) e))
