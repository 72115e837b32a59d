-- ===== src/Dashboard/Scope/Tenant.antt =====
-- What a caller lists is of its own organization.
mod Tests
use vguardrail.Base.{
  ◌≡◌, refl, ap, ◌∙◌, arith, String, Bool, true, false, not, Option, none, some, List, [], ◌∷◌,
  keep, if◌then◌else◌, Bool-cases, inl, inr,
}
use vguardrail.Base.Text.{str_eq, eq_iff, eq_refl}
use vguardrail.Json.{Json, str}
use vguardrail.Dashboard.Auth.{UserSession}
use vguardrail.Dashboard.Scope.{
  Filters, without, strip_org_id, put, with_org_filter, Listing, Registry, scoped_list,
  create_scoped_repositories,
}

-- The value of a key.
pub value : String → Filters → Option Json
value key [] = none
value key ((k, x) ∷ rest) = let further = value key rest in if str_eq k key then some x else further

abbrev pub given : String → Option Filters → Option Json
given key none = none
given key (some filters) = value key filters

-- The key of the organization has this value, and the other keys have theirs.
abbrev pub Confined : String → Option Filters → Filters → Type 0
Confined org filters sent =
    (value "org_id" sent ≡ some (str org))
    × ((key : String) → str_eq "org_id" key ≡ false → value key sent ≡ given key filters)

value-put : (v : Json) (filters : Filters) → value "org_id" (put "org_id" v filters) ≡ some v
unfolding value put
value-put v [] = refl
value-put v ((k, x) ∷ rest) = elim (Bool-cases (str_eq k "org_id")) [
  | inl same ↦ rw same (rw same refl)
  | inr differs ↦ rw differs (rw differs (value-put v rest))
]

other_key :
    (k key : String) → str_eq k "org_id" ≡ true → str_eq "org_id" key ≡ false → str_eq k key ≡ false
other_key k key same h = ap (λ m. str_eq m key) ((eq_iff k "org_id").0 same) ∙ h

value-put_other :
    (v : Json) (filters : Filters) (key : String)
    → str_eq "org_id" key ≡ false
    → value key (put "org_id" v filters) ≡ value key filters
unfolding value put
value-put_other v [] key h = rw h refl
value-put_other v ((k, x) ∷ rest) key h = elim (Bool-cases (str_eq k "org_id")) [
  | inl same ↦ rw same (rw (other_key k key same h) refl)
  | inr differs ↦ rw differs (elim (Bool-cases (str_eq k key)) [
    | inl found ↦ rw found refl
    | inr further ↦ rw further (value-put_other v rest key h)
  ])
]

value-without :
    (filters : Filters) (key : String)
    → str_eq "org_id" key ≡ false
    → value key (without "org_id" filters) ≡ value key filters
unfolding value without
value-without [] key h = refl
value-without ((k, x) ∷ rest) key h = elim (Bool-cases (str_eq k "org_id")) [
  | inl same ↦ rw same (rw (other_key k key same h) (value-without rest key h))
  | inr differs ↦ rw differs (elim (Bool-cases (str_eq k key)) [
    | inl found ↦ rw found refl
    | inr further ↦ rw further (value-without rest key h)
  ])
]

with_org_filter-Confined :
    (filters : Option Filters) (org : String)
    → Confined org filters (with_org_filter (strip_org_id filters) org)
unfolding with_org_filter strip_org_id value
with_org_filter-Confined none org =
    (value-put (str org) [], λ key h. value-put_other (str org) [] key h)
with_org_filter-Confined (some filters) org =
    let others = without "org_id" filters in
    (
      value-put (str org) others,
      λ key h. value-put_other (str org) others key h ∙ value-without filters key h,
    )

module _ {Q S R : Type 0} where
  -- A call is passed on, with filters for this organization.
  pub Scoped : String → Listing Q S R → Listing Q S R → Type 0
  Scoped org list base =
      (query : Q) (filters : Option Filters) (s : S)
      → (sent : Filters) × (list query filters s ≡ base query (some sent) s)
        × Confined org filters sent

  scoped_list-Scoped :
      (base : Listing Q S R) (org : String) → Scoped org (scoped_list base org) base
  unfolding Scoped scoped_list
  scoped_list-Scoped base org query filters s =
      (with_org_filter (strip_org_id filters) org, refl, with_org_filter-Confined filters org)

  -- Whatever filters a caller gives, the lists of devices, policies, violations, exceptions and audit
  -- events are asked for with the organization of its session, and with its other filters as they
  -- are; and a change of settings names that organization too.
  pub create_scoped_repositories-Scoped :
      (base : Registry Q S R) (session : UserSession)
      → let scoped = create_scoped_repositories base session in
        Scoped session.org_id scoped.list_devices base.list_devices
        × Scoped session.org_id scoped.list_policies base.list_policies
        × Scoped session.org_id scoped.list_violations base.list_violations
        × Scoped session.org_id scoped.list_exceptions base.list_exceptions
        × Scoped session.org_id scoped.list_audit base.list_audit
        × ((patch : Filters) (s : S)
            → (sent : Filters) × (scoped.update_org patch s ≡ base.update_org sent s)
              × (value "org_id" sent ≡ some (str session.org_id)))
  unfolding create_scoped_repositories
  create_scoped_repositories-Scoped base session = (
    scoped_list-Scoped base.list_devices session.org_id,
    scoped_list-Scoped base.list_policies session.org_id,
    scoped_list-Scoped base.list_violations session.org_id,
    scoped_list-Scoped base.list_exceptions session.org_id,
    scoped_list-Scoped base.list_audit session.org_id,
    λ patch s.
        (put "org_id" (str session.org_id) patch, refl, value-put (str session.org_id) patch),
  )
