-- ===== src/Dashboard/Routes/Rights.antt =====
-- What the roles may do on the routes.
use vguardrail.Base.{
  ◌≡◌, refl, sym, subst, ◌∙◌, ap, String, Bool, true, false, not, ◌&&◌, ◌||◌, Option, none, some,
  List, [], ◌∷◌, Outcome, ok, err, if◌then◌else◌, Bool-cases, inl, inr, All, arith,
}
use vguardrail.Base.Text.{str_eq, eq_iff}
use vguardrail.Dashboard.Roles.{
  DashboardRole, super_admin, org_admin, auditor, viewer, same_role, is_at_least, get_role_level,
}
use vguardrail.Dashboard.Roles.Levels.{rights-Rises, super-Rises}
use vguardrail.Dashboard.Routes.{
  Permission, read, write, audit, settings, users, RoutePermission, test, same_method, find_route,
  route_permissions, route_permission_for, is_read, is_read_or_audit, lacks_action, authorize_entry,
  authorize_with, authorize_route,
}

-- The routes that a role may use, by what their entries ask for.
abbrev pub may_use : DashboardRole → Permission → Bool
may_use super_admin p = true
may_use org_admin p = true
may_use auditor p = is_read_or_audit p
may_use viewer p = is_read p

abbrev pub admits : Option RoutePermission → DashboardRole → Bool
admits none role = true
admits (some entry) role =
    same_role role super_admin
    || (not (lacks_action entry.action role) && may_use role entry.permission)

-- A request passes, as the table of routes says, in one way only.
abbrev pub passes : Outcome String (Unit {0}) → Bool
passes (ok u) = true
passes (err m) = false

authorize_with-admits :
    (o : Option RoutePermission) (role : DashboardRole)
    → passes (authorize_with o role) ≡ admits o role
unfolding authorize_with authorize_entry same_role
authorize_with-admits none role = refl
authorize_with-admits (some entry) super_admin = refl
authorize_with-admits (some entry) org_admin =
    elim (Bool-cases (lacks_action entry.action org_admin)) [
      | inl lacks ↦ rw lacks refl
      | inr has ↦ rw has refl
    ]
authorize_with-admits (some entry) auditor = elim (Bool-cases (lacks_action entry.action auditor)) [
  | inl lacks ↦ rw lacks refl
  | inr has ↦ rw has (elim (Bool-cases (is_read_or_audit entry.permission)) [
    | inl may ↦ rw may refl
    | inr may_not ↦ rw may_not refl
  ])
]
authorize_with-admits (some entry) viewer = elim (Bool-cases (lacks_action entry.action viewer)) [
  | inl lacks ↦ rw lacks refl
  | inr has ↦ rw has (elim (Bool-cases (is_read entry.permission)) [
    | inl may ↦ rw may refl
    | inr may_not ↦ rw may_not refl
  ])
]

may_use-Rises :
    (p : Permission) (high low : DashboardRole)
    → is_at_least high low ≡ true
    → may_use low p ≡ true
    → may_use high p ≡ true
unfolding is_at_least get_role_level
may_use-Rises p super_admin low h g = refl
may_use-Rises p org_admin low h g = refl
may_use-Rises p auditor super_admin h g = absurd (ground arith)
may_use-Rises p auditor org_admin h g = absurd (ground arith)
may_use-Rises p auditor auditor h g = g
may_use-Rises read auditor viewer h g = refl
may_use-Rises write auditor viewer h g = absurd (ground arith)
may_use-Rises audit auditor viewer h g = refl
may_use-Rises settings auditor viewer h g = absurd (ground arith)
may_use-Rises users auditor viewer h g = absurd (ground arith)
may_use-Rises p viewer super_admin h g = absurd (ground arith)
may_use-Rises p viewer org_admin h g = absurd (ground arith)
may_use-Rises p viewer auditor h g = absurd (ground arith)
may_use-Rises p viewer viewer h g = g

has_action :
    (a : Option String) (high low : DashboardRole)
    → is_at_least high low ≡ true
    → lacks_action a low ≡ false
    → lacks_action a high ≡ false
unfolding lacks_action
has_action none high low h g = refl
has_action (some action) high low h g =
    let given = (rights-Rises high low h).1 action (ground arith) in ground arith

admits-Rises :
    (o : Option RoutePermission) (high low : DashboardRole)
    → is_at_least high low ≡ true
    → admits o low ≡ true
    → admits o high ≡ true
admits-Rises none high low h g = refl
admits-Rises (some entry) high low h g = elim (Bool-cases (same_role low super_admin)) [
  | inl top ↦ rw (super-Rises high low h top) refl
  | inr below ↦
      let has : lacks_action entry.action low ≡ false = ground arith in
      let may : may_use low entry.permission ≡ true = ground arith in
      let has' = has_action entry.action high low h has in
      let may' = may_use-Rises entry.permission high low h may in ground arith
]

-- A request passes, on the routes of the table, for a super admin, and for other roles that may
-- perform its action and may use such a route.
pub authorize_route_lem :
    (role : DashboardRole) (method : String) (parts : List String)
    → passes (authorize_route role method parts) ≡ admits (route_permission_for method parts) role
unfolding authorize_route
authorize_route_lem role method parts =
    authorize_with-admits (route_permission_for method parts) role

-- A request that passes for a role passes for every role that is at least that one.
pub authorize_route-Rises :
    (high low : DashboardRole) (method : String) (parts : List String)
    → is_at_least high low ≡ true
    → passes (authorize_route low method parts) ≡ true
    → passes (authorize_route high method parts) ≡ true
authorize_route-Rises high low method parts h g =
    authorize_route_lem high method parts
    ∙ admits-Rises (route_permission_for method parts) high low h
        (sym (authorize_route_lem low method parts) ∙ g)

find-All :
    (P : RoutePermission → Type 0) (method : String) (parts : List String)
    (entries : List RoutePermission) (entry : RoutePermission)
    → All P entries
    → find_route method parts entries ≡ some entry
    → P entry × (same_method entry.method method ≡ true)
unfolding find_route
find-All P method parts [] entry h e = absurd (cc)
find-All P method parts (x ∷ xs) entry (px, h) e =
    elim (Bool-cases (same_method x.method method && test x.path parts)) [
      | inl here ↦
          let found : some x ≡ some entry =
            subst (λ b. (if b then some x else find_route method parts xs) ≡ some entry) here e in
          let same : x ≡ entry = cc in
          let called : same_method x.method method ≡ true = ground arith in
          subst (λ y. P y × (same_method y.method method ≡ true)) same (px, called)
      | inr further ↦
          find-All P method parts xs entry h
            (subst (λ b. (if b then some x else find_route method parts xs) ≡ some entry) further e)
    ]

-- An entry with a method other than GET asks for more than reading.
abbrev Changes : RoutePermission → Type 0
Changes entry = (str_eq entry.method "GET" || not (is_read_or_audit entry.permission)) ≡ true

table-Changes : All Changes route_permissions
table-Changes = (
  refl,
  (
    refl,
    (
      refl,
      (
        refl,
        (
          refl,
          (
            refl,
            (refl, (refl, (refl, (refl, (refl, (refl, (refl, (refl, (refl, (refl, tt)))))))))),
          ),
        ),
      ),
    ),
  ),
)

may_only_read : (p : Permission) → not (is_read_or_audit p) ≡ true → is_read p ≡ false
may_only_read read h = absurd (cc)
may_only_read write h = refl
may_only_read audit h = refl
may_only_read settings h = refl
may_only_read users h = refl

refused_auditor :
    (entry : RoutePermission)
    → not (is_read_or_audit entry.permission) ≡ true
    → admits (some entry) auditor ≡ false
unfolding same_role
refused_auditor entry h = ground arith

refused_viewer :
    (entry : RoutePermission)
    → not (is_read_or_audit entry.permission) ≡ true
    → admits (some entry) viewer ≡ false
unfolding same_role
refused_viewer entry h = let reads = may_only_read entry.permission h in ground arith

get_differs :
    (entry_method method : String)
    → same_method entry_method method ≡ true
    → same_method "GET" method ≡ false
    → str_eq entry_method "GET" ≡ false
get_differs entry_method method called changing = elim (Bool-cases (str_eq entry_method "GET")) [
  | inl get ↦
      absurd (cc (ap (λ (m : String). same_method m method) ((eq_iff entry_method "GET").0 get)))
  | inr other ↦ other
]

-- Neither a viewer nor an auditor passes on a route of the table that does not read: one that is
-- called with a method that in upper case is not GET.
pub authorize_route_reads :
    (method : String) (parts : List String) (entry : RoutePermission)
    → route_permission_for method parts ≡ some entry
    → same_method "GET" method ≡ false
    → (passes (authorize_route viewer method parts) ≡ false)
      × (passes (authorize_route auditor method parts) ≡ false)
unfolding route_permission_for
authorize_route_reads method parts entry found changing =
    let (changes, called) =
      find-All Changes method parts route_permissions entry table-Changes found in
    let not_get : str_eq entry.method "GET" ≡ false =
      get_differs entry.method method called changing in
    let changes' : not (is_read_or_audit entry.permission) ≡ true =
      subst (λ b. (b || not (is_read_or_audit entry.permission)) ≡ true) not_get changes in
    (
      authorize_route_lem viewer method parts
          ∙ ap (λ o. admits o viewer) found
          ∙ refused_viewer entry changes',
      authorize_route_lem auditor method parts
          ∙ ap (λ o. admits o auditor) found
          ∙ refused_auditor entry changes',
    )
