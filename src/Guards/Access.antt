-- ===== src/Guards/Access.antt =====
-- Who gets past the guards of a controller: authentication, `RolesGuard` and `FeatureGuard` together.
use mathlib.Core.Path.{subst}
use skolara.Prelude.{
  ℕ, ◌≡◌, ◌⊎◌, refl, Bool, true, false, List, [], ◌∷◌, Option, none, some, In, arith, ◌==◌,
  Option-cases, Bool-cases, inl, inr,
}
use skolara.Prelude.Action.{ok, Result-cases}
use skolara.Store.{Prisma, found_row}
use skolara.Auth.{Role, Security, Config, Token, JwtPayload, super_admin, school_admin}
use skolara.RoleTemplates.{same_role}
use skolara.Guards.Requests.{Request, AuthenticatedUser, account, api_key, is_get}
use skolara.Guards.Plans.{Feature, plan_includes}
use skolara.Guards.{
  State, School, ApiKey, Guard, Route, jwt_auth, jwt_or_api_key, roles, feature, run_guard,
  run_guards, dispatch, permission_guard, jwt_auth_guard, jwt_or_api_key_guard, feature_guard,
  has_role, key_for, validate,
}

-- The user is the one that a verified access token names.
abbrev pub HasToken : Security → Config → Request → ℕ → AuthenticatedUser → Type 0
HasToken sec config request now user =
    (token : Token) × (payload : JwtPayload) × (request.authorization ≡ some token)
    × (sec.verify config.jwt_access_secret now token ≡ some payload)
    × (user
        ≡ record { id = account payload.sub; role = payload.role; school_id = payload.school_id })

-- The user stands for an API key, which reads only, and for the school of the key alone.
abbrev pub HasKey : Security → Request → State → AuthenticatedUser → Type 0
HasKey sec request s user =
    (presented : Token) × (k : ApiKey) × (request.x_api_key ≡ some presented)
    × In k s.api_keys
    × (k.hashed_key ≡ sec.hash_token presented)
    × (k.revoked_at ≡ none)
    × (is_get request.method ≡ true)
    × (user ≡ record { id = api_key k.id; role = school_admin; school_id = some k.school_id })

-- The plan of the user's school includes the feature, or the user is the platform's owner.
abbrev pub HasFeature : Feature → State → AuthenticatedUser → Type 0
HasFeature f s user =
    (same_role user.role super_admin ≡ true)
    ⊎ ((school : School) × In school s.schools
        × (user.school_id ≡ some school.id)
        × (plan_includes school.plan f ≡ true))

module _ (db : Prisma) (sec : Security) (config : Config) where
  jwt_auth-HasToken :
      (route : Route) (request : Request) (now : ℕ) (user : Option AuthenticatedUser) (s : State)
      (found : Option AuthenticatedUser)
      → route.is_public ≡ false
      → (jwt_auth_guard db sec config route request now user s).0 ≡ ok found
      → (p : AuthenticatedUser) × (found ≡ some p) × HasToken sec config request now p
  unfolding jwt_auth_guard
  jwt_auth-HasToken route request now user s found n e = elim (Option-cases request.authorization) [
    | inl f ↦ ground (arith, e, f, n)
    | inr (token, f) ↦ elim (Option-cases (sec.verify config.jwt_access_secret now token)) [
      | inl g ↦ ground (arith, e, f, g, n)
      | inr (payload, g) ↦
          (validate db sec config payload, ground (arith, e, f, g, n), (token, payload, f, g, refl))
    ]
  ]

  key-HasKey :
      (route : Route) (request : Request) (now : ℕ) (user : Option AuthenticatedUser) (s : State)
      (found : Option AuthenticatedUser) (presented : Token)
      → request.x_api_key ≡ some presented
      → (jwt_or_api_key_guard db sec config route request now user s).0 ≡ ok found
      → (p : AuthenticatedUser) × (found ≡ some p) × HasKey sec request s p
  unfolding jwt_or_api_key_guard
  key-HasKey route request now user s found presented x e =
      elim (Option-cases (db.find_first (key_for (sec.hash_token presented)) s.api_keys)) [
        | inl f ↦ ground (arith, e, f, x)
        | inr (k, f) ↦
            let (i, q) = found_row db (key_for (sec.hash_token presented)) s.api_keys f in
            (
              record { id = api_key k.id; role = school_admin; school_id = some k.school_id },
              ground (arith, e, f, x),
              (
                presented,
                k,
                x,
                i,
                ground (arith, q),
                elim (Option-cases k.revoked_at) [ inl r ↦ r | inr (t, r) ↦ ground (arith, q, r) ],
                ground (arith, e, f, x),
                refl,
              ),
            )
      ]

  feature_guard-HasFeature :
      (route : Route) (user : AuthenticatedUser) (f : Feature) (s : State)
      → route.feature ≡ some f
      → (feature_guard db route (some user) s).0 ≡ ok true
      → HasFeature f s user
  unfolding feature_guard
  feature_guard-HasFeature route user f s e a =
      elim (Bool-cases (same_role user.role super_admin)) [
        | inl t ↦ inl t
        | inr t ↦ elim (Option-cases user.school_id) [
          | inl n ↦ ground (arith, e, a, t, n)
          | inr (id, n) ↦ elim (Option-cases (db.find_first (λ s. s.id == id) s.schools)) [
            | inl g ↦ ground (arith, e, a, t, n, g)
            | inr (school, g) ↦
                let (i, q) = found_row db (λ s. s.id == id) s.schools g in
                inr (school, i, ground (arith, n, q), ground (arith, e, a, t, n, g))
          ]
        ]
      ]

  keys-same_schools :
      (route : Route) (request : Request) (now : ℕ) (user : Option AuthenticatedUser) (s : State)
      → (jwt_or_api_key_guard db sec config route request now user s).1.schools ≡ s.schools
  unfolding jwt_or_api_key_guard jwt_auth_guard
  keys-same_schools route request now user s = ground arith

-- A handler of a controller that has all three guards, one of the two that authenticate first.
abbrev pub gated : Guard → List Role → Option Feature → Route
gated auth rs f = record {
  guards = auth ∷ roles ∷ feature ∷ [];
  roles = rs;
  feature = f;
  is_public = false;
}

-- The plan allows the feature that is asked for, if any.
abbrev pub HasPlan : Option Feature → State → AuthenticatedUser → Type 0
HasPlan none s user = Unit {0}
HasPlan (some f) s user = HasFeature f s user

abbrev pub is_authenticator : Guard → Bool
is_authenticator jwt_auth = true
is_authenticator jwt_or_api_key = true
is_authenticator _ = false

module _ (db : Prisma) (sec : Security) (config : Config) where
  authenticates :
      (auth : Guard) (route : Route) (request : Request) (now : ℕ) (s : State)
      (found : Option AuthenticatedUser)
      → is_authenticator auth ≡ true
      → route.is_public ≡ false
      → (run_guard db sec config auth route request now none s).0 ≡ ok found
      → (p : AuthenticatedUser) × (found ≡ some p)
        × (HasToken sec config request now p ⊎ HasKey sec request s p)
  unfolding run_guard
  authenticates jwt_auth route request now s found a n e =
      let (p, f, h) = jwt_auth-HasToken db sec config route request now none s found n e in
      (p, f, inl h)
  authenticates jwt_or_api_key route request now s found a n e =
      elim (Option-cases request.x_api_key) [
        | inl x ↦
            let (p, f, h) =
              jwt_auth-HasToken db sec config route request now none s found n
                (ground (arith, e, x)) in
            (p, f, inl h)
        | inr (presented, x) ↦
            let (p, f, h) = key-HasKey db sec config route request now none s found presented x e in
            (p, f, inr h)
      ]
  authenticates roles route request now s found a n e = cc
  authenticates feature route request now s found a n e = cc

  same_schools :
      (auth : Guard) (route : Route) (request : Request) (now : ℕ) (s : State)
      → is_authenticator auth ≡ true
      → (run_guard db sec config auth route request now none s).1.schools ≡ s.schools
  unfolding run_guard
  same_schools jwt_auth route request now s a = ground arith
  same_schools jwt_or_api_key route request now s a =
      keys-same_schools db sec config route request now none s
  same_schools roles route request now s a = cc
  same_schools feature route request now s a = cc

  passes :
      (route : Route) (request : Request) (now : ℕ) (p : AuthenticatedUser) (s : State)
      (found : Option AuthenticatedUser)
      → (run_guards db sec config (roles ∷ feature ∷ []) route request now (some p) s).0 ≡ ok found
      → (found ≡ some p)
        × (has_role route.roles (some p) ≡ true)
        × ((feature_guard db route (some p) s).0 ≡ ok true)
  unfolding run_guards run_guard
  passes route request now p s found e = elim (Bool-cases (has_role route.roles (some p))) [
    | inr r ↦ ground (arith, e, r)
    | inl r ↦ elim (Result-cases (feature_guard db route (some p) s).0) [
      | inr (x, g) ↦ ground (arith, e, r, g)
      | inl (true, g) ↦ (ground (arith, e, r, g), r, g)
      | inl (false, g) ↦ ground (arith, e, r, g)
    ]
  ]

  has_plan :
      (f : Option Feature) (auth : Guard) (rs : List Role) (p : AuthenticatedUser) (s t : State)
      → t.schools ≡ s.schools
      → (feature_guard db (gated auth rs f) (some p) t).0 ≡ ok true
      → HasPlan f s p
  has_plan none auth rs p s t h e = tt
  has_plan (some f) auth rs p s t h e =
      elim (feature_guard-HasFeature db sec config (gated auth rs (some f)) p f t refl e) [
        | inl o ↦ inl o
        | inr (school, i, own, plan) ↦ inr (school, subst (λ rows. In school rows) h i, own, plan)
      ]

  -- Where a handler has one of the two guards that authenticate, then the guards of roles and
  -- features, and is not public, a request that gets past them has a user: the one that its
  -- access token names, verified at that time, or the one that stands for an API key, which is
  -- stored, not revoked and presented with a GET, as an administrator of the key's school alone;
  -- the user has one of the roles required, if any are; and where a feature is required, the plan
  -- of the user's school includes it, unless the user is the platform's owner.
  pub dispatch-IsAuthorised :
      (auth : Guard) (rs : List Role) (f : Option Feature) (request : Request) (now : ℕ) (s : State)
      (found : Option AuthenticatedUser)
      → is_authenticator auth ≡ true
      → (dispatch db sec config (gated auth rs f) request now s).0 ≡ ok found
      → (p : AuthenticatedUser) × (found ≡ some p)
        × (HasToken sec config request now p ⊎ HasKey sec request s p)
        × (has_role rs (some p) ≡ true)
        × HasPlan f s p
  unfolding dispatch run_guards permission_guard
  dispatch-IsAuthorised auth rs f request now s found a e =
      elim (Result-cases (run_guard db sec config auth (gated auth rs f) request now none s).0) [
        | inr (x, g) ↦ ground (arith, e, g)
        | inl (first, g) ↦
            let (p, same, h) = authenticates auth (gated auth rs f) request now s first a refl g in
            let after = (run_guard db sec config auth (gated auth rs f) request now none s).1 in
            let (kept, role, plan) =
              passes (gated auth rs f) request now p after found (ground (arith, e, g, same)) in
            (
              p,
              kept,
              h,
              role,
              has_plan f auth rs p s after (same_schools auth (gated auth rs f) request now s a)
                  plan,
            )
      ]
