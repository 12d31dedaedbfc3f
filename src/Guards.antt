-- ===== src/Guards.antt =====
-- The guards before every handler: `apps/api/src/common/guards`, the strategy of
-- `apps/api/src/auth/jwt.strategy.ts`, the global guard of `apps/api/src/app.module.ts`, and
-- `apps/api/src/api-keys/api-keys.service.ts`. Nest runs the global guards before those of a
-- controller, and refuses with "Forbidden resource" where a guard answers false; of the global
-- ones, the throttler sets no user and is left out. A presented key is a random token.
pub mod Plans
pub mod Requests
pub mod Permission
pub mod Access
pub mod Revocation
mod Tests
use skolara.Prelude.{
  ℕ, ◌+◌, ◌-◌, String, Bool, true, false, not, ◌&&◌, ◌||◌, List, [], ◌∷◌, Option, none, some, any,
  ltb, holds, ◌==◌, is_none, or_else, if◌then◌else◌,
}
use skolara.Prelude.Action.{
  Action, ok, err, forbidden, not_found, unauthorized, unique_violation, ◌>>=◌, ◌>>◌, pure, raise,
  raise_if, or_raise,
}
use skolara.Store.{Prisma, Table, find, find_or, insert_or, update, update_many}
use skolara.Auth.{User, Role, super_admin, school_admin, Token, JwtPayload, Security, Config}
use skolara.RoleTemplates.{RoleTemplate, same_role}
use skolara.RoleTemplates.Capabilities.{
  includes, capability, CapabilityAction, read, write, capability_resources,
  always_allowed_resources,
}
use skolara.Guards.Requests.{
  Method, get, PrincipalId, account, api_key, AuthenticatedUser, Request, is_get, action_of, before,
  first_piece, resource_of,
}
use skolara.Guards.Plans.{SubscriptionPlan, Feature, plan_includes}

pub record School : Type 0 where
  pub id : ℕ
  pub plan : SubscriptionPlan

pub record ApiKey : Type 0 where
  pub id : ℕ
  pub school_id : ℕ
  pub hashed_key : ℕ
  pub last_used_at : Option ℕ
  pub revoked_at : Option ℕ

pub record State : Type 0 where
  pub templates : List RoleTemplate
  pub users : List User
  pub schools : List School
  pub api_keys : List ApiKey

pub data Guard : Type 0 where
  jwt_auth jwt_or_api_key roles feature : Guard

-- A handler with its decorators: `@UseGuards`, `@Roles`, `@RequiresFeature` and `@Public`.
pub record Route : Type 0 where
  pub guards : List Guard
  pub roles : List Role
  pub feature : Option Feature
  pub is_public : Bool

abbrev pub users_table : Table State User
users_table = record { get = λ s. s.users; put = λ s rows. record s { users = rows } }

abbrev pub templates_table : Table State RoleTemplate
templates_table = record { get = λ s. s.templates; put = λ s rows. record s { templates = rows } }

abbrev pub schools_table : Table State School
schools_table = record { get = λ s. s.schools; put = λ s rows. record s { schools = rows } }

abbrev pub keys_table : Table State ApiKey
keys_table = record { get = λ s. s.api_keys; put = λ s rows. record s { api_keys = rows } }

abbrev pub is_account : PrincipalId → ℕ → Bool
is_account (account n) m = n == m
is_account (api_key n) m = false

-- `requiredRoles.includes(user?.role)`, or no role required.
abbrev pub has_role : List Role → Option AuthenticatedUser → Bool
has_role [] user = true
has_role (r ∷ rs) none = false
has_role (r ∷ rs) (some user) = any (λ role. same_role role user.role) (r ∷ rs)

-- The test that is written on a template: its role, and the capability of the request.
unfoldable pub judge : RoleTemplate → Role → Request → Action State Bool
judge template role request = do
  raise_if (not (same_role template.base_role role)) (
      forbidden
        "Your access template no longer matches your role — ask an administrator to reassign it")
  elim (resource_of request) [
    | none ↦ pure true
    | some resource ↦ if includes always_allowed_resources resource then pure true else (do
      raise_if (not (includes capability_resources resource))
          (forbidden "That area is only available to administrators without an access template")
      raise_if
          (not (includes template.permissions (capability resource (action_of request.method))))
          (forbidden "Your access template doesn't include this capability")
      pure true)
  ]

abbrev pub key_for : ℕ → ApiKey → Bool
key_for hash k = k.hashed_key == hash && is_none k.revoked_at

-- The primary key, and the unique index on hashedKey.
abbrev pub key_clashes : ApiKey → ApiKey → Bool
key_clashes x y = y.id == x.id || y.hashed_key == x.hashed_key

-- A use that is not recent, in milliseconds.
abbrev pub is_stale : ℕ → ApiKey → Bool
is_stale now k = elim k.last_used_at [ none ↦ true | some used ↦ ltb 60000 (now - used) ]

abbrev pub mark_used : ℕ → ApiKey → ApiKey
mark_used now k = record k { last_used_at = some now }

module _ (db : Prisma) where
  unfoldable pub permission_guard : Request → Option AuthenticatedUser → Action State Bool
  permission_guard request none = pure true
  permission_guard request (some user) =
      if not request.is_http || same_role user.role super_admin then pure true else (do
        found ← find db users_table (λ u. is_account user.id u.id)
        elim found [
          | none ↦ pure true
          | some u ↦ do
            template ← find db templates_table (λ t. holds u.role_template_id t.id)
            elim template [ none ↦ pure true | some t ↦ judge t u.role request ]
        ])

  unfoldable pub feature_guard : Route → Option AuthenticatedUser → Action State Bool
  feature_guard route user = elim route.feature [
    | none ↦ pure true
    | some required ↦ elim user [
      | none ↦ raise (forbidden "No school context")
      | some u ↦ if same_role u.role super_admin then pure true else (do
        school_id ← or_raise u.school_id (forbidden "No school context")
        school ← find_or db schools_table (λ s. s.id == school_id) (forbidden "No school context")
        raise_if (not (plan_includes school.plan required))
            (forbidden "Your plan doesn't include this feature")
        pure true)
    ]
  ]

  module _ (sec : Security) (config : Config) where
    -- `JwtStrategy.validate`, on what passport has verified.
    abbrev pub validate : JwtPayload → AuthenticatedUser
    validate p = record { id = account p.sub; role = p.role; school_id = p.school_id }

    -- The passport guard sets the user, or refuses.
    unfoldable pub jwt_auth_guard :
        Route → Request → ℕ → Option AuthenticatedUser → Action State (Option AuthenticatedUser)
    jwt_auth_guard route request now user =
        if route.is_public then pure user else elim request.authorization [
          | none ↦ raise (unauthorized "Unauthorized")
          | some token ↦ elim (sec.verify config.jwt_access_secret now token) [
            | none ↦ raise (unauthorized "Unauthorized")
            | some payload ↦ pure (some (validate payload))
          ]
        ]

    -- The `update` of the last use is not awaited, and its failure is dropped.
    unfoldable pub jwt_or_api_key_guard :
        Route → Request → ℕ → Option AuthenticatedUser → Action State (Option AuthenticatedUser)
    unfolding jwt_auth_guard
    jwt_or_api_key_guard route request now user = elim request.x_api_key [
      | none ↦ jwt_auth_guard route request now user
      | some presented ↦ do
        raise_if (not (is_get request.method)) (forbidden "API keys are read-only")
        key ←
            find_or db keys_table (key_for (sec.hash_token presented))
              (unauthorized "Invalid API key")
        _ ← update_many db keys_table (λ k. k.id == key.id && is_stale now key) (mark_used now)
        pure (
            some
              (record { id = api_key key.id; role = school_admin; school_id = some key.school_id }))
    ]

    -- One guard of a controller: the user that it leaves on the request.
    unfoldable pub run_guard :
        Guard
        → Route
        → Request
        → ℕ
        → Option AuthenticatedUser
        → Action State (Option AuthenticatedUser)
    unfolding jwt_auth_guard jwt_or_api_key_guard feature_guard
    run_guard jwt_auth route request now user = jwt_auth_guard route request now user
    run_guard jwt_or_api_key route request now user = jwt_or_api_key_guard route request now user
    run_guard roles route request now user = do
      raise_if (not (has_role route.roles user)) (forbidden "Forbidden resource")
      pure user
    run_guard feature route request now user = do
      allowed ← feature_guard route user
      raise_if (not allowed) (forbidden "Forbidden resource")
      pure user

    unfoldable pub run_guards :
        List Guard
        → Route
        → Request
        → ℕ
        → Option AuthenticatedUser
        → Action State (Option AuthenticatedUser)
    unfolding run_guard
    run_guards [] route request now user = pure user
    run_guards (g ∷ guards) route request now user = do
      next ← run_guard g route request now user
      run_guards guards route request now next

    -- The global guard, on a request that has no user yet, and then the controller's.
    unfoldable pub dispatch : Route → Request → ℕ → Action State (Option AuthenticatedUser)
    unfolding permission_guard run_guards
    dispatch route request now = do
      allowed ← permission_guard request none
      raise_if (not allowed) (forbidden "Forbidden resource")
      run_guards route.guards route request now none

  -- `ApiKeysService.create`, with the hash of its random key.
  unfoldable pub create_key : (school_id id hash : ℕ) → Action State ApiKey
  create_key school_id id hash =
      insert_or db keys_table key_clashes
        (record {
          id = id;
          school_id = school_id;
          hashed_key = hash;
          last_used_at = none;
          revoked_at = none;
        })
        unique_violation

  -- `ApiKeysService.revoke`
  unfoldable pub revoke_key : (school_id id now : ℕ) → Action State (Unit {0})
  revoke_key school_id id now = do
    _ ←
        find_or db keys_table (λ k. k.id == id && k.school_id == school_id)
          (not_found "API key not found")
    update db keys_table (λ k. k.id == id) (λ k. record k { revoked_at = some now })
