-- ===== src/Guards/Permission.antt =====
-- Role templates against requests: the place of `PermissionGuard` before the guards that set the
-- user.
use skolara.Prelude.{ℕ, ◌≡◌, refl, ap, List, [], ◌∷◌, Option, none, arith, inl, inr}
use skolara.Prelude.Action.{Action, Result-cases}
use skolara.Store.{Prisma}
use skolara.Auth.{User, Security, Config}
use skolara.RoleTemplates.{RoleTemplate}
use skolara.Guards.Requests.{Request, AuthenticatedUser}
use skolara.Guards.{
  State, Guard, Route, jwt_auth, jwt_or_api_key, roles, feature, run_guard, run_guards, dispatch,
  permission_guard,
}

-- The same database with other templates and accounts.
abbrev reassign : List RoleTemplate → List User → State → State
reassign ts us s = record s { templates = ts; users = us }

module _ (db : Prisma) (sec : Security) (config : Config) (ts : List RoleTemplate)
    (us : List User) where
  -- The step does the same, whatever the templates and the accounts.
  abbrev Ignores : {A : Type 0} → Action State A → State → Type 0
  Ignores m s = m (reassign ts us s) ≡ ((m s).0, reassign ts us (m s).1)

  run_guard-Ignores :
      (g : Guard) (route : Route) (request : Request) (now : ℕ) (user : Option AuthenticatedUser)
      (s : State)
      → Ignores (run_guard db sec config g route request now user) s
  unfolding run_guard
  run_guard-Ignores jwt_auth route request now user s = ground arith
  run_guard-Ignores jwt_or_api_key route request now user s = ground arith
  run_guard-Ignores roles route request now user s = ground arith
  run_guard-Ignores feature route request now user s = ground arith

  run_guards-Ignores :
      (gs : List Guard) (route : Route) (request : Request) (now : ℕ)
      (user : Option AuthenticatedUser) (s : State)
      → Ignores (run_guards db sec config gs route request now user) s
  unfolding run_guards
  run_guards-Ignores [] route request now user s = refl
  run_guards-Ignores (g ∷ gs) route request now user s =
      elim (Result-cases (run_guard db sec config g route request now user s).0) [
        | inl (next, e) ↦ ground (
          arith,
          e,
          run_guard-Ignores g route request now user s,
          run_guards-Ignores gs route request now next
              (run_guard db sec config g route request now user s).1,
        )
        | inr (x, e) ↦ ground (arith, e, run_guard-Ignores g route request now user s)
      ]

  -- What becomes of a request before its handler does not depend on role templates: with other
  -- templates and other accounts in the database, the guards answer or refuse as they do with
  -- these.
  pub dispatch-ignores_templates :
      (route : Route) (request : Request) (now : ℕ) (s : State)
      → (dispatch db sec config route request now (record s { templates = ts; users = us })).0
        ≡ (dispatch db sec config route request now s).0
  unfolding dispatch permission_guard
  dispatch-ignores_templates route request now s =
      ap (λ r. r.0) (run_guards-Ignores route.guards route request now none s)
