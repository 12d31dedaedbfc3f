-- ===== src/Guards/Tests.antt =====
-- Runs of the guards, and the theorems about them at concrete inputs.
use skolara.Prelude.{◌≡◌, ◌⊎◌, refl, some, none, [], ◌∷◌, true, inl}
use skolara.Prelude.Action.{ok, err, Exception, forbidden}
use skolara.Store.{listed}
use skolara.Auth.{User, school_admin, Token, random, signed}
use skolara.Auth.Plain.{plain, config}
use skolara.RoleTemplates.{RoleTemplate, role_index}
use skolara.RoleTemplates.Capabilities.{capability_resources, always_allowed_resources}
use skolara.Guards.Plans.{payroll, premium, plan_includes, feature_index}
use skolara.Guards.Requests.{
  Request, AuthenticatedUser, account, api_key, get, post, resource_of, before, first_piece,
}
use skolara.Guards.{
  State, ApiKey, jwt_auth, jwt_or_api_key, dispatch, permission_guard, run_guards, run_guard, judge,
  jwt_auth_guard, jwt_or_api_key_guard, feature_guard, has_role, revoke_key,
}
use skolara.Guards.Permission.{dispatch-ignores_templates}
use skolara.Guards.Access.{gated, HasToken, HasKey, HasPlan, dispatch-IsAuthorised}
use skolara.Guards.Revocation.{arrival, serve_all, revoke_key-dispatch}

abbrev bursar : User
bursar = record {
  id = 20;
  school_id = some 7;
  role = school_admin;
  email = 1;
  password_hash = "";
  first_name = "Sana";
  last_name = "Ali";
  phone = none;
  is_active = true;
  role_template_id = some 1;
  created_at = 0;
}

abbrev accountant : RoleTemplate
accountant = record {
  id = 1;
  school_id = 7;
  name = "Accountant";
  base_role = school_admin;
  permissions = "invoices:read" ∷ [];
}

abbrev timetable_key : ApiKey
timetable_key = record {
  id = 3;
  school_id = 7;
  hashed_key = 8;
  last_used_at = none;
  revoked_at = none;
}

abbrev school : State
school = record {
  templates = accountant ∷ [];
  users = bursar ∷ [];
  schools = record { id = 7; plan = premium } ∷ [];
  api_keys = timetable_key ∷ [];
}

abbrev bearer : Token
bearer = signed (record { sub = 20; role = school_admin; school_id = some 7 }) 0 900 1

abbrev payslips : Request
payslips = record {
  is_http = true;
  method = post;
  route_path = some "/payroll/payslips";
  path = "/payroll/payslips";
  base_url = "";
  authorization = some bearer;
  x_api_key = none;
}

abbrev sana : AuthenticatedUser
sana = record { id = account 20; role = school_admin; school_id = some 7 }

payslips_resource : resource_of payslips ≡ some "payroll"
unfolding resource_of before first_piece
payslips_resource = refl

-- The guard itself refuses the bursar; a request gets past all of them.
bursar_refused :
    (permission_guard listed payslips (some sana) school).0
    ≡ err (forbidden "Your access template doesn't include this capability")
unfolding permission_guard judge role_index resource_of before first_piece capability_resources
    always_allowed_resources
bursar_refused = refl

bursar_admitted :
    (dispatch listed plain config
      (gated jwt_auth (school_admin ∷ []) (some payroll))
      payslips
      5
      school).0
    ≡ ok (some sana)
unfolding dispatch permission_guard run_guards run_guard jwt_auth_guard feature_guard plan_includes
    feature_index role_index
bursar_admitted = refl

dispatch-ignores_templates_example :
    (dispatch listed plain config
      (gated jwt_auth (school_admin ∷ []) (some payroll))
      payslips
      5
      (record school { templates = []; users = [] })).0
    ≡ (dispatch listed plain config
        (gated jwt_auth (school_admin ∷ []) (some payroll))
        payslips
        5
        school).0
dispatch-ignores_templates_example =
    dispatch-ignores_templates listed plain config [] []
      (gated jwt_auth (school_admin ∷ []) (some payroll)) payslips 5 school

dispatch-IsAuthorised_example :
    (p : AuthenticatedUser) × (some sana ≡ some p)
    × (HasToken plain config payslips 5 p ⊎ HasKey plain payslips school p)
    × (has_role (school_admin ∷ []) (some p) ≡ true)
    × HasPlan (some payroll) school p
dispatch-IsAuthorised_example =
    dispatch-IsAuthorised listed plain config jwt_auth (school_admin ∷ []) (some payroll) payslips 5
      school (some sana) refl bursar_admitted

abbrev reading : Request
reading = record payslips { method = get; authorization = none; x_api_key = some (random 4) }

-- A key reads, as its school's administrator.
key_reads :
    (dispatch listed plain config (gated jwt_or_api_key [] none) reading 5 school).0
    ≡ ok (some (record { id = api_key 3; role = school_admin; school_id = some 7 }))
unfolding dispatch permission_guard run_guards run_guard jwt_or_api_key_guard feature_guard
key_reads = refl

revoked : (revoke_key listed 7 3 6 school).0 ≡ ok tt
unfolding revoke_key
revoked = refl

revoke_key-dispatch_example :
    (x : Exception) × ((dispatch listed plain config (gated jwt_or_api_key [] none) reading 9 (
        serve_all listed plain config
          (arrival (gated jwt_or_api_key [] none) reading 8 ∷ [])
          (revoke_key listed 7 3 6 school).1)).0
      ≡ err x)
revoke_key-dispatch_example =
    revoke_key-dispatch listed plain config 7 6 9 timetable_key (random 4)
      (arrival (gated jwt_or_api_key [] none) reading 8 ∷ []) [] none reading school refl (inl refl)
      refl revoked refl
