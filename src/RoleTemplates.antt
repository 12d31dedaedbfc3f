-- ===== src/RoleTemplates.antt =====
-- Role templates: `apps/api/src/role-templates/role-templates.service.ts` and the types of
-- `packages/types/src/role-templates.ts`. An account is the row of the authentication service.
-- The catalogue, `list` and `findOne` only read. Capabilities are ASCII texts, of which
-- JavaScript's order is the native one.
pub mod Holders
pub mod Fitting
pub mod Capabilities
mod Tests
use skolara.Prelude.{
  ℕ, ◌+◌, String, Bool, true, false, not, ◌&&◌, ◌||◌, List, Option, none, some, holds, ◌==◌,
  is_none,
}
use skolara.Prelude.Action.{
  Action, ok, bad_request, conflict, forbidden, not_found, ◌>>=◌, ◌>>◌, pure, raise_if, only_if,
}
use skolara.Store.{
  Prisma, Table, find_or, count, insert_or, update, update_or, delete_many, update_many, no_clash,
}
use skolara.Auth.{User, Role, super_admin, school_admin, teacher, parent, student}
use skolara.RoleTemplates.Capabilities.{str_eq, stored_permissions}

pub record RoleTemplate : Type 0 where
  pub id : ℕ
  pub school_id : ℕ
  pub name : String
  pub base_role : Role
  pub permissions : List String

pub record UpsertRoleTemplateInput : Type 0 where
  pub name : String
  pub base_role : Role
  pub permissions : List String

pub record AssignRoleTemplateInput : Type 0 where
  pub role_template_id : Option ℕ

pub record State : Type 0 where
  pub templates : List RoleTemplate
  pub users : List User

abbrev pub templates_table : Table State RoleTemplate
templates_table = record { get = λ s. s.templates; put = λ s rows. record s { templates = rows } }

abbrev pub users_table : Table State User
users_table = record { get = λ s. s.users; put = λ s rows. record s { users = rows } }

-- The place of a role in the enumeration, by which two roles are compared.
unfoldable pub role_index : Role → ℕ
role_index super_admin = 0
role_index school_admin = 1
role_index teacher = 2
role_index parent = 3
role_index student = 4

abbrev pub same_role : Role → Role → Bool
same_role x y = role_index x == role_index y

-- The primary key, and the unique index on (schoolId, name).
abbrev pub template_clashes : RoleTemplate → RoleTemplate → Bool
template_clashes x y = y.id == x.id || (y.school_id == x.school_id && str_eq y.name x.name)

abbrev pub new_template : (school_id id : ℕ) → UpsertRoleTemplateInput → RoleTemplate
new_template school_id id input = record {
  id = id;
  school_id = school_id;
  name = input.name;
  base_role = input.base_role;
  permissions = stored_permissions input.permissions;
}

abbrev pub edit_template : UpsertRoleTemplateInput → RoleTemplate → RoleTemplate
edit_template input t = record t {
  name = input.name;
  base_role = input.base_role;
  permissions = stored_permissions input.permissions;
}

abbrev pub set_template : Option ℕ → User → User
set_template id u = record u { role_template_id = id }

module _ (db : Prisma) where
  pub own_template : (school_id id : ℕ) → Action State RoleTemplate
  own_template school_id id =
      find_or db templates_table (λ t. t.id == id && t.school_id == school_id)
        (not_found "Template not found")

  pub create : (school_id id : ℕ) → UpsertRoleTemplateInput → Action State RoleTemplate
  create school_id id input =
      insert_or db templates_table template_clashes (new_template school_id id input)
        (conflict "This school already has a template with that name")

  -- A template that people are on keeps its base role.
  abbrev pub check_holders :
      (id : ℕ) → UpsertRoleTemplateInput → RoleTemplate → Action State (Unit {0})
  check_holders id input template = only_if (not (same_role template.base_role input.base_role)) (do
    holders ← count db users_table (λ u. holds u.role_template_id id)
    raise_if (not (holders == 0))
        (bad_request "Unassign the people on this template before changing its base role"))

  abbrev pub write_template : (id : ℕ) → UpsertRoleTemplateInput → Action State (Unit {0})
  write_template id input =
      update_or db templates_table (no_clash template_clashes) (λ t. t.id == id)
        (edit_template input) (conflict "This school already has a template with that name")

  pub update_template : (school_id id : ℕ) → UpsertRoleTemplateInput → Action State (Unit {0})
  unfolding own_template
  update_template school_id id input = do
    template ← own_template school_id id
    check_holders id input template
    write_template id input

  -- The delete, and what the foreign key of the accounts does with it: SET NULL.
  abbrev pub delete_template : ℕ → Action State (Unit {0})
  delete_template id = do
    delete_many db templates_table (λ t. t.id == id)
    _ ← update_many db users_table (λ u. holds u.role_template_id id) (set_template none)
    pure tt

  pub remove : (school_id id : ℕ) → Action State (Unit {0})
  unfolding own_template
  remove school_id id = do _ ← own_template school_id id; delete_template id

  abbrev pub write_user : ℕ → Option ℕ → Action State (Unit {0})
  write_user target template_id =
      update db users_table (λ u. u.id == target) (set_template template_id)

  abbrev pub put_on_own : (target id : ℕ) → User → RoleTemplate → Action State (Unit {0})
  put_on_own target id user template = do
    raise_if (not (same_role template.base_role user.role))
        (bad_request "That template is for accounts of another role")
    write_user target (some id)

  -- The template is looked up, and the account put on it; or taken off, for `null`.
  pub put_on : (school_id target : ℕ) → User → AssignRoleTemplateInput → Action State (Unit {0})
  unfolding own_template
  put_on school_id target user input = elim input.role_template_id [
    | none ↦ write_user target none
    | some id ↦ own_template school_id id >>= put_on_own target id user
  ]

  -- What follows once the account is found.
  abbrev pub assign_to :
      (school_id target : ℕ) → AssignRoleTemplateInput → User → Action State (Unit {0})
  assign_to school_id target input user = do
    raise_if (same_role user.role super_admin) (forbidden "The platform owner can't be templated")
    put_on school_id target user input

  abbrev pub find_and_assign :
      (school_id target : ℕ) → AssignRoleTemplateInput → Action State (Unit {0})
  find_and_assign school_id target input =
      find_or db users_table (λ u. u.id == target && holds u.school_id school_id)
        (not_found "User not found")
      >>= assign_to school_id target input

  pub assign : (school_id acting target : ℕ) → AssignRoleTemplateInput → Action State (Unit {0})
  assign school_id acting target input = do
    raise_if (acting == target) (
        bad_request
          "You can't put an access template on your own account — ask another administrator")
    find_and_assign school_id target input

  pub clear_for_user : ℕ → Action State (Unit {0})
  clear_for_user id = do
    _ ← find_or db users_table (λ u. u.id == id) (not_found "User not found")
    write_user id none
