-- ===== src/RoleTemplates/Tests.antt =====
-- Runs of the role templates service, and the theorems about it at concrete inputs.
use skolara.Prelude.{◌≡◌, refl, some, none, [], ◌∷◌, true, String, List}
use skolara.Prelude.Action.{ok, err, bad_request}
use skolara.Store.{listed}
use skolara.Auth.{User, school_admin, teacher}
use skolara.RoleTemplates.{
  State, RoleTemplate, AssignRoleTemplateInput, role_index, own_template, put_on, assign,
}
use skolara.RoleTemplates.Capabilities.{distinct, insert, sort, stored_permissions}
use skolara.RoleTemplates.Holders.{IsFitting}
use skolara.RoleTemplates.Fitting.{assignment, serve, serve-IsFitting}

abbrev office : User
office = record {
  id = 20;
  school_id = some 7;
  role = school_admin;
  email = 1;
  password_hash = "";
  first_name = "Sana";
  last_name = "Ali";
  phone = none;
  is_active = true;
  role_template_id = none;
  created_at = 0;
}

abbrev accountant : RoleTemplate
accountant = record {
  id = 1;
  school_id = 7;
  name = "Accountant";
  base_role = school_admin;
  permissions = "invoices:read" ∷ "payments:read" ∷ [];
}

abbrev school : State
school = record {
  templates = accountant ∷ [];
  users = office ∷ record office { id = 21; role = teacher } ∷ [];
}

abbrev onto : AssignRoleTemplateInput
onto = record { role_template_id = some 1 }

abbrev wishes : List String
wishes = "payments:read" ∷ "invoices:read" ∷ "payments:read" ∷ []

-- A repeated capability is stored once, in the order of the texts.
stored_twice : stored_permissions wishes ≡ "invoices:read" ∷ "payments:read" ∷ []
unfolding stored_permissions sort insert distinct
stored_twice = refl

self_refused :
    (assign listed 7 20 20 onto school).0
    ≡ err (
        bad_request
          "You can't put an access template on your own account — ask another administrator")
unfolding assign
self_refused = refl

teacher_refused :
    (assign listed 7 20 21 onto school).0
    ≡ err (bad_request "That template is for accounts of another role")
unfolding assign put_on own_template role_index
teacher_refused = refl

assigned : (assign listed 7 22 20 onto school).0 ≡ ok tt
unfolding assign put_on own_template role_index
assigned = refl

school-IsFitting : IsFitting school
school-IsFitting = record {
  template_ids = (refl, tt);
  user_ids = (refl, (refl, tt));
  fit = (refl, (refl, tt));
}

serve-IsFitting_example : IsFitting (serve listed (assignment 7 22 20 onto) school)
serve-IsFitting_example = serve-IsFitting listed (assignment 7 22 20 onto) school school-IsFitting
