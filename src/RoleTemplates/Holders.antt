-- ===== src/RoleTemplates/Holders.antt =====
-- The accounts that are on role templates: when one may be on a template, and what the changes of
-- single rows of either table do to that.
use skolara.Prelude.{
  ℕ, ◌≡◌, refl, Bool, true, false, not, ◌&&◌, ◌||◌, List, [], ◌∷◌, Option, arith, ◌==◌, is_none,
  holds, any, update_by, filter_by, In, All, All-update_by, inl, inr, Bool-cases, Option-cases,
}
use skolara.Store.{Unique, Unique-update_by, eq_of_key, In-of_any}
use skolara.Auth.{User, Role}
use skolara.RoleTemplates.{
  State, RoleTemplate, UpsertRoleTemplateInput, same_role, edit_template, set_template,
}

-- The template is one that the account may be on.
abbrev pub is_fitting : User → RoleTemplate → Bool
is_fitting u t =
    holds u.role_template_id t.id && (holds u.school_id t.school_id && same_role t.base_role u.role)

abbrev pub fits : List RoleTemplate → User → Bool
fits templates u = is_none u.role_template_id || any (is_fitting u) templates

abbrev pub Fit : List RoleTemplate → List User → Type 0
Fit templates users = All (λ u. fits templates u ≡ true) users

-- The ids are unique, and every account that is on a template is on one of its own school and role.
pub record IsFitting (s : State) : Type 0 where
  pub template_ids : Unique (λ (t : RoleTemplate). t.id) s.templates
  pub user_ids : Unique (λ (u : User). u.id) s.users
  pub fit : Fit s.templates s.users

-- Every template with this id is for this role.
abbrev pub all_for : ℕ → Role → List RoleTemplate → Bool
all_for id role templates =
    not (any (λ t. t.id == id && not (same_role t.base_role role)) templates)

pub any-edit_same :
    (id : ℕ) (input : UpsertRoleTemplateInput) (u : User) (ts : List RoleTemplate)
    → all_for id input.base_role ts ≡ true
    → any (is_fitting u) ts ≡ true
    → any (is_fitting u) (update_by (λ t. t.id == id) (edit_template input) ts) ≡ true
any-edit_same id input u [] h a = a
any-edit_same id input u (t ∷ ts) h a = ground (arith, any-edit_same id input u ts)

pub any-edit_other :
    (id : ℕ) (input : UpsertRoleTemplateInput) (u : User) (ts : List RoleTemplate)
    → holds u.role_template_id id ≡ false
    → any (is_fitting u) ts ≡ true
    → any (is_fitting u) (update_by (λ t. t.id == id) (edit_template input) ts) ≡ true
any-edit_other id input u [] h a = a
any-edit_other id input u (t ∷ ts) h a = elim (Option-cases u.role_template_id) [
  | inl e ↦ ground (arith, any-edit_other id input u ts)
  | inr (n, e) ↦ ground (arith, e, any-edit_other id input u ts)
]

pub any-remove :
    (id : ℕ) (u : User) (ts : List RoleTemplate)
    → holds u.role_template_id id ≡ false
    → any (is_fitting u) ts ≡ true
    → any (is_fitting u) (filter_by (λ t. not (t.id == id)) ts) ≡ true
any-remove id u [] h a = a
any-remove id u (t ∷ ts) h a = elim (Option-cases u.role_template_id) [
  | inl e ↦ ground (arith, any-remove id u ts)
  | inr (n, e) ↦ ground (arith, e, any-remove id u ts)
]

-- One row with the id is for the role, and the ids are unique.
pub all_for-In :
    (id : ℕ) (role : Role) (ts : List RoleTemplate) (t : RoleTemplate)
    → Unique (λ (t : RoleTemplate). t.id) ts
    → In t ts
    → t.id ≡ id
    → same_role t.base_role role ≡ true
    → all_for id role ts ≡ true
all_for-In id role ts t u m e r =
    elim (Bool-cases (any (λ t. t.id == id && not (same_role t.base_role role)) ts)) [
      | inl a ↦
          let (x, i, q) = In-of_any _ ts a in
          let same = eq_of_key (λ t. t.id) ts t x u m i (ground (arith, q, e)) in
          ground (arith, q, same)
      | inr a ↦ rw a
    ]

-- One account is put on a template, or taken off.
set_template-Fit :
    (id : ℕ) (template_id : Option ℕ) (user : User) (ts : List RoleTemplate) (users : List User)
    → Unique (λ (u : User). u.id) users
    → In user users
    → user.id ≡ id
    → fits ts (set_template template_id user) ≡ true
    → Fit ts users
    → Fit ts (update_by (λ u. u.id == id) (set_template template_id) users)
set_template-Fit id template_id user ts users un m e f h =
    All-update_by (λ u. fits ts u ≡ true) (λ u. fits ts u ≡ true) (λ u. u.id == id)
      (set_template template_id) users
      (λ u n g. elim (Bool-cases (u.id == id)) [
        | inl t ↦
            let same = eq_of_key (λ u. u.id) users u user un n m (ground (arith, e, t)) in
            rw (t, same) f
        | inr t ↦ rw t g
      ])
      h

pub set_template-IsFitting :
    (id : ℕ) (template_id : Option ℕ) (user : User) (s : State)
    → IsFitting s
    → In user s.users
    → user.id ≡ id
    → fits s.templates (set_template template_id user) ≡ true
    → IsFitting
        (record s { users = update_by (λ u. u.id == id) (set_template template_id) s.users })
set_template-IsFitting id template_id user s h m e f = record {
  template_ids = h.template_ids;
  user_ids =
      Unique-update_by (λ u. u.id) (λ u. u.id == id) (set_template template_id) s.users (λ u. refl)
        h.user_ids;
  fit = set_template-Fit id template_id user s.templates s.users h.user_ids m e f h.fit;
}
