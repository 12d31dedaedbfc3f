-- ===== src/RoleTemplates/Fitting.antt =====
-- The templates of accounts: that each is one of the account's school and for its role, under
-- every request.
use skolara.Prelude.{
  ℕ, ◌≡◌, refl, true, not, none, some, arith, ◌==◌, holds, update_by, filter_by, In, All-map,
  All-update_by, inl, inr, Bool-cases, Option-cases, count_by, any-false_of_count, any_of_In,
  All-of_In, All-In, any-In, ◌⊎◌, any-false_of_any,
}
use skolara.Prelude.Action.{◌>>◌, ◌>>=◌}
use skolara.Store.{
  Prisma, Unique-update_by, Unique-cons, Unique-filter_by, no_clash, insert_or-keeps, find_or-keeps,
  raise_if-keeps, Kept, update-keeps, update_or-keeps, check-keeps,
}
use skolara.Auth.{User, super_admin}
use skolara.RoleTemplates.{
  State, templates_table, users_table, UpsertRoleTemplateInput, AssignRoleTemplateInput, same_role,
  template_clashes, new_template, edit_template, set_template, own_template, create,
  update_template, check_holders, write_template, delete_template, write_user, put_on_own, remove,
  put_on, assign_to, find_and_assign, assign, clear_for_user,
}
use skolara.RoleTemplates.Holders.{
  IsFitting, fits, is_fitting, all_for, any-edit_same, any-edit_other, any-remove, all_for-In,
  set_template-IsFitting,
}

module _ (db : Prisma) where
  create-IsFitting :
      (school_id id : ℕ) (input : UpsertRoleTemplateInput) (s : State)
      → IsFitting s
      → Kept IsFitting (create db school_id id input) s
  unfolding create
  create-IsFitting school_id id input s h =
      insert_or-keeps IsFitting db templates_table template_clashes
        (new_template school_id id input) _ s h
        (λ fresh. record {
          template_ids =
              Unique-cons (λ t. t.id) (new_template school_id id input) s.templates
                (any-false_of_any _ _ s.templates (λ t e. ground (arith, e)) fresh) h.template_ids;
          user_ids = h.user_ids;
          fit = All-map _ _ s.users (λ u f. ground (arith, f)) h.fit;
        })

  put_on_own-IsFitting :
      (school_id target id : ℕ) (user : User) (s : State)
      → IsFitting s
      → In user s.users
      → user.id ≡ target
      → holds user.school_id school_id ≡ true
      → Kept IsFitting (own_template db school_id id >>= put_on_own db target id user) s
  unfolding own_template
  put_on_own-IsFitting school_id target id user s h m e o =
      find_or-keeps IsFitting db templates_table _ _ (put_on_own db target id user) s h (λ t i q.
        raise_if-keeps IsFitting (not (same_role t.base_role user.role)) _
          (write_user db target (some id)) s h
          (λ r.
            update-keeps IsFitting db users_table (λ u. u.id == target) (set_template (some id)) s h
              (set_template-IsFitting target (some id) user s h m e (
                any_of_In (is_fitting (set_template (some id) user)) s.templates t i
                  (ground (arith, q, r, o))))))

  put_on-IsFitting :
      (school_id target : ℕ) (user : User) (input : AssignRoleTemplateInput) (s : State)
      → IsFitting s
      → In user s.users
      → user.id ≡ target
      → holds user.school_id school_id ≡ true
      → Kept IsFitting (put_on db school_id target user input) s
  unfolding put_on
  put_on-IsFitting school_id target user input s h m e o =
      elim (Option-cases input.role_template_id) [
        | inl f ↦ rw f (
            update-keeps IsFitting db users_table _ _ s h
              (set_template-IsFitting target none user s h m e refl))
        | inr (id, f) ↦ rw f (put_on_own-IsFitting school_id target id user s h m e o)
      ]

  assign-IsFitting :
      (school_id acting target : ℕ) (input : AssignRoleTemplateInput) (s : State)
      → IsFitting s
      → Kept IsFitting (assign db school_id acting target input) s
  unfolding assign
  assign-IsFitting school_id acting target input s h =
      raise_if-keeps IsFitting (acting == target) _ (find_and_assign db school_id target input) s h
        (λ _.
          find_or-keeps IsFitting db users_table _ _ (assign_to db school_id target input) s h
            (λ user m e.
              raise_if-keeps IsFitting (same_role user.role super_admin) _
                (put_on db school_id target user input) s h
                (λ _.
                  put_on-IsFitting school_id target user input s h m (ground (arith, e))
                    (ground (arith, e)))))

  clear_for_user-IsFitting :
      (id : ℕ) (s : State) → IsFitting s → Kept IsFitting (clear_for_user db id) s
  unfolding clear_for_user
  clear_for_user-IsFitting id s h =
      find_or-keeps IsFitting db users_table _ _ (λ _. write_user db id none) s h
        (λ user m e.
          update-keeps IsFitting db users_table (λ u. u.id == id) (set_template none) s h
            (set_template-IsFitting id none user s h m (ground (arith, e)) refl))

  delete_template-IsFitting :
      (id : ℕ) (s : State) → IsFitting s → Kept IsFitting (delete_template db id) s
  delete_template-IsFitting id s h = record {
    kept =
        rw
          (
            delete_template,
            db.delete_many_lem (λ t. t.id == id) s.templates,
            db.update_many_lem (λ u. holds u.role_template_id id) (set_template none) s.users,
          )
          (record {
            template_ids = Unique-filter_by (λ t. t.id) _ s.templates h.template_ids;
            user_ids = Unique-update_by (λ u. u.id) _ _ s.users (λ u. refl) h.user_ids;
            fit =
                All-update_by (λ u. fits s.templates u ≡ true)
                  (λ u. fits (filter_by (λ t. not (t.id == id)) s.templates) u ≡ true)
                  (λ u. holds u.role_template_id id) (set_template none) s.users
                  (λ u n f. ground (arith, f, any-remove id u s.templates)) h.fit;
          });
  }

  remove-IsFitting :
      (school_id id : ℕ) (s : State) → IsFitting s → Kept IsFitting (remove db school_id id) s
  unfolding remove own_template
  remove-IsFitting school_id id s h =
      find_or-keeps IsFitting db templates_table _ _ (λ _. delete_template db id) s h
        (λ t m e. delete_template-IsFitting id s h)

  edit_template-IsFitting :
      (id : ℕ) (input : UpsertRoleTemplateInput) (s : State)
      → IsFitting s
      → (all_for id input.base_role s.templates ≡ true)
        ⊎ (count_by (λ u. holds u.role_template_id id) s.users ≡ 0)
      → IsFitting
          (record s { templates = update_by (λ t. t.id == id) (edit_template input) s.templates })
  edit_template-IsFitting id input s h c = record {
    template_ids = Unique-update_by (λ t. t.id) _ _ s.templates (λ t. refl) h.template_ids;
    user_ids = h.user_ids;
    fit = elim c [
      | inl a ↦
          All-map _ _ s.users (λ u f. ground (arith, f, any-edit_same id input u s.templates a))
            h.fit
      | inr n ↦ All-of_In _ s.users (λ u m. ground (
        arith,
        any-edit_other id input u s.templates,
        any-In (λ u. holds u.role_template_id id) s.users u (any-false_of_count _ s.users n) m,
        All-In (λ u. fits s.templates u ≡ true) u s.users h.fit m,
      ))
    ];
  }

  update_template-IsFitting :
      (school_id id : ℕ) (input : UpsertRoleTemplateInput) (s : State)
      → IsFitting s
      → Kept IsFitting (update_template db school_id id input) s
  unfolding update_template own_template
  update_template-IsFitting school_id id input s h =
      find_or-keeps IsFitting db templates_table _ _
        (λ t. check_holders db id input t >> write_template db id input) s h
        (λ t m e.
          check-keeps IsFitting (check_holders db id input t) (write_template db id input) s h
            (ground arith)
            (λ c.
              update_or-keeps IsFitting db templates_table (no_clash template_clashes) _ _ _ s h
                (λ _.
                  edit_template-IsFitting id input s h
                    (elim (Bool-cases (same_role t.base_role input.base_role)) [
                      | inl r ↦ inl (
                          all_for-In id input.base_role s.templates t h.template_ids m
                            (ground (arith, e)) r)
                      | inr r ↦ inr (
                          ground (
                            arith,
                            db.update_many_lem (λ u. holds u.role_template_id id) (λ u. u) s.users,
                            c,
                            r,
                          ))
                    ]))))

-- A request to the service, with the ids that the database gives new rows.
pub data Request : Type 0 where
  creation : (school_id id : ℕ) → UpsertRoleTemplateInput → Request
  change : (school_id id : ℕ) → UpsertRoleTemplateInput → Request
  removal : (school_id id : ℕ) → Request
  assignment : (school_id acting target : ℕ) → AssignRoleTemplateInput → Request
  clearing : ℕ → Request

module _ (db : Prisma) where
  -- The state after a request.
  unfoldable pub serve : Request → State → State
  serve (creation school_id id input) s = (create db school_id id input s).1
  serve (change school_id id input) s = (update_template db school_id id input s).1
  serve (removal school_id id) s = (remove db school_id id s).1
  serve (assignment school_id acting target input) s = (assign db school_id acting target input s).1
  serve (clearing id) s = (clear_for_user db id s).1

  -- Every request to the role templates service, refused or not, keeps the ids of templates and
  -- accounts unique, and every account that is on a template on one of its own school and role.
  pub serve-IsFitting : (request : Request) (s : State) → IsFitting s → IsFitting (serve request s)
  unfolding serve
  serve-IsFitting (creation school_id id input) s h =
      (create-IsFitting db school_id id input s h).kept
  serve-IsFitting (change school_id id input) s h =
      (update_template-IsFitting db school_id id input s h).kept
  serve-IsFitting (removal school_id id) s h = (remove-IsFitting db school_id id s h).kept
  serve-IsFitting (assignment school_id acting target input) s h =
      (assign-IsFitting db school_id acting target input s h).kept
  serve-IsFitting (clearing id) s h = (clear_for_user-IsFitting db id s h).kept
