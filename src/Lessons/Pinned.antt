-- ===== src/Lessons/Pinned.antt =====
-- What plans point at: `createPlan`, `updatePlan` and `removePlan` of the lessons service, and
-- every request to it.
use skolara.Prelude.{
  ℕ, ◌≡◌, refl, true, ◌&&◌, arith, ◌==◌, holds, In, All-update_by, All-filter_by, inl, inr,
  Bool-cases, Option-cases, any_of_In,
}
use skolara.Prelude.Action.{Result-cases, ok, ◌>>◌, ◌>>=◌}
use skolara.Store.{
  Prisma, Unique-update_by, Unique-cons, Unique-filter_by, found_row, eq_of_key, Kept,
  find_or-keeps, insert_or-keeps, update-keeps, check-keeps, delete_many,
}
use skolara.Timetable.{SchoolClass, Period}
use skolara.Lessons.Rows.{
  LessonPlan, AddSyllabusTopicsInput, UpdateSyllabusTopicInput, UpsertLessonPlanInput, State,
  classes_table, plans_table, plan_clashes, new_plan, edit_plan, is_target,
}
use skolara.Lessons.{
  assert_class, assert_topic, assert_period, assert_plan_targets, add_topics, update_topic,
  remove_topic, write_new_plan, create_plan, write_plan, update_plan, remove_plan,
}
use skolara.Lessons.Syllabus.{
  pins, is_pinned, has_period, is_sound, IsSyllabus, add_topics-IsSyllabus, update_topic-IsSyllabus,
  remove_topic-IsSyllabus,
}

module _ (db : Prisma) where
  remove_plan-IsSyllabus :
      (school_id id : ℕ) (s : State)
      → IsSyllabus s
      → Kept IsSyllabus (remove_plan db school_id id) s
  unfolding remove_plan
  remove_plan-IsSyllabus school_id id s h =
      find_or-keeps IsSyllabus db plans_table _ _
        (λ _. delete_many db plans_table (λ p. p.id == id)) s h
        (λ p m e. record {
          kept =
              rw (delete_many, db.delete_many_lem (λ p. p.id == id) s.plans)
                (record {
                  topic_ids = h.topic_ids;
                  plan_ids = Unique-filter_by (λ p. p.id) _ s.plans h.plan_ids;
                  dated = h.dated;
                  sound = All-filter_by (λ p. is_sound s p ≡ true) _ _ s.plans (λ p q f. f) h.sound;
                });
        })

  -- What the two checks of a plan establish, for a plan of the school with what the input says.
  topic_is_pinned :
      (school_id teacher id : ℕ) (input : UpsertLessonPlanInput) (s : State)
      → (assert_topic db school_id input s).0 ≡ ok tt
      → is_pinned s.topics (new_plan school_id teacher id input) ≡ true
  unfolding assert_topic
  topic_is_pinned school_id teacher id input s e = elim (Option-cases input.topic_id) [
    | inl f ↦ ground (arith, f)
    | inr (n, f) ↦ elim (Option-cases (db.find_first (is_target school_id n input) s.topics)) [
      | inl g ↦ ground (arith, e, f, g)
      | inr (t, g) ↦
          let (i, q) = found_row db (is_target school_id n input) s.topics g in
          ground (
            arith,
            any_of_In (pins (new_plan school_id teacher id input)) s.topics t i
                (ground (arith, q, f)),
          )
    ]
  ]

  period_is_had :
      (school_id teacher id : ℕ) (input : UpsertLessonPlanInput) (s : State)
      → (assert_period db school_id input s).0 ≡ ok tt
      → has_period s.periods (new_plan school_id teacher id input) ≡ true
  unfolding assert_period
  period_is_had school_id teacher id input s e = elim (Option-cases input.period_id) [
    | inl f ↦ ground (arith, f)
    | inr (n, f) ↦
        elim (Option-cases (db.find_first (λ p. p.id == n && p.school_id == school_id) s.periods)) [
          | inl g ↦ ground (arith, e, f, g)
          | inr (t, g) ↦
              let (i, q) =
                found_row db (λ (p : Period). p.id == n && p.school_id == school_id) s.periods g in
              ground (
                arith,
                any_of_In (λ q. holds input.period_id q.id && q.school_id == school_id) s.periods t
                    i (ground (arith, q, f)),
              )
        ]
  ]

  assert_topic-reads :
      (school_id : ℕ) (input : UpsertLessonPlanInput) (s : State)
      → (assert_topic db school_id input s).1 ≡ s
  unfolding assert_topic
  assert_topic-reads school_id input s = ground arith

  assert_period-reads :
      (school_id : ℕ) (input : UpsertLessonPlanInput) (s : State)
      → (assert_period db school_id input s).1 ≡ s
  unfolding assert_period
  assert_period-reads school_id input s = ground arith

  assert_plan_targets-reads :
      (school_id : ℕ) (input : UpsertLessonPlanInput) (s : State)
      → (assert_plan_targets db school_id input s).1 ≡ s
  unfolding assert_plan_targets
  assert_plan_targets-reads school_id input s =
      ground (arith, assert_topic-reads school_id input s, assert_period-reads school_id input s)

  both_pass :
      (school_id : ℕ) (input : UpsertLessonPlanInput) (s : State)
      → (assert_plan_targets db school_id input s).0 ≡ ok tt
      → ((assert_topic db school_id input s).0 ≡ ok tt)
        × ((assert_period db school_id input s).0 ≡ ok tt)
  unfolding assert_plan_targets
  both_pass school_id input s e = elim (Result-cases (assert_topic db school_id input s).0) [
    | inl (tt, f) ↦ (f, ground (arith, e, f, assert_topic-reads school_id input s))
    | inr (x, f) ↦ ground (arith, e, f)
  ]

  targets_are_sound :
      (school_id teacher id : ℕ) (input : UpsertLessonPlanInput) (s : State) (c : SchoolClass)
      → In c s.classes
      → (c.id == input.class_id && c.school_id == school_id) ≡ true
      → assert_plan_targets db school_id input s ≡ (ok tt, s)
      → is_sound s (new_plan school_id teacher id input) ≡ true
  targets_are_sound school_id teacher id input s c m e t =
      let (a, b) = both_pass school_id input s (ground (arith, t)) in
      ground (
        arith,
        topic_is_pinned school_id teacher id input s a,
        period_is_had school_id teacher id input s b,
        any_of_In (λ c. c.id == input.class_id && c.school_id == school_id) s.classes c m e,
      )

  create_plan-IsSyllabus :
      (school_id teacher id : ℕ) (input : UpsertLessonPlanInput) (s : State)
      → IsSyllabus s
      → Kept IsSyllabus (create_plan db school_id teacher id input) s
  unfolding create_plan assert_class
  create_plan-IsSyllabus school_id teacher id input s h =
      find_or-keeps IsSyllabus db classes_table _ _
        (λ _.
          assert_plan_targets db school_id input >> write_new_plan db school_id teacher id input)
        s h
        (λ c m e.
          check-keeps IsSyllabus (assert_plan_targets db school_id input)
            (write_new_plan db school_id teacher id input) s h
            (assert_plan_targets-reads school_id input s)
            (λ t.
              insert_or-keeps IsSyllabus db plans_table plan_clashes
                (new_plan school_id teacher id input) _ s h
                (λ fresh. record {
                  topic_ids = h.topic_ids;
                  plan_ids =
                      Unique-cons (λ p. p.id) (new_plan school_id teacher id input) s.plans fresh
                        h.plan_ids;
                  dated = h.dated;
                  sound = (targets_are_sound school_id teacher id input s c m e t, h.sound);
                })))

  -- A plan of the school is as sound after the edit as a new one would be.
  edit_plan_sound :
      (school_id : ℕ) (input : UpsertLessonPlanInput) (s : State) (p : LessonPlan)
      → p.school_id ≡ school_id
      → is_sound s (new_plan school_id p.teacher_user_id p.id input) ≡ true
      → is_sound s (edit_plan input p) ≡ true
  edit_plan_sound school_id input s p e h = rw e h

  update_plan-IsSyllabus :
      (school_id id : ℕ) (input : UpsertLessonPlanInput) (s : State)
      → IsSyllabus s
      → Kept IsSyllabus (update_plan db school_id id input) s
  unfolding update_plan assert_class
  update_plan-IsSyllabus school_id id input s h =
      find_or-keeps IsSyllabus db plans_table (λ p. p.id == id && p.school_id == school_id) _
        (λ _. assert_class db school_id input.class_id >>= λ _.
          assert_plan_targets db school_id input >> write_plan db id input)
        s h
        (λ plan i q.
          find_or-keeps IsSyllabus db classes_table
            (λ c. c.id == input.class_id && c.school_id == school_id) _
            (λ _. assert_plan_targets db school_id input >> write_plan db id input) s h
            (λ c m e.
              check-keeps IsSyllabus (assert_plan_targets db school_id input)
                (write_plan db id input) s h (assert_plan_targets-reads school_id input s)
                (λ t.
                  update-keeps IsSyllabus db plans_table (λ p. p.id == id) (edit_plan input) s h
                    (record {
                      topic_ids = h.topic_ids;
                      plan_ids = Unique-update_by (λ p. p.id) _ _ s.plans (λ p. refl) h.plan_ids;
                      dated = h.dated;
                      sound =
                          All-update_by (λ p. is_sound s p ≡ true) (λ p. is_sound s p ≡ true)
                            (λ p. p.id == id) (edit_plan input) s.plans
                            (λ p j d. elim (Bool-cases (p.id == id)) [
                              | inl u ↦
                                  let same =
                                    eq_of_key (λ p. p.id) s.plans plan p h.plan_ids i j
                                      (ground (arith, q, u)) in
                                  rw u (
                                    edit_plan_sound school_id input s p (ground (arith, q, same)) (
                                      targets_are_sound school_id p.teacher_user_id p.id input s c m
                                        e t))
                              | inr u ↦ rw u d
                            ])
                            h.sound;
                    }))))

-- A request to the service, with the ids that the database gives new rows and the time.
pub data Request : Type 0 where
  addition : (school_id created_by : ℕ) → AddSyllabusTopicsInput → Request
  topic_change : (school_id id now : ℕ) → UpdateSyllabusTopicInput → Request
  topic_removal : (school_id id : ℕ) → Request
  plan_creation : (school_id teacher id : ℕ) → UpsertLessonPlanInput → Request
  plan_change : (school_id id : ℕ) → UpsertLessonPlanInput → Request
  plan_removal : (school_id id : ℕ) → Request

module _ (db : Prisma) where
  -- The state after a request.
  unfoldable pub serve : Request → State → State
  serve (addition school_id created_by input) s = (add_topics db school_id created_by input s).1
  serve (topic_change school_id id now input) s = (update_topic db school_id id now input s).1
  serve (topic_removal school_id id) s = (remove_topic db school_id id s).1
  serve (plan_creation school_id teacher id input) s =
      (create_plan db school_id teacher id input s).1
  serve (plan_change school_id id input) s = (update_plan db school_id id input s).1
  serve (plan_removal school_id id) s = (remove_plan db school_id id s).1

  -- Every request to the lessons service, refused or not, keeps the syllabus in order: the ids of
  -- topics and of plans are unique, a topic has a date of completion just where it is completed,
  -- and every lesson plan is for a class of its school, pinned, if at all, to a topic of its own
  -- school, class and subject, and to a period of its school.
  pub serve-IsSyllabus :
      (request : Request) (s : State) → IsSyllabus s → IsSyllabus (serve request s)
  unfolding serve
  serve-IsSyllabus (addition school_id created_by input) s h =
      (add_topics-IsSyllabus db school_id created_by input s h).kept
  serve-IsSyllabus (topic_change school_id id now input) s h =
      (update_topic-IsSyllabus db school_id id now input s h).kept
  serve-IsSyllabus (topic_removal school_id id) s h =
      (remove_topic-IsSyllabus db school_id id s h).kept
  serve-IsSyllabus (plan_creation school_id teacher id input) s h =
      (create_plan-IsSyllabus db school_id teacher id input s h).kept
  serve-IsSyllabus (plan_change school_id id input) s h =
      (update_plan-IsSyllabus db school_id id input s h).kept
  serve-IsSyllabus (plan_removal school_id id) s h =
      (remove_plan-IsSyllabus db school_id id s h).kept
