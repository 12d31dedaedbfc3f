-- ===== src/Lessons.antt =====
-- Syllabus and lesson plans: `apps/api/src/lessons/lessons.service.ts` and the types of
-- `packages/types/src/lessons.ts`. Subjects, terms and titles are only compared, so they are
-- numbers. `findTopics` and `findPlans` only read.
pub mod Rows
pub mod Syllabus
pub mod Pinned
pub mod Coverage
mod Tests
use skolara.Prelude.{
  ℕ, ◌+◌, String, Bool, true, false, not, ◌&&◌, ◌||◌, List, [], ◌∷◌, Option, none, some, holds,
  ◌==◌, ltb, is_none, or_else, length, if◌then◌else◌,
}
use skolara.Prelude.Action.{Action, ok, bad_request, not_found, unique_violation, ◌>>=◌, ◌>>◌, pure}
use skolara.Store.{
  Prisma, Table, find_or, insert_or, update, update_or, update_many, delete_many, no_clash,
}
use skolara.Timetable.{SchoolClass, Period}
use skolara.Lessons.Rows.{
  SyllabusTopicStatus, SyllabusTopic, LessonPlan, TopicInput, AddSyllabusTopicsInput,
  UpdateSyllabusTopicInput, UpsertLessonPlanInput, State, classes_table, periods_table,
  topics_table, plans_table, topic_clashes, plan_clashes, in_group, new_topic, edit_topic, new_plan,
  edit_plan, unpin, is_target,
}

module _ (db : Prisma) where
  unfoldable pub assert_class : (school_id class_id : ℕ) → Action State SchoolClass
  assert_class school_id class_id =
      find_or db classes_table (λ c. c.id == class_id && c.school_id == school_id)
        (not_found "Class not found")

  unfoldable pub assert_topic : (school_id : ℕ) → UpsertLessonPlanInput → Action State (Unit {0})
  assert_topic school_id input = elim input.topic_id [
    | none ↦ pure tt
    | some id ↦ do
      _ ←
          find_or db topics_table (is_target school_id id input)
            (bad_request "That topic isn't on this class's syllabus for this subject")
      pure tt
  ]

  unfoldable pub assert_period : (school_id : ℕ) → UpsertLessonPlanInput → Action State (Unit {0})
  assert_period school_id input = elim input.period_id [
    | none ↦ pure tt
    | some id ↦ do
      _ ←
          find_or db periods_table (λ p. p.id == id && p.school_id == school_id)
            (not_found "Period not found")
      pure tt
  ]

  unfoldable pub assert_plan_targets :
      (school_id : ℕ) → UpsertLessonPlanInput → Action State (Unit {0})
  unfolding assert_topic assert_period
  assert_plan_targets school_id input = do
    assert_topic school_id input
    assert_period school_id input

  -- `createMany` with `skipDuplicates`, from the place `n` in the order.
  unfoldable pub create_topics :
      (school_id created_by n : ℕ)
      → AddSyllabusTopicsInput
      → List TopicInput
      → List SyllabusTopic
      → ℕ × List SyllabusTopic
  create_topics school_id created_by n input [] rows = (0, rows)
  create_topics school_id created_by n input (topic ∷ topics) rows =
      elim (db.create topic_clashes (new_topic school_id created_by n input topic) rows) [
        | none ↦ create_topics school_id created_by (n + 1) input topics rows
        | some rows' ↦
            let (m, final) = create_topics school_id created_by (n + 1) input topics rows' in
            (m + 1, final)
      ]

  -- Where the order goes on.
  abbrev pub next_place : (school_id : ℕ) → AddSyllabusTopicsInput → State → ℕ
  next_place school_id input s =
      elim (db.find_top (in_group school_id input.class_id input.subject input.term)
        (λ t. t.sort_order) s.topics) [ none ↦ 0 | some last ↦ last.sort_order + 1 ]

  abbrev pub write_topics :
      (school_id created_by : ℕ) → AddSyllabusTopicsInput → Action State (ℕ × ℕ)
  write_topics school_id created_by input s =
      let base = next_place school_id input s in
      let (n, rows) = create_topics school_id created_by base input input.topics s.topics in
      (ok (n, length input.topics), record s { topics = rows })

  -- Answers the number of topics added and the number asked for.
  unfoldable pub add_topics :
      (school_id created_by : ℕ) → AddSyllabusTopicsInput → Action State (ℕ × ℕ)
  unfolding assert_class create_topics
  add_topics school_id created_by input = do
    _ ← assert_class school_id input.class_id
    write_topics school_id created_by input

  abbrev pub write_topic :
      (id now : ℕ) → UpdateSyllabusTopicInput → SyllabusTopic → Action State (Unit {0})
  write_topic id now input topic =
      update_or db topics_table (no_clash topic_clashes) (λ t. t.id == id)
        (edit_topic now topic.status input)
        (bad_request "That term's syllabus already has a topic by that name")

  pub update_topic : (school_id id now : ℕ) → UpdateSyllabusTopicInput → Action State (Unit {0})
  update_topic school_id id now input = do
    topic ←
        find_or db topics_table (λ t. t.id == id && t.school_id == school_id)
          (not_found "Topic not found")
    write_topic id now input topic

  -- The delete, and what it does to the plans.
  abbrev pub delete_topic : ℕ → Action State (Unit {0})
  delete_topic id = do
    delete_many db topics_table (λ t. t.id == id)
    _ ← update_many db plans_table (λ p. holds p.topic_id id) unpin
    pure tt

  pub remove_topic : (school_id id : ℕ) → Action State (Unit {0})
  remove_topic school_id id = do
    _ ←
        find_or db topics_table (λ t. t.id == id && t.school_id == school_id)
          (not_found "Topic not found")
    delete_topic id

  abbrev pub write_new_plan :
      (school_id teacher id : ℕ) → UpsertLessonPlanInput → Action State LessonPlan
  write_new_plan school_id teacher id input =
      insert_or db plans_table plan_clashes (new_plan school_id teacher id input) unique_violation

  unfoldable pub create_plan :
      (school_id teacher id : ℕ) → UpsertLessonPlanInput → Action State LessonPlan
  unfolding assert_class assert_plan_targets
  create_plan school_id teacher id input = do
    _ ← assert_class school_id input.class_id
    assert_plan_targets school_id input
    write_new_plan school_id teacher id input

  abbrev pub write_plan : (id : ℕ) → UpsertLessonPlanInput → Action State (Unit {0})
  write_plan id input = update db plans_table (λ p. p.id == id) (edit_plan input)

  pub update_plan : (school_id id : ℕ) → UpsertLessonPlanInput → Action State (Unit {0})
  unfolding assert_class assert_plan_targets
  update_plan school_id id input = do
    _ ←
        find_or db plans_table (λ p. p.id == id && p.school_id == school_id)
          (not_found "Lesson plan not found")
    _ ← assert_class school_id input.class_id
    assert_plan_targets school_id input
    write_plan id input

  pub remove_plan : (school_id id : ℕ) → Action State (Unit {0})
  remove_plan school_id id = do
    _ ←
        find_or db plans_table (λ p. p.id == id && p.school_id == school_id)
          (not_found "Lesson plan not found")
    delete_many db plans_table (λ p. p.id == id)
