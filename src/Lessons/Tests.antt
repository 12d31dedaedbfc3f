-- ===== src/Lessons/Tests.antt =====
-- Runs of the lessons service, and the theorems about it at concrete inputs.
use skolara.Prelude.{ℕ, ◌≡◌, refl, some, none, [], ◌∷◌, true, inl, not, ◌&&◌, ◌*◌, ◌/◌}
use skolara.Prelude.Action.{ok, err, bad_request}
use skolara.Store.{listed}
use skolara.Lessons.Rows.{
  State, SyllabusTopic, UpsertLessonPlanInput, in_progress, completed, status_index, is_completed,
}
use skolara.Lessons.{
  add_topics, assert_class, create_topics, create_plan, assert_plan_targets, assert_topic,
  assert_period,
}
use skolara.Lessons.Syllabus.{IsSyllabus}
use skolara.Lessons.Pinned.{serve, plan_creation, serve-IsSyllabus}
use skolara.Lessons.Coverage.{
  SyllabusCoverage, coverage, count_topics, coverage-counts, is_started, is_waiting, is_overdue,
}

abbrev fractions : SyllabusTopic
fractions = record {
  id = 1;
  school_id = 7;
  class_id = 4;
  subject = 2;
  term = 1;
  title = 11;
  description = none;
  sort_order = 0;
  status = completed;
  planned_for_date = some 5;
  completed_on = some 6;
  created_by_user_id = 20;
}

abbrev decimals : SyllabusTopic
decimals = record fractions {
  id = 2;
  title = 12;
  sort_order = 1;
  status = in_progress;
  completed_on = none;
}

abbrev school : State
school = record {
  classes = record { id = 4; school_id = 7 } ∷ [];
  periods = [];
  topics = fractions ∷ decimals ∷ [];
  plans = [];
}

abbrev lesson : UpsertLessonPlanInput
lesson = record {
  class_id = 4;
  subject = 2;
  topic_id = some 2;
  title = 30;
  objectives = none;
  activities = none;
  resources = none;
  date = 9;
  period_id = none;
}

abbrev maths : SyllabusCoverage
maths = record {
  subject = 2;
  term = 1;
  total = 2;
  completed = 1;
  in_progress = 1;
  not_started = 0;
  percent_complete = 50;
  overdue = 1;
}

abbrev percent : ℕ → ℕ → ℕ
percent n total = n * 100 / total

covered : (coverage listed percent 7 4 none 8 school).0 ≡ ok (maths ∷ [])
unfolding coverage status_index
covered = refl

-- The topics that are new are added, and the order goes on.
pasted :
    (add_topics listed 7 20
      (record {
        class_id = 4;
        subject = 2;
        term = 1;
        topics =
            record { id = 3; title = 12; description = none; planned_for_date = none }
            ∷ record { id = 5; title = 13; description = none; planned_for_date = none }
            ∷ [];
      })
      school).0
    ≡ ok (1, 2)
unfolding add_topics assert_class create_topics
pasted = refl

-- A plan is not pinned to a topic of another subject.
other_subject :
    (create_plan listed 7 20 40 (record lesson { subject = 3 }) school).0
    ≡ err (bad_request "That topic isn't on this class's syllabus for this subject")
unfolding create_plan assert_class assert_plan_targets assert_topic assert_period
other_subject = refl

school-IsSyllabus : IsSyllabus school
unfolding status_index
school-IsSyllabus = record {
  topic_ids = (refl, (refl, tt));
  plan_ids = tt;
  dated = (refl, (refl, tt));
  sound = tt;
}

serve-IsSyllabus_example : IsSyllabus (serve listed (plan_creation 7 20 40 lesson) school)
serve-IsSyllabus_example =
    serve-IsSyllabus listed (plan_creation 7 20 40 lesson) school school-IsSyllabus

coverage-counts_example :
    (2 ≡ count_topics 7 4 none maths (λ t. true) school.topics)
    × (1 ≡ count_topics 7 4 none maths (λ t. is_completed t.status) school.topics)
    × (1
        ≡ count_topics 7 4 none maths
            (λ t. not (is_completed t.status) && is_started t.status)
            school.topics)
    × (0 ≡ count_topics 7 4 none maths (λ t. is_waiting t.status) school.topics)
    × (1 ≡ count_topics 7 4 none maths (is_overdue 8) school.topics)
    × (50 ≡ percent 1 2)
coverage-counts_example =
    coverage-counts listed 7 4 none 8 school percent (maths ∷ []) maths covered (inl refl)
