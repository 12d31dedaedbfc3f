-- ===== src/Lessons/Rows.antt =====
-- Topics and plans, and the writes of their columns: the types of
-- `packages/types/src/lessons.ts`, and what `apps/api/src/lessons/lessons.service.ts` writes of
-- them.
use skolara.Prelude.{
  ℕ, String, Bool, ◌&&◌, ◌||◌, List, Option, none, some, ◌==◌, or_else, if◌then◌else◌,
}
use skolara.Store.{Table}
use skolara.Timetable.{SchoolClass, Period}

pub data SyllabusTopicStatus : Type 0 where
  not_started in_progress completed : SyllabusTopicStatus

pub record SyllabusTopic : Type 0 where
  pub id : ℕ
  pub school_id : ℕ
  pub class_id : ℕ
  pub subject : ℕ
  pub term : ℕ
  pub title : ℕ
  pub description : Option String
  pub sort_order : ℕ
  pub status : SyllabusTopicStatus
  pub planned_for_date : Option ℕ
  pub completed_on : Option ℕ
  pub created_by_user_id : ℕ

pub record LessonPlan : Type 0 where
  pub id : ℕ
  pub school_id : ℕ
  pub class_id : ℕ
  pub subject : ℕ
  pub topic_id : Option ℕ
  pub title : ℕ
  pub objectives : Option String
  pub activities : Option String
  pub resources : Option String
  pub date : ℕ
  pub period_id : Option ℕ
  pub teacher_user_id : ℕ

-- A topic to add, with the id that the database gives its row.
pub record TopicInput : Type 0 where
  pub id : ℕ
  pub title : ℕ
  pub description : Option String
  pub planned_for_date : Option ℕ

pub record AddSyllabusTopicsInput : Type 0 where
  pub class_id : ℕ
  pub subject : ℕ
  pub term : ℕ
  pub topics : List TopicInput

-- A patch: `none` where the field is left out; a date or a description may be set to null.
pub record UpdateSyllabusTopicInput : Type 0 where
  pub title : Option ℕ
  pub description : Option (Option String)
  pub status : Option SyllabusTopicStatus
  pub planned_for_date : Option (Option ℕ)
  pub sort_order : Option ℕ

pub record UpsertLessonPlanInput : Type 0 where
  pub class_id : ℕ
  pub subject : ℕ
  pub topic_id : Option ℕ
  pub title : ℕ
  pub objectives : Option String
  pub activities : Option String
  pub resources : Option String
  pub date : ℕ
  pub period_id : Option ℕ

pub record State : Type 0 where
  pub classes : List SchoolClass
  pub periods : List Period
  pub topics : List SyllabusTopic
  pub plans : List LessonPlan

abbrev pub classes_table : Table State SchoolClass
classes_table = record { get = λ s. s.classes; put = λ s rows. record s { classes = rows } }

abbrev pub periods_table : Table State Period
periods_table = record { get = λ s. s.periods; put = λ s rows. record s { periods = rows } }

abbrev pub topics_table : Table State SyllabusTopic
topics_table = record { get = λ s. s.topics; put = λ s rows. record s { topics = rows } }

abbrev pub plans_table : Table State LessonPlan
plans_table = record { get = λ s. s.plans; put = λ s rows. record s { plans = rows } }

-- The place of a status in the enumeration, by which two are compared.
unfoldable pub status_index : SyllabusTopicStatus → ℕ
status_index not_started = 0
status_index in_progress = 1
status_index completed = 2

abbrev pub is_completed : SyllabusTopicStatus → Bool
is_completed status = status_index status == status_index completed

-- The primary key, and the unique index on (classId, subject, term, title).
abbrev pub topic_clashes : SyllabusTopic → SyllabusTopic → Bool
topic_clashes x y =
    y.id == x.id
    || (y.class_id == x.class_id
        && (y.subject == x.subject && (y.term == x.term && y.title == x.title)))

abbrev pub plan_clashes : LessonPlan → LessonPlan → Bool
plan_clashes x y = y.id == x.id

abbrev pub in_group : (school_id class_id subject term : ℕ) → SyllabusTopic → Bool
in_group school_id class_id subject term t =
    t.school_id == school_id && (t.class_id == class_id && (t.subject == subject && t.term == term))

abbrev pub new_topic :
    (school_id created_by sort_order : ℕ) → AddSyllabusTopicsInput → TopicInput → SyllabusTopic
new_topic school_id created_by sort_order input topic = record {
  id = topic.id;
  school_id = school_id;
  class_id = input.class_id;
  subject = input.subject;
  term = input.term;
  title = topic.title;
  description = topic.description;
  sort_order = sort_order;
  status = not_started;
  planned_for_date = topic.planned_for_date;
  completed_on = none;
  created_by_user_id = created_by;
}

-- The date of completion that goes with a new status, if it changes.
abbrev pub completion : ℕ → SyllabusTopicStatus → Option SyllabusTopicStatus → Option ℕ → Option ℕ
completion now old none date = date
completion now old (some status) date =
    if status_index status == status_index old
    then date
    else if is_completed status
    then some now
    else none

-- The `data` of an update, for a topic that was read with the status `old`.
abbrev pub edit_topic :
    ℕ → SyllabusTopicStatus → UpdateSyllabusTopicInput → SyllabusTopic → SyllabusTopic
edit_topic now old input t = record t {
  title = or_else input.title t.title;
  description = or_else input.description t.description;
  status = or_else input.status t.status;
  planned_for_date = or_else input.planned_for_date t.planned_for_date;
  sort_order = or_else input.sort_order t.sort_order;
  completed_on = completion now old input.status t.completed_on;
}

abbrev pub new_plan : (school_id teacher id : ℕ) → UpsertLessonPlanInput → LessonPlan
new_plan school_id teacher id input = record {
  id = id;
  school_id = school_id;
  class_id = input.class_id;
  subject = input.subject;
  topic_id = input.topic_id;
  title = input.title;
  objectives = input.objectives;
  activities = input.activities;
  resources = input.resources;
  date = input.date;
  period_id = input.period_id;
  teacher_user_id = teacher;
}

abbrev pub edit_plan : UpsertLessonPlanInput → LessonPlan → LessonPlan
edit_plan input p = record p {
  class_id = input.class_id;
  subject = input.subject;
  topic_id = input.topic_id;
  title = input.title;
  objectives = input.objectives;
  activities = input.activities;
  resources = input.resources;
  date = input.date;
  period_id = input.period_id;
}

-- What the foreign key of a plan does when its topic is deleted: SET NULL.
abbrev pub unpin : LessonPlan → LessonPlan
unpin p = record p { topic_id = none }

-- The topic that a plan may point at.
abbrev pub is_target : (school_id id : ℕ) → UpsertLessonPlanInput → SyllabusTopic → Bool
is_target school_id id input t =
    t.id == id
    && (t.school_id == school_id && (t.class_id == input.class_id && t.subject == input.subject))
