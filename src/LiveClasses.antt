-- ===== src/LiveClasses.antt =====
-- Live classes: `apps/api/src/live-classes/live-classes.service.ts` and the types of
-- `packages/types/src/live-classes.ts`. Times are time stamps in milliseconds.
pub mod Window
mod Tests
use skolara.Prelude.{
  ℕ, ◌-◌, ◌*◌, String, Bool, true, false, not, ◌&&◌, ◌||◌, List, [], ◌∷◌, Option, none, some, ◌==◌,
  leb, ltb, map, holds, if◌then◌else◌,
}
use skolara.Prelude.Action.{Action, ok, err, conflict, not_found, ◌>>=◌, ◌>>◌, pure}
use skolara.Store.{Prisma, Table, no_clash, find_or, insert_or, update_or, delete_many}

pub record LiveClass : Type 0 where
  pub id : ℕ
  pub school_id : ℕ
  pub class_id : ℕ
  pub subject : String
  pub title : String
  pub meeting_url : String
  pub starts_at : ℕ
  pub ends_at : ℕ
  pub host_user_id : ℕ

pub record SchoolClass : Type 0 where
  pub id : ℕ
  pub school_id : ℕ

pub record StudentProfile : Type 0 where
  pub id : ℕ
  pub school_id : ℕ
  pub class_id : Option ℕ

pub record State : Type 0 where
  pub sessions : List LiveClass
  pub classes : List SchoolClass
  pub students : List StudentProfile

pub record UpsertLiveClassInput : Type 0 where
  pub class_id : ℕ
  pub subject : String
  pub title : String
  pub meeting_url : String
  pub starts_at : ℕ
  pub ends_at : ℕ

pub record JoinableLiveClass : Type 0 where
  pub id : ℕ
  pub class_id : ℕ
  pub subject : String
  pub title : String
  pub starts_at : ℕ
  pub ends_at : ℕ
  pub host_user_id : ℕ
  pub meeting_url : Option String
  pub joinable : Bool
  pub joinable_from : ℕ

abbrev pub sessions_table : Table State LiveClass
sessions_table = record { get = λ s. s.sessions; put = λ s rows. record s { sessions = rows } }

abbrev pub classes_table : Table State SchoolClass
classes_table = record { get = λ s. s.classes; put = λ s rows. record s { classes = rows } }

abbrev pub students_table : Table State StudentProfile
students_table = record { get = λ s. s.students; put = λ s rows. record s { students = rows } }

-- Ten minutes.
abbrev pub live_class_join_lead_minutes : ℕ
live_class_join_lead_minutes = 10

-- The primary key, and the unique index on (classId, startsAt).
abbrev pub session_clashes : LiveClass → LiveClass → Bool
session_clashes x y = y.id == x.id || y.class_id == x.class_id && y.starts_at == x.starts_at

abbrev pub new_session : (school_id host id : ℕ) → UpsertLiveClassInput → LiveClass
new_session school_id host id input = record {
  id = id;
  school_id = school_id;
  class_id = input.class_id;
  subject = input.subject;
  title = input.title;
  meeting_url = input.meeting_url;
  starts_at = input.starts_at;
  ends_at = input.ends_at;
  host_user_id = host;
}

abbrev pub edit_session : UpsertLiveClassInput → LiveClass → LiveClass
edit_session input l = record l {
  class_id = input.class_id;
  subject = input.subject;
  title = input.title;
  meeting_url = input.meeting_url;
  starts_at = input.starts_at;
  ends_at = input.ends_at;
}

-- A session of the class of that school that has not ended.
abbrev pub is_ahead : (school_id class_id now : ℕ) → LiveClass → Bool
is_ahead school_id class_id now l =
    l.school_id == school_id && (l.class_id == class_id && leb now l.ends_at)

-- What a student is told of a session.
abbrev pub joinable_class : ℕ → LiveClass → JoinableLiveClass
joinable_class now l =
    let joinable_from = l.starts_at - live_class_join_lead_minutes * 60000 in
    let joinable = leb joinable_from now && ltb now l.ends_at in
    record {
      id = l.id;
      class_id = l.class_id;
      subject = l.subject;
      title = l.title;
      starts_at = l.starts_at;
      ends_at = l.ends_at;
      host_user_id = l.host_user_id;
      meeting_url = if joinable then some l.meeting_url else none;
      joinable = joinable;
      joinable_from = joinable_from;
    }

module _ (db : Prisma) where
  pub own_session : (school_id id : ℕ) → Action State LiveClass
  own_session school_id id =
      find_or db sessions_table (λ l. l.id == id && l.school_id == school_id)
        (not_found "Live class not found")

  pub assert_class : (school_id class_id : ℕ) → Action State (Unit {0})
  assert_class school_id class_id = do
    _ ←
        find_or db classes_table (λ c. c.id == class_id && c.school_id == school_id)
          (not_found "Class not found")
    pure tt

  pub create : (school_id host id : ℕ) → UpsertLiveClassInput → Action State LiveClass
  unfolding assert_class
  create school_id host id input = do
    assert_class school_id input.class_id
    insert_or db sessions_table session_clashes (new_session school_id host id input)
        (conflict "This class already has a live lesson starting at that time")

  pub update : (school_id id : ℕ) → UpsertLiveClassInput → Action State (Unit {0})
  unfolding own_session assert_class
  update school_id id input = do
    _ ← own_session school_id id
    assert_class school_id input.class_id
    update_or db sessions_table (no_clash session_clashes) (λ l. l.id == id) (edit_session input)
        (conflict "This class already has a live lesson starting at that time")

  pub remove : (school_id id : ℕ) → Action State (Unit {0})
  unfolding own_session
  remove school_id id = do
    _ ← own_session school_id id
    delete_many db sessions_table (λ l. l.id == id)

  -- `asked` is the time of the query, `now` that of the answer.
  pub find_for_student :
      (school_id student_id asked now : ℕ) → Action State (List JoinableLiveClass)
  find_for_student school_id student_id asked now = do
    student ←
        find_or db students_table (λ p. p.id == student_id && p.school_id == school_id)
          (not_found "Student not found")
    elim student.class_id [
      | none ↦ pure []
      | some class_id ↦ λ s. (
        ok (
            map (joinable_class now)
              (db.find_many (is_ahead school_id class_id asked) (λ l. l.starts_at) s.sessions)),
        s,
      )
    ]
