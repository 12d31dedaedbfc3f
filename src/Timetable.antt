-- ===== src/Timetable.antt =====
-- Timetables: `apps/api/src/timetable/timetable.service.ts` and the types of
-- `packages/types/src/timetable.ts`. Subjects and rooms are only compared, so they are numbers (a
-- room that is given has a name); a time of day is minutes from midnight.
pub mod Grid
pub mod Booking
pub mod Weeks
mod Tests
use skolara.Prelude.{
  ℕ, String, Bool, true, false, not, ◌&&◌, ◌||◌, List, [], ◌∷◌, ◌++◌, Option, none, some, ◌==◌,
  same_some, holds, filter_by, In,
}
use skolara.Prelude.Action.{
  Action, Exception, ok, err, conflict, not_found, unique_violation, record_missing, ◌>>=◌, ◌>>◌,
  pure, raise, raise_if, only_if,
}
use skolara.Store.{Prisma, Table, no_clash, find_or, insert_or, delete_many, update}
use skolara.Auth.{Role, super_admin, school_admin, teacher, parent, student}

pub data DayOfWeek : Type 0 where
  monday tuesday wednesday thursday friday saturday sunday : DayOfWeek

pub record Period : Type 0 where
  pub id : ℕ
  pub school_id : ℕ
  pub name : ℕ
  pub start_time : ℕ
  pub end_time : ℕ
  pub sort_order : ℕ

pub record TimetableEntry : Type 0 where
  pub id : ℕ
  pub school_id : ℕ
  pub class_id : ℕ
  pub period_id : ℕ
  pub day_of_week : DayOfWeek
  pub subject : ℕ
  pub teacher_user_id : ℕ
  pub room : Option ℕ

pub record SchoolClass : Type 0 where
  pub id : ℕ
  pub school_id : ℕ

pub record User : Type 0 where
  pub id : ℕ
  pub school_id : Option ℕ
  pub role : Role

pub record State : Type 0 where
  pub periods : List Period
  pub entries : List TimetableEntry
  pub classes : List SchoolClass
  pub users : List User

pub record CreatePeriodInput : Type 0 where
  pub name : ℕ
  pub start_time : ℕ
  pub end_time : ℕ
  pub sort_order : ℕ

pub record UpsertTimetableEntryInput : Type 0 where
  pub class_id : ℕ
  pub period_id : ℕ
  pub day_of_week : DayOfWeek
  pub subject : ℕ
  pub teacher_user_id : ℕ
  pub room : Option ℕ

pub data TimetableConflictKind : Type 0 where
  teacher_clash room_clash : TimetableConflictKind

pub record TimetableConflict : Type 0 where
  pub kind : TimetableConflictKind
  pub conflicts_with : TimetableEntry

abbrev pub periods_table : Table State Period
periods_table = record { get = λ s. s.periods; put = λ s rows. record s { periods = rows } }

abbrev pub entries_table : Table State TimetableEntry
entries_table = record { get = λ s. s.entries; put = λ s rows. record s { entries = rows } }

abbrev pub classes_table : Table State SchoolClass
classes_table = record { get = λ s. s.classes; put = λ s rows. record s { classes = rows } }

abbrev pub users_table : Table State User
users_table = record { get = λ s. s.users; put = λ s rows. record s { users = rows } }

pub day_number : DayOfWeek → ℕ
day_number monday = 1
day_number tuesday = 2
day_number wednesday = 3
day_number thursday = 4
day_number friday = 5
day_number saturday = 6
day_number sunday = 7

abbrev pub is_teacher : Role → Bool
is_teacher teacher = true
is_teacher _ = false

-- The cell of the week: a day and a period.
abbrev pub is_slot : ℕ → DayOfWeek → TimetableEntry → Bool
is_slot period_id day e = day_number e.day_of_week == day_number day && e.period_id == period_id

abbrev pub is_class_slot : ℕ → ℕ → DayOfWeek → TimetableEntry → Bool
is_class_slot class_id period_id day e = e.class_id == class_id && is_slot period_id day e

-- The unique indexes: (classId, dayOfWeek, periodId), (teacherUserId, dayOfWeek, periodId), and
-- (schoolId, room, dayOfWeek, periodId) over the rows that name a room; and the primary key.
abbrev pub double_books : TimetableEntry → TimetableEntry → Bool
double_books x y =
    is_slot x.period_id x.day_of_week y
    && (y.class_id == x.class_id
        || (y.teacher_user_id == x.teacher_user_id
            || y.school_id == x.school_id && same_some x.room y.room))

abbrev pub entry_clashes : TimetableEntry → TimetableEntry → Bool
entry_clashes x y = y.id == x.id || double_books x y

-- The primary key, and the unique index on (schoolId, name).
abbrev pub period_clashes : Period → Period → Bool
period_clashes x y = y.id == x.id || y.school_id == x.school_id && y.name == x.name

abbrev pub new_period : ℕ → ℕ → CreatePeriodInput → Period
new_period school_id id input = record {
  id = id;
  school_id = school_id;
  name = input.name;
  start_time = input.start_time;
  end_time = input.end_time;
  sort_order = input.sort_order;
}

abbrev pub new_entry : ℕ → ℕ → UpsertTimetableEntryInput → TimetableEntry
new_entry school_id id input = record {
  id = id;
  school_id = school_id;
  class_id = input.class_id;
  period_id = input.period_id;
  day_of_week = input.day_of_week;
  subject = input.subject;
  teacher_user_id = input.teacher_user_id;
  room = input.room;
}

-- The `update` of the upsert.
abbrev pub replace : UpsertTimetableEntryInput → TimetableEntry → TimetableEntry
replace input e = record e {
  subject = input.subject;
  teacher_user_id = input.teacher_user_id;
  room = input.room;
}

-- The rows that clash, but for the class's own, which the upsert overwrites.
abbrev pub is_teacher_clash : ℕ → UpsertTimetableEntryInput → TimetableEntry → Bool
is_teacher_clash school_id input e =
    e.school_id == school_id
    && (is_slot input.period_id input.day_of_week e
        && (not (e.class_id == input.class_id) && e.teacher_user_id == input.teacher_user_id))

abbrev pub is_room_clash : ℕ → UpsertTimetableEntryInput → ℕ → TimetableEntry → Bool
is_room_clash school_id input room e =
    e.school_id == school_id
    && (is_slot input.period_id input.day_of_week e
        && (not (e.class_id == input.class_id) && holds e.room room))

abbrev pub conflict_of : TimetableConflictKind → Option TimetableEntry → List TimetableConflict
conflict_of kind none = []
conflict_of kind (some e) = record { kind = kind; conflicts_with = e } ∷ []

-- `conflictError`: the message of the first conflict.
abbrev pub conflict_error : List TimetableConflict → Exception
conflict_error [] = conflict "That slot is already taken"
conflict_error (c ∷ _) = elim c.kind [
  | teacher_clash ↦ conflict "${who} already teaches ${subject} to ${class} in this slot"
  | room_clash ↦ conflict "Room ${room} is already used by ${class} in this slot"
]

module _ (db : Prisma) where
  pub create_period : (school_id id : ℕ) → CreatePeriodInput → Action State Period
  create_period school_id id input =
      insert_or db periods_table period_clashes (new_period school_id id input) unique_violation

  -- The entries of the period cascade.
  pub delete_period : (school_id id : ℕ) → Action State (Unit {0})
  delete_period school_id id = do
    _ ←
        find_or db periods_table (λ p. p.id == id && p.school_id == school_id)
          (not_found "Period not found")
    delete_many db entries_table (λ e. e.period_id == id)
    delete_many db periods_table (λ p. p.id == id)

  pub assert_slot_belongs_to_school :
      (school_id : ℕ) → UpsertTimetableEntryInput → Action State (Unit {0})
  assert_slot_belongs_to_school school_id input = do
    _ ←
        find_or db classes_table (λ c. c.id == input.class_id && c.school_id == school_id)
          (not_found "Class not found")
    _ ←
        find_or db periods_table (λ p. p.id == input.period_id && p.school_id == school_id)
          (not_found "Period not found")
    _ ←
        find_or db users_table
          (λ u. u.id == input.teacher_user_id && (holds u.school_id school_id && is_teacher u.role))
          (not_found "Teacher not found")
    pure tt

  pub find_conflicts : ℕ → UpsertTimetableEntryInput → State → List TimetableConflict
  find_conflicts school_id input s =
      conflict_of teacher_clash (db.find_first (is_teacher_clash school_id input) s.entries)
      ++ conflict_of room_clash (elim input.room [
        | none ↦ none
        | some room ↦ db.find_first (is_room_clash school_id input room) s.entries
      ])

  -- The `upsert` on (classId, dayOfWeek, periodId), and what becomes of a P2002.
  pub write_entry : (school_id id : ℕ) → UpsertTimetableEntryInput → Action State (Unit {0})
  unfolding find_conflicts
  write_entry school_id id input s =
      let own = is_class_slot input.class_id input.period_id input.day_of_week in
      elim (db.find_first own s.entries) [
        | some e ↦ elim (db.update_unique (no_clash entry_clashes) own (replace input) s.entries) [
          | none ↦ raise (conflict_error (find_conflicts school_id input s)) s
          | some (n, rows) ↦ (ok tt, record s { entries = rows })
        ]
        | none ↦ elim (db.create entry_clashes (new_entry school_id id input) s.entries) [
          | none ↦ raise (conflict_error (find_conflicts school_id input s)) s
          | some rows ↦ (ok tt, record s { entries = rows })
        ]
      ]

  pub upsert_entry : (school_id id : ℕ) → UpsertTimetableEntryInput → Action State (Unit {0})
  unfolding assert_slot_belongs_to_school find_conflicts write_entry
  upsert_entry school_id id input = do
    assert_slot_belongs_to_school school_id input
    (λ s. elim (find_conflicts school_id input s) [
      | [] ↦ (ok tt, s)
      | c ∷ cs ↦ (err (conflict_error (c ∷ cs)), s)
    ])
    write_entry school_id id input

  pub delete_entry : (school_id id : ℕ) → Action State (Unit {0})
  delete_entry school_id id = do
    _ ←
        find_or db entries_table (λ e. e.id == id && e.school_id == school_id)
          (not_found "Timetable entry not found")
    delete_many db entries_table (λ e. e.id == id)
