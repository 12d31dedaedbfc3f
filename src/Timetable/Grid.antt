-- ===== src/Timetable/Grid.antt =====
-- The timetable as a class sees it: at most one lesson in each cell of its week.
use skolara.Prelude.{
  ℕ, ◌≡◌, Bool, true, not, ◌&&◌, List, [], ◌∷◌, Option, none, some, arith, ◌==◌, update_by,
  filter_by, any, inl, inr, Option-cases, Bool-cases, if◌then◌else◌, any_of_In,
}
use skolara.Prelude.Action.{ok}
use skolara.Store.{Prisma, found_row, no_clash, update_by-none}
use skolara.Timetable.{
  DayOfWeek, Period, TimetableEntry, State, UpsertTimetableEntryInput, day_number, is_class_slot,
  entry_clashes, new_entry, replace, upsert_entry, write_entry, assert_slot_belongs_to_school,
  delete_period,
}

pub record Lesson : Type 0 where
  pub subject : ℕ
  pub teacher_user_id : ℕ
  pub room : Option ℕ

abbrev pub lesson_of : TimetableEntry → Lesson
lesson_of e = record { subject = e.subject; teacher_user_id = e.teacher_user_id; room = e.room }

abbrev pub lesson_of_input : UpsertTimetableEntryInput → Lesson
lesson_of_input input = record {
  subject = input.subject;
  teacher_user_id = input.teacher_user_id;
  room = input.room;
}

-- What the class is taught in that cell.
abbrev pub lesson_at : (class_id period_id : ℕ) → DayOfWeek → List TimetableEntry → Option Lesson
lesson_at class_id period_id day [] = none
lesson_at class_id period_id day (e ∷ entries) =
    if is_class_slot class_id period_id day e
    then some (lesson_of e)
    else lesson_at class_id period_id day entries

-- The cell that an input is about.
abbrev pub is_cell : UpsertTimetableEntryInput → (class_id period_id : ℕ) → DayOfWeek → Bool
is_cell input class_id period_id day =
    input.class_id == class_id
    && (day_number input.day_of_week == day_number day && input.period_id == period_id)

lesson_at-replace :
    (input : UpsertTimetableEntryInput) (class_id period_id : ℕ) (day : DayOfWeek)
    (entries : List TimetableEntry)
    → any (is_class_slot input.class_id input.period_id input.day_of_week) entries ≡ true
    → lesson_at class_id period_id day (
        update_by
          (is_class_slot input.class_id input.period_id input.day_of_week)
          (replace input)
          entries)
      ≡ (if is_cell input class_id period_id day
          then some (lesson_of_input input)
          else lesson_at class_id period_id day entries)
lesson_at-replace input class_id period_id day [] h = cc
lesson_at-replace input class_id period_id day (e ∷ entries) h =
    let own = is_class_slot input.class_id input.period_id input.day_of_week in
    elim (Bool-cases (any own entries)) [
      | inl k ↦ ground (arith, k, lesson_at-replace input class_id period_id day entries k)
      | inr k ↦ ground (arith, k, h, update_by-none own (replace input) entries k)
    ]

lesson_at-filter_by :
    (id class_id period_id : ℕ) (day : DayOfWeek) (entries : List TimetableEntry)
    → lesson_at class_id period_id day (filter_by (λ e. not (e.period_id == id)) entries)
      ≡ (if period_id == id then none else lesson_at class_id period_id day entries)
lesson_at-filter_by id class_id period_id day [] = ground arith
lesson_at-filter_by id class_id period_id day (e ∷ entries) =
    ground (arith, lesson_at-filter_by id class_id period_id day entries)

module _ (db : Prisma) where
  -- A deletion of a period that answers takes the lessons in it out of every class's week, and
  -- leaves every other cell as it is.
  pub delete_period-lem :
      (school_id id : ℕ) (s : State) (class_id period_id : ℕ) (day : DayOfWeek)
      → (delete_period db school_id id s).0 ≡ ok tt
      → lesson_at class_id period_id day (delete_period db school_id id s).1.entries
        ≡ (if period_id == id then none else lesson_at class_id period_id day s.entries)
  unfolding delete_period
  delete_period-lem school_id id s class_id period_id day e =
      let own = λ (p : Period). p.id == id && p.school_id == school_id in
      elim (Option-cases (db.find_first own s.periods)) [
        | inl f ↦ ground (arith, e, f)
        | inr (p, f) ↦ ground (
          arith,
          e,
          f,
          db.delete_many_lem (λ (e : TimetableEntry). e.period_id == id) s.entries,
          lesson_at-filter_by id class_id period_id day s.entries,
        )
      ]

  write_entry-lem :
      (school_id id : ℕ) (input : UpsertTimetableEntryInput) (s : State) (class_id period_id : ℕ)
      (day : DayOfWeek)
      → (write_entry db school_id id input s).0 ≡ ok tt
      → lesson_at class_id period_id day (write_entry db school_id id input s).1.entries ≡ (
          if is_cell input class_id period_id day
          then some (lesson_of_input input)
          else lesson_at class_id period_id day s.entries)
  unfolding write_entry
  write_entry-lem school_id id input s class_id period_id day e =
      let own = is_class_slot input.class_id input.period_id input.day_of_week in
      let clash_free = no_clash entry_clashes in
      elim (Option-cases (db.find_first own s.entries)) [
        | inl f ↦
            ground
              (arith, e, f, db.create_lem entry_clashes (new_entry school_id id input) s.entries)
        | inr (x, f) ↦
            let (m, q) = found_row db own s.entries f in
            ground (
              arith,
              e,
              f,
              db.update_unique_lem clash_free own (replace input) s.entries,
              lesson_at-replace input class_id period_id day s.entries
                  (any_of_In own s.entries x m q),
            )
      ]

  -- An upsert that answers is the update of one cell of the timetable as classes see it: in the
  -- week of the class of the input, the cell of its day and period has the lesson of the input,
  -- whatever was there, and every other cell of every week is as it was.
  pub upsert_entry-lem :
      (school_id id : ℕ) (input : UpsertTimetableEntryInput) (s : State) (class_id period_id : ℕ)
      (day : DayOfWeek)
      → (upsert_entry db school_id id input s).0 ≡ ok tt
      → lesson_at class_id period_id day (upsert_entry db school_id id input s).1.entries ≡ (
          if is_cell input class_id period_id day
          then some (lesson_of_input input)
          else lesson_at class_id period_id day s.entries)
  unfolding upsert_entry assert_slot_belongs_to_school
  upsert_entry-lem school_id id input s class_id period_id day e =
      ground (arith, e, write_entry-lem school_id id input s class_id period_id day)
