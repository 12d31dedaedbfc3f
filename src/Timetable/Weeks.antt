-- ===== src/Timetable/Weeks.antt =====
-- The timetable service as a whole: any request of the school's staff.
use skolara.Prelude.{
  ℕ, ◌≡◌, refl, Bool, true, false, not, ◌&&◌, List, [], ◌∷◌, arith, ◌==◌, update_by, filter_by, any,
  inl, inr, Option-cases, any_of_In,
}
use skolara.Store.{Prisma, found_row, no_clash, no_clash-filter_by}
use skolara.Timetable.{
  Period, TimetableEntry, State, CreatePeriodInput, UpsertTimetableEntryInput, is_class_slot,
  entry_clashes, period_clashes, new_period, new_entry, replace, create_period, delete_period,
  upsert_entry, write_entry, delete_entry, assert_slot_belongs_to_school,
}

pub data Request : Type 0 where
  add_period : (school_id id : ℕ) → CreatePeriodInput → Request
  drop_period : (school_id id : ℕ) → Request
  place_lesson : (school_id id : ℕ) → UpsertTimetableEntryInput → Request
  drop_lesson : (school_id id : ℕ) → Request

-- What the service leaves behind it.
pub serve : Prisma → Request → State → State
serve db (add_period school_id id input) s = (create_period db school_id id input s).1
serve db (drop_period school_id id) s = (delete_period db school_id id s).1
serve db (place_lesson school_id id input) s = (upsert_entry db school_id id input s).1
serve db (drop_lesson school_id id) s = (delete_entry db school_id id s).1

-- The lesson stands in a period of its school.
abbrev pub is_placed : List Period → TimetableEntry → Bool
is_placed periods e = any (λ p. p.id == e.period_id && p.school_id == e.school_id) periods

abbrev pub all_placed : List Period → List TimetableEntry → Bool
all_placed periods [] = true
all_placed periods (e ∷ entries) = is_placed periods e && all_placed periods entries

-- No class, teacher or room is in two lessons at a time, and lessons stand in their school's periods.
pub record IsTimetable (s : State) : Type 0 where
  pub single : no_clash entry_clashes s.entries ≡ true
  pub placed : all_placed s.periods s.entries ≡ true

is_placed-filter_by :
    (id : ℕ) (periods : List Period) (e : TimetableEntry)
    → (e.period_id == id) ≡ false
    → is_placed periods e ≡ true
    → is_placed (filter_by (λ p. not (p.id == id)) periods) e ≡ true
is_placed-filter_by id [] e h p = cc
is_placed-filter_by id (x ∷ periods) e h p = ground (arith, is_placed-filter_by id periods e h)

all_placed-update_by :
    (periods : List Period) (p : TimetableEntry → Bool) (input : UpsertTimetableEntryInput)
    (entries : List TimetableEntry)
    → all_placed periods entries ≡ true
    → all_placed periods (update_by p (replace input) entries) ≡ true
all_placed-update_by periods p input [] h = refl
all_placed-update_by periods p input (e ∷ entries) h =
    ground (arith, all_placed-update_by periods p input entries)

all_placed-cons :
    (row : Period) (periods : List Period) (entries : List TimetableEntry)
    → all_placed periods entries ≡ true
    → all_placed (row ∷ periods) entries ≡ true
all_placed-cons row periods [] h = refl
all_placed-cons row periods (e ∷ entries) h = ground (arith, all_placed-cons row periods entries)

all_placed-filter_by :
    (periods : List Period) (p : TimetableEntry → Bool) (entries : List TimetableEntry)
    → all_placed periods entries ≡ true
    → all_placed periods (filter_by p entries) ≡ true
all_placed-filter_by periods p [] h = refl
all_placed-filter_by periods p (e ∷ entries) h =
    ground (arith, all_placed-filter_by periods p entries)

all_placed-drop :
    (id : ℕ) (periods : List Period) (entries : List TimetableEntry)
    → all_placed periods entries ≡ true
    → all_placed
        (filter_by (λ p. not (p.id == id)) periods)
        (filter_by (λ e. not (e.period_id == id)) entries)
      ≡ true
all_placed-drop id periods [] h = refl
all_placed-drop id periods (e ∷ entries) h =
    ground (arith, all_placed-drop id periods entries, is_placed-filter_by id periods e)

module _ (db : Prisma) where
  write_entry-IsTimetable :
      (school_id id : ℕ) (input : UpsertTimetableEntryInput) (s : State)
      → is_placed s.periods (new_entry school_id id input) ≡ true
      → IsTimetable s
      → IsTimetable (write_entry db school_id id input s).1
  unfolding write_entry
  write_entry-IsTimetable school_id id input s p v =
      let own = is_class_slot input.class_id input.period_id input.day_of_week in
      elim (Option-cases (db.find_first own s.entries)) [
        | inl e ↦
            ground
              (arith, e, p, v, db.create_lem entry_clashes (new_entry school_id id input) s.entries)
        | inr (x, e) ↦ ground (
          arith,
          e,
          v,
          db.update_unique_lem (no_clash entry_clashes) own (replace input) s.entries,
          all_placed-update_by s.periods own input s.entries v.placed,
        )
      ]

  place-IsTimetable :
      (school_id id : ℕ) (input : UpsertTimetableEntryInput) (s : State)
      → IsTimetable s
      → IsTimetable (upsert_entry db school_id id input s).1
  unfolding upsert_entry assert_slot_belongs_to_school
  place-IsTimetable school_id id input s v =
      let own = λ (p : Period). p.id == input.period_id && p.school_id == school_id in
      elim (Option-cases (db.find_first own s.periods)) [
        | inl e ↦ ground (arith, e, v)
        | inr (p, e) ↦
            let (m, q) = found_row db own s.periods e in
            ground (
              arith,
              e,
              v,
              write_entry-IsTimetable school_id id input s (any_of_In own s.periods p m q) v,
            )
      ]

  add_period-IsTimetable :
      (school_id id : ℕ) (input : CreatePeriodInput) (s : State)
      → IsTimetable s
      → IsTimetable (create_period db school_id id input s).1
  unfolding create_period
  add_period-IsTimetable school_id id input s v =
      let row = new_period school_id id input in
      ground (
        arith,
        v,
        db.create_lem period_clashes row s.periods,
        all_placed-cons row s.periods s.entries v.placed,
      )

  drop_period-IsTimetable :
      (school_id id : ℕ) (s : State)
      → IsTimetable s
      → IsTimetable (delete_period db school_id id s).1
  unfolding delete_period
  drop_period-IsTimetable school_id id s v =
      let stays = λ (e : TimetableEntry). not (e.period_id == id) in
      ground (
        arith,
        v,
        db.delete_many_lem (λ (e : TimetableEntry). e.period_id == id) s.entries,
        db.delete_many_lem (λ (p : Period). p.id == id) s.periods,
        no_clash-filter_by entry_clashes stays s.entries v.single,
        all_placed-drop id s.periods s.entries v.placed,
      )

  drop_lesson-IsTimetable :
      (school_id id : ℕ) (s : State)
      → IsTimetable s
      → IsTimetable (delete_entry db school_id id s).1
  unfolding delete_entry
  drop_lesson-IsTimetable school_id id s v =
      let stays = λ (e : TimetableEntry). not (e.id == id) in
      ground (
        arith,
        v,
        db.delete_many_lem (λ (e : TimetableEntry). e.id == id) s.entries,
        no_clash-filter_by entry_clashes stays s.entries v.single,
        all_placed-filter_by s.periods stays s.entries v.placed,
      )

  -- Every request to the timetable service keeps every class, teacher and room out of two lessons
  -- at a time, and every lesson in a period of its school.
  pub serve-IsTimetable : (q : Request) (s : State) → IsTimetable s → IsTimetable (serve db q s)
  unfolding serve
  serve-IsTimetable (add_period school_id id input) s v =
      add_period-IsTimetable school_id id input s v
  serve-IsTimetable (drop_period school_id id) s v = drop_period-IsTimetable school_id id s v
  serve-IsTimetable (place_lesson school_id id input) s v = place-IsTimetable school_id id input s v
  serve-IsTimetable (drop_lesson school_id id) s v = drop_lesson-IsTimetable school_id id s v
