-- ===== src/Timetable/Booking.antt =====
-- The two checks of `upsertEntry`: what the first finds nothing against, the unique indexes allow.
use skolara.Prelude.{
  ℕ, ◌≡◌, refl, Bool, true, false, not, ◌&&◌, List, [], ◌∷◌, none, some, arith, ◌==◌, any, any-In,
  inl, inr, Option-cases, Bool-cases, if◌then◌else◌,
}
use skolara.Prelude.Action.{ok}
use skolara.Store.{Prisma, missing_row, no_clash, no_clash-update_by_on}
use skolara.Timetable.{
  TimetableEntry, State, UpsertTimetableEntryInput, is_class_slot, double_books, entry_clashes,
  is_teacher_clash, is_room_clash, new_entry, replace, upsert_entry, write_entry, find_conflicts,
  assert_slot_belongs_to_school,
}

-- Another class has the teacher or the room of the input in its slot.
abbrev pub is_blocked : ℕ → UpsertTimetableEntryInput → TimetableEntry → Bool
is_blocked school_id input e =
    not (e.class_id == input.class_id) && double_books (new_entry school_id 0 input) e

-- The entry stands in the period of the input, and is not the school's.
abbrev pub is_foreign : ℕ → UpsertTimetableEntryInput → TimetableEntry → Bool
is_foreign school_id input e = e.period_id == input.period_id && not (e.school_id == school_id)

room_clear :
    (school_id : ℕ) (input : UpsertTimetableEntryInput) (entries : List TimetableEntry)
    → (room : ℕ) → input.room ≡ some room
    → any (is_foreign school_id input) entries ≡ false
    → any (is_teacher_clash school_id input) entries ≡ false
    → any (is_room_clash school_id input room) entries ≡ false
    → any (is_blocked school_id input) entries ≡ false
room_clear school_id input [] room e f a b = refl
room_clear school_id input (x ∷ entries) room e f a b =
    ground (arith, e, room_clear school_id input entries room e)

roomless_clear :
    (school_id : ℕ) (input : UpsertTimetableEntryInput) (entries : List TimetableEntry)
    → input.room ≡ none
    → any (is_foreign school_id input) entries ≡ false
    → any (is_teacher_clash school_id input) entries ≡ false
    → any (is_blocked school_id input) entries ≡ false
roomless_clear school_id input [] e f a = refl
roomless_clear school_id input (x ∷ entries) e f a =
    ground (arith, e, roomless_clear school_id input entries e)

new_is_clear :
    (school_id id : ℕ) (input : UpsertTimetableEntryInput) (entries : List TimetableEntry)
    → any (λ e. e.id == id) entries ≡ false
    → any (is_blocked school_id input) entries ≡ false
    → any (is_class_slot input.class_id input.period_id input.day_of_week) entries ≡ false
    → any (entry_clashes (new_entry school_id id input)) entries ≡ false
new_is_clear school_id id input [] f b o = refl
new_is_clear school_id id input (x ∷ entries) f b o =
    ground (arith, new_is_clear school_id id input entries)

-- A lesson that replaces the class's own clashes with nothing that the old one did not.
replaced_is_clear :
    (school_id : ℕ) (input : UpsertTimetableEntryInput) (x y : TimetableEntry)
    → is_foreign school_id input x ≡ false
    → is_foreign school_id input y ≡ false
    → is_blocked school_id input x ≡ false
    → is_blocked school_id input y ≡ false
    → entry_clashes x y ≡ false
    → let own = is_class_slot input.class_id input.period_id input.day_of_week in
      entry_clashes (if own x then replace input x else x) (if own y then replace input y else y)
      ≡ false
replaced_is_clear school_id input x y fx fy bx by c =
    let own = is_class_slot input.class_id input.period_id input.day_of_week in
    elim (Bool-cases (own x)) [
      | inl p ↦ elim (Bool-cases (own y)) [
        | inl q ↦ ground (arith, p, q, c)
        | inr q ↦ ground (arith, p, q, c, fx, fy, by)
      ]
      | inr p ↦ elim (Bool-cases (own y)) [
        | inl q ↦ ground (arith, p, q, c, fx, fy, bx)
        | inr q ↦ ground (arith, p, q, c)
      ]
    ]

module _ (db : Prisma) where
  clear_of_conflicts :
      (school_id : ℕ) (input : UpsertTimetableEntryInput) (s : State)
      → any (is_foreign school_id input) s.entries ≡ false
      → find_conflicts db school_id input s ≡ []
      → any (is_blocked school_id input) s.entries ≡ false
  unfolding find_conflicts
  clear_of_conflicts school_id input s f n =
      let taken = is_teacher_clash school_id input in
      elim (Option-cases (db.find_first taken s.entries)) [
        | inr (t, e) ↦ ground (arith, e, n)
        | inl e ↦ elim (Option-cases input.room) [
          | inl r ↦ roomless_clear school_id input s.entries r f (missing_row db taken s.entries e)
          | inr (room, r) ↦
              elim (Option-cases (db.find_first (is_room_clash school_id input room) s.entries)) [
                | inr (t, g) ↦ ground (arith, e, n, r, g)
                | inl g ↦
                    room_clear school_id input s.entries room r f (missing_row db taken s.entries e)
                      (missing_row db (is_room_clash school_id input room) s.entries g)
              ]
        ]
      ]

  write_entry-answers :
      (school_id id : ℕ) (input : UpsertTimetableEntryInput) (s : State)
      → no_clash entry_clashes s.entries ≡ true
      → any (λ e. e.id == id) s.entries ≡ false
      → any (is_foreign school_id input) s.entries ≡ false
      → any (is_blocked school_id input) s.entries ≡ false
      → (write_entry db school_id id input s).0 ≡ ok tt
  unfolding write_entry
  write_entry-answers school_id id input s n i f b =
      let own = is_class_slot input.class_id input.period_id input.day_of_week in
      elim (Option-cases (db.find_first own s.entries)) [
        | inl e ↦ ground (
          arith,
          e,
          db.create_lem entry_clashes (new_entry school_id id input) s.entries,
          new_is_clear school_id id input s.entries i b (missing_row db own s.entries e),
        )
        | inr (x, e) ↦ ground (
          arith,
          e,
          db.update_unique_lem (no_clash entry_clashes) own (replace input) s.entries,
          no_clash-update_by_on entry_clashes own (replace input) s.entries
              (λ x y k m.
                replaced_is_clear school_id input x y
                  (any-In (is_foreign school_id input) s.entries x f k)
                  (any-In (is_foreign school_id input) s.entries y f m)
                  (any-In (is_blocked school_id input) s.entries x b k)
                  (any-In (is_blocked school_id input) s.entries y b m))
              n,
        )
      ]

  -- Where no two lessons clash, the lessons in the period of the input are all of the school, and
  -- the id is new: if the slot belongs to the school and the first check finds no conflict, the
  -- unique indexes refuse nothing and the upsert answers.
  pub upsert_entry-answers :
      (school_id id : ℕ) (input : UpsertTimetableEntryInput) (s : State)
      → no_clash entry_clashes s.entries ≡ true
      → any (λ e. e.id == id) s.entries ≡ false
      → any (is_foreign school_id input) s.entries ≡ false
      → (assert_slot_belongs_to_school db school_id input s).0 ≡ ok tt
      → find_conflicts db school_id input s ≡ []
      → (upsert_entry db school_id id input s).0 ≡ ok tt
  unfolding upsert_entry assert_slot_belongs_to_school
  upsert_entry-answers school_id id input s n i f a c = ground (
    arith,
    a,
    c,
    write_entry-answers school_id id input s n i f (clear_of_conflicts school_id input s f c),
  )
