-- ===== src/Timetable/Tests.antt =====
-- Runs of the timetable service, and the theorems about it at concrete inputs.
use skolara.Prelude.{◌≡◌, refl, none, some, [], ◌∷◌}
use skolara.Prelude.Action.{ok, err, conflict}
use skolara.Store.{listed}
use skolara.Auth.{teacher}
use skolara.Timetable.{
  TimetableEntry, State, UpsertTimetableEntryInput, monday, day_number,
  assert_slot_belongs_to_school, find_conflicts, upsert_entry, delete_period,
}
use skolara.Timetable.Grid.{lesson_at, upsert_entry-lem}
use skolara.Timetable.Booking.{upsert_entry-answers}
use skolara.Timetable.Weeks.{IsTimetable, place_lesson, serve, serve-IsTimetable}

abbrev maths : TimetableEntry
maths = record {
  id = 1;
  school_id = 7;
  class_id = 3;
  period_id = 2;
  day_of_week = monday;
  subject = 11;
  teacher_user_id = 20;
  room = some 5;
}

-- Classes 3 and 4 of school 7, and the teachers 20 and 21.
abbrev week : State
week = record {
  periods =
      record { id = 2; school_id = 7; name = 1; start_time = 480; end_time = 520; sort_order = 1 }
      ∷ [];
  entries = maths ∷ [];
  classes = record { id = 3; school_id = 7 } ∷ record { id = 4; school_id = 7 } ∷ [];
  users =
      record { id = 20; school_id = some 7; role = teacher }
      ∷ record { id = 21; school_id = some 7; role = teacher }
      ∷ [];
}

abbrev urdu : UpsertTimetableEntryInput
urdu = record {
  class_id = 4;
  period_id = 2;
  day_of_week = monday;
  subject = 12;
  teacher_user_id = 21;
  room = none;
}

-- The room of class 3's lesson, in the same slot.
upsert_entry-room_taken :
    (upsert_entry listed 7 8 (record urdu { room = some 5 }) week).0
    ≡ err (conflict "Room ${room} is already used by ${class} in this slot")
unfolding upsert_entry assert_slot_belongs_to_school find_conflicts day_number
upsert_entry-room_taken = refl

slot_is_ours : (assert_slot_belongs_to_school listed 7 urdu week).0 ≡ ok tt
unfolding assert_slot_belongs_to_school
slot_is_ours = refl

no_conflicts : find_conflicts listed 7 urdu week ≡ []
unfolding find_conflicts day_number
no_conflicts = refl

urdu_answers : (upsert_entry listed 7 8 urdu week).0 ≡ ok tt
urdu_answers = upsert_entry-answers listed 7 8 urdu week refl refl refl slot_is_ours no_conflicts

upsert_entry-lem_example :
    lesson_at 4 2 monday (upsert_entry listed 7 8 urdu week).1.entries
    ≡ some (record { subject = 12; teacher_user_id = 21; room = none })
unfolding day_number
upsert_entry-lem_example = upsert_entry-lem listed 7 8 urdu week 4 2 monday urdu_answers

delete_period_answers : (delete_period listed 7 2 week).0 ≡ ok tt
unfolding delete_period
delete_period_answers = refl

serve-IsTimetable_example : IsTimetable (serve listed (place_lesson 7 8 urdu) week)
serve-IsTimetable_example =
    serve-IsTimetable listed (place_lesson 7 8 urdu) week (record { single = refl; placed = refl })
