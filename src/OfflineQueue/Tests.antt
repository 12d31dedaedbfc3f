-- ===== src/OfflineQueue/Tests.antt =====
-- Runs of the offline queue, and the theorems about it at concrete inputs.
use skolara.Prelude.{
  ℕ, ◌≡◌, ◌+◌, refl, true, false, List, [], ◌∷◌, any, length, filter_by, count_by, ◌==◌,
  if◌then◌else◌,
}
use skolara.Store.{no_clash}
use skolara.OfflineQueue.{
  QueuedAttendance, AttendanceInput, Stored, Outcome, queue, accepted, api_error, unreachable,
  absent, read_queue, write_queue, queued_count, enqueue_attendance, is_same_register,
  flush_attendance_queue, new_entry,
}
use skolara.OfflineQueue.Flush.{
  flush_attendance_queue-lem, serve, parking, serve-one_register, same_register, is_taken, is_kept,
  is_refused,
}
use skolara.OfflineQueue.Interleaving.{
  Event, answered, parked, start, run, step, finish, finish-loses,
}

abbrev register : ℕ → AttendanceInput
register class_id = record {
  class_id = class_id;
  date = "2026-09-01";
  entries = record { student_id = 30; status = absent } ∷ [];
}

abbrev phone : Stored
phone =
    queue
      (new_entry 5 5 (register 1) ∷ new_entry 6 6 (register 2) ∷ new_entry 7 7 (register 3) ∷ [])

-- The API takes the register of class 1, refuses that of class 2 and does not answer for class 3.
abbrev api : QueuedAttendance → Outcome
api item =
    if item.class_id == 1
    then accepted
    else if item.class_id == 2
    then api_error 404
    else unreachable

flushed : (flush_attendance_queue api phone).0 ≡ record { synced = 1; remaining = 1; discarded = 1 }
unfolding flush_attendance_queue
flushed = refl

-- Too many requests within a minute, status 429, would pass; the register is discarded.
throttled :
    (flush_attendance_queue (λ item. api_error 429) phone).0
    ≡ record { synced = 0; remaining = 0; discarded = 3 }
unfolding flush_attendance_queue
throttled = refl

-- Marking a class again replaces its register.
marked_again : queued_count (enqueue_attendance 9 9 (register 2) phone) ≡ 3
unfolding enqueue_attendance queued_count
marked_again = refl

flush_attendance_queue-lem_example :
    ((flush_attendance_queue api phone).0 ≡ record {
      synced = count_by (is_taken api) (read_queue phone);
      remaining = length (filter_by (is_kept api) (read_queue phone));
      discarded = count_by (is_refused api) (read_queue phone);
    })
    × (read_queue (flush_attendance_queue api phone).1 ≡ filter_by (is_kept api) (read_queue phone))
    × (count_by (is_taken api) (read_queue phone)
          + length (filter_by (is_kept api) (read_queue phone))
          + count_by (is_refused api) (read_queue phone)
        ≡ queued_count phone)
flush_attendance_queue-lem_example = flush_attendance_queue-lem api phone

serve-one_register_example :
    no_clash same_register (read_queue (serve (parking 9 9 (register 2)) phone)) ≡ true
unfolding read_queue
serve-one_register_example = serve-one_register (parking 9 9 (register 2)) phone refl

-- Class 4 is parked while the API answers for the second of three registers.
abbrev day : List Event
day = answered accepted ∷ parked 8 8 (register 4) ∷ answered accepted ∷ answered unreachable ∷ []

parked_before_the_end :
    any (is_same_register (register 4)) (read_queue (run day (start phone)).stored) ≡ true
unfolding run step read_queue write_queue enqueue_attendance
parked_before_the_end = refl

finish-loses_example :
    any (is_same_register (register 4)) (read_queue (finish (run day (start phone)))) ≡ false
unfolding read_queue
finish-loses_example = finish-loses (register 4) day phone refl
