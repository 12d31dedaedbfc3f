-- ===== src/OfflineQueue/Interleaving.antt =====
-- A flush and what comes between its steps: `flushAttendanceQueue` writes at its end what it read
-- at its start.
use skolara.Prelude.{
  ℕ, ◌≡◌, Bool, true, false, not, ◌||◌, List, [], ◌∷◌, any, arith, Bool-cases, inl, inr,
}
use skolara.OfflineQueue.{
  QueuedAttendance, AttendanceInput, Stored, Outcome, Flight, accepted, api_error, unreachable,
  is_permanent, read_queue, write_queue, enqueue_attendance, is_same_register, settle, begin_flush,
}
use skolara.OfflineQueue.Flush.{any-last}

-- The storage, the registers that are still to be sent, and the variables of the flush.
pub record Machine : Type 0 where
  pub stored : Stored
  pub waiting : List QueuedAttendance
  pub flight : Flight

-- The API answers for the register that was sent, or the teacher parks another one.
pub data Event : Type 0 where
  answered : Outcome → Event
  parked : (now queued_at : ℕ) → AttendanceInput → Event

abbrev pub start : Stored → Machine
start s = record { stored = s; waiting = read_queue s; flight = begin_flush }

abbrev pub send_next : Outcome → Machine → List QueuedAttendance → Machine
send_next outcome m [] = m
send_next outcome m (item ∷ items) = record m {
  waiting = items;
  flight = settle item outcome m.flight;
}

unfoldable pub step : Event → Machine → Machine
step (answered outcome) m = send_next outcome m m.waiting
step (parked now queued_at input) m = record m {
  stored = enqueue_attendance now queued_at input m.stored;
}

unfoldable pub run : List Event → Machine → Machine
unfolding step
run [] m = m
run (e ∷ events) m = run events (step e m)

-- The last write, once every register that was read is sent.
abbrev pub finish : Machine → Stored
finish m = write_queue m.flight.still_queued

-- The flush has nothing of the register.
abbrev knows_nothing : AttendanceInput → Machine → Bool
knows_nothing input m =
    not
      (any (is_same_register input) m.waiting || any (is_same_register input) m.flight.still_queued)

settle-knows_nothing :
    (input : AttendanceInput) (item : QueuedAttendance) (o : Outcome) (f : Flight)
    → is_same_register input item ≡ false
    → any (is_same_register input) f.still_queued ≡ false
    → any (is_same_register input) (settle item o f).still_queued ≡ false
settle-knows_nothing input item accepted f h n = n
settle-knows_nothing input item (api_error status) f h n =
    elim (Bool-cases (is_permanent (api_error status))) [
      | inl e ↦ rw e n
      | inr e ↦ rw e (ground (arith, any-last (is_same_register input) item f.still_queued, h, n))
    ]
settle-knows_nothing input item unreachable f h n =
    ground (arith, any-last (is_same_register input) item f.still_queued, h, n)

send_next-knows_nothing :
    (input : AttendanceInput) (o : Outcome) (m : Machine) (items : List QueuedAttendance)
    → any (is_same_register input) items ≡ false
    → any (is_same_register input) m.waiting ≡ false
    → any (is_same_register input) m.flight.still_queued ≡ false
    → knows_nothing input (send_next o m items) ≡ true
send_next-knows_nothing input o m [] a w h = ground (arith, w, h)
send_next-knows_nothing input o m (item ∷ items) a w h =
    ground (arith, a, settle-knows_nothing input item o m.flight (ground (arith, a)) h)

run-knows_nothing :
    (input : AttendanceInput) (events : List Event) (m : Machine)
    → knows_nothing input m ≡ true
    → knows_nothing input (run events m) ≡ true
unfolding run step
run-knows_nothing input [] m h = h
run-knows_nothing input (answered o ∷ events) m h = run-knows_nothing input events _ (
    send_next-knows_nothing input o m m.waiting (ground (arith, h)) (ground (arith, h))
      (ground (arith, h)))
run-knows_nothing input (parked now queued_at other ∷ events) m h =
    run-knows_nothing input events _ (ground (arith, h))

-- A register that was not queued when a flush read the queue is not queued after the flush's last
-- write, even where it was parked while the flush was under way.
pub finish-loses :
    (input : AttendanceInput) (events : List Event) (s : Stored)
    → any (is_same_register input) (read_queue s) ≡ false
    → any (is_same_register input) (read_queue (finish (run events (start s)))) ≡ false
unfolding read_queue write_queue
finish-loses input events s h =
    ground (arith, run-knows_nothing input events (start s) (ground (arith, h)))
