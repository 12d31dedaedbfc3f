-- ===== src/Meetings/Tests.antt =====
-- Runs of the meetings service, and the theorems about it at concrete inputs.
use skolara.Prelude.{◌≡◌, refl, In, inl, none, some, [], ◌∷◌}
use skolara.Prelude.Action.{ok, err, conflict}
use skolara.Store.{listed}
use skolara.Meetings.{MeetingSlot, State, create_slots, publish, book}
use skolara.Meetings.Bookings.{IsAgenda, serve, withdraw_request, serve-keeps_booking}

abbrev taken : MeetingSlot
taken = record {
  id = 1;
  school_id = 7;
  teacher_user_id = 9;
  starts_at = 100;
  ends_at = 110;
  booked_by_parent_user_id = some 5;
  student_id = some 3;
  booked_at = some 40;
  note = none;
}

abbrev evening : State
evening = record { slots = taken ∷ []; links = record { parent_user_id = 6; student_id = 4 } ∷ [] }

evening-IsAgenda : IsAgenda evening.slots
evening-IsAgenda = record { slot_ids = (refl, tt); instants = refl; whole = ((refl, refl), tt) }

-- The slot at 100 is on offer already, so one of two is published.
publish_duplicate :
    (publish listed 7 9 50
      (record { id = 2; starts_at = 100; ends_at = 105 }
        ∷ record { id = 3; starts_at = 110; ends_at = 120 }
        ∷ [])
      evening).0
    ≡ ok (1, 2)
unfolding publish create_slots
publish_duplicate = refl

book_taken :
    (book listed 7 1 6 50 (record { student_id = 4; note = none }) evening).0
    ≡ err (conflict "Someone else just booked that slot")
unfolding book
book_taken = refl

serve-keeps_booking_example : In taken (serve listed (withdraw_request 7 1 9) evening).slots
serve-keeps_booking_example =
    serve-keeps_booking listed (withdraw_request 7 1 9) evening taken 5 evening-IsAgenda (inl refl)
      refl refl
