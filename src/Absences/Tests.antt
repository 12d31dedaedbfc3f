-- ===== src/Absences/Tests.antt =====
-- Runs of the absences service, and the theorems about it at concrete inputs.
use skolara.Prelude.{All, ◌≡◌, refl, true, false, none, some, [], ◌∷◌}
use skolara.Prelude.Action.{err, conflict}
use skolara.Store.{listed, no_clash}
use skolara.Absences.{
  AbsenceRequest, AttendanceRecord, State, RequestAbsenceInput, approve, pending, absent, excused,
  day_ms, request, review, mark_attendance, has_stranger, excused_on, mark_entries, status_of,
}
use skolara.Absences.Cover.{Excuses, review-Excuses}
use skolara.Absences.Overlap.{overlaps}
use skolara.Absences.Requests.{serve, decide_request, serve-no_overlap}

abbrev asked : AbsenceRequest
asked = record {
  id = 50;
  school_id = 7;
  student_id = 3;
  raised_by_user_id = 5;
  start_date = 0;
  end_date = day_ms;
  reason = "A wedding";
  status = pending;
  review_note = none;
  reviewed_by_user_id = none;
  reviewed_at = none;
}

abbrev missed : AttendanceRecord
missed = record {
  school_id = 7;
  class_id = 2;
  student_id = 3;
  date = day_ms;
  status = absent;
  marked_by_user_id = 9;
  marked_offline = false;
}

abbrev office : State
office = record {
  requests = asked ∷ [];
  records = missed ∷ [];
  students = record { id = 3; school_id = 7; class_id = some 2 } ∷ [];
  classes = record { id = 2; school_id = 7 } ∷ [];
}

abbrev same_day : RequestAbsenceInput
same_day = record { student_id = 3; start_date = day_ms; end_date = day_ms; reason = "Again" }

request_clash :
    (request listed 7 5 51 same_day office).0
    ≡ err (conflict "Those dates are already covered by a request awaiting a decision.")
unfolding request
request_clash = refl

-- The approval excuses the absence, and the register that is sent again stays excused.
approved_records :
    (review listed 7 50 9 90 (approve none) office).1.records
    ≡ record missed { status = excused } ∷ []
unfolding review
approved_records = refl

remarked_records :
    (mark_attendance listed 7 9
      (record {
        class_id = 2;
        date = day_ms;
        entries = record { student_id = 3; status = absent } ∷ [];
        marked_offline = false;
      })
      (review listed 7 50 9 90 (approve none) office).1).1.records
    ≡ record missed { status = excused } ∷ []
unfolding review mark_attendance has_stranger excused_on mark_entries status_of
remarked_records = refl

review-Excuses_example :
    let t = (review listed 7 50 9 90 (approve none) office).1 in All (Excuses t.records) t.requests
review-Excuses_example = review-Excuses listed 7 50 9 90 (approve none) office (refl, tt) (refl, tt)

serve-no_overlap_example :
    no_clash overlaps (serve listed (decide_request 7 50 9 90 (approve none)) office).requests
    ≡ true
serve-no_overlap_example =
    serve-no_overlap listed (decide_request 7 50 9 90 (approve none)) office refl
