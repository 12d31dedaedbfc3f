-- ===== src/Leave/Tests.antt =====
-- Runs of the leave service, and the theorems about it at concrete inputs.
use skolara.Prelude.{◌+◌, ◌-◌, ◌*◌, ◌≡◌, refl, none, some, [], ◌∷◌, arith}
use skolara.Prelude.Action.{err, forbidden}
use skolara.Store.{listed, Unique}
use skolara.Leave.{
  LeaveRequest, State, RequestLeaveInput, casual, pending, approved, approve, day_ms, day_of, walk,
  working_days_between, review,
}
use skolara.Leave.WorkingDays.{sundays_through, sundays_before, working_days_between_lem}
use skolara.Leave.Allowance.{IsWithin}
use skolara.Leave.Requests.{ask, serve, serve-IsWithin}

-- A week from a Thursday has one Sunday.
one_week : working_days_between 0 (6 * day_ms) ≡ 6
unfolding working_days_between walk
one_week = refl

working_days_between_lem_example :
    working_days_between 0 (6 * day_ms)
      + (sundays_through (day_of (6 * day_ms)) - sundays_before (day_of 0))
    ≡ day_of (6 * day_ms) + 1 - day_of 0
working_days_between_lem_example = working_days_between_lem 0 (6 * day_ms) (omega arith)

abbrev granted : LeaveRequest
granted = record {
  id = 1;
  school_id = 7;
  requester_user_id = 5;
  kind = casual;
  start_date = 0;
  end_date = 0;
  reason = none;
  status = approved;
  reviewed_by_user_id = some 9;
  reviewed_at = some 40;
  review_note = none;
}

abbrev asked : LeaveRequest
asked = record granted { id = 2; status = pending; reviewed_by_user_id = none; reviewed_at = none }

abbrev office : State
office = record { requests = asked ∷ granted ∷ [] }

-- Nobody reviews their own request.
review_own :
    (review listed 7 2 5 50 (approve none) office).0
    ≡ err (forbidden "You can't review your own leave request")
unfolding review
review_own = refl

abbrev empty_office : State
empty_office = record { requests = [] }

empty_office-IsWithin : IsWithin 0 empty_office
empty_office-IsWithin school_id user_id kind n e = omega arith

abbrev a_week : RequestLeaveInput
a_week = record { kind = casual; start_date = 0; end_date = 6 * day_ms; reason = none }

serve-IsWithin_example :
    Unique LeaveRequest.id (serve listed 0 (ask 7 5 3 a_week) empty_office).requests
    × IsWithin 0 (serve listed 0 (ask 7 5 3 a_week) empty_office)
serve-IsWithin_example =
    serve-IsWithin listed 0 (ask 7 5 3 a_week) empty_office tt empty_office-IsWithin
