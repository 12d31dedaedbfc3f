-- ===== src/Leave.antt =====
-- Staff leave: `apps/api/src/leave/leave.service.ts`, `apps/api/src/leave/working-days.ts` and the
-- types of `packages/types/src/leave.ts`. A date is its time stamp in milliseconds; the start of the
-- calendar year, which balances are counted from, is an argument. Notifications change no state and
-- are left out.
pub mod WorkingDays
pub mod Allowance
pub mod Requests
mod Tests
use skolara.Prelude.{
  ℕ, zero, suc, ◌+◌, ◌-◌, ◌/◌, ◌%◌, String, Bool, true, false, not, ◌&&◌, ◌||◌, List, [], ◌∷◌,
  Option, none, some, ltb, leb, ◌==◌, if◌then◌else◌, sum_by,
}
use skolara.Prelude.Action.{
  Action, bad_request, forbidden, not_found, unique_violation, ◌>>=◌, ◌>>◌, raise_if,
}
use skolara.Store.{Prisma, Table, find_or, insert_or, update}

pub data LeaveKind : Type 0 where
  casual sick unpaid maternity other : LeaveKind

pub data LeaveStatus : Type 0 where
  pending approved rejected cancelled : LeaveStatus

pub record LeaveRequest : Type 0 where
  pub id : ℕ
  pub school_id : ℕ
  pub requester_user_id : ℕ
  pub kind : LeaveKind
  pub start_date : ℕ
  pub end_date : ℕ
  pub reason : Option String
  pub status : LeaveStatus
  pub reviewed_by_user_id : Option ℕ
  pub reviewed_at : Option ℕ
  pub review_note : Option String

pub record State : Type 0 where
  pub requests : List LeaveRequest

pub record RequestLeaveInput : Type 0 where
  pub kind : LeaveKind
  pub start_date : ℕ
  pub end_date : ℕ
  pub reason : Option String

pub data ReviewLeaveInput : Type 0 where
  approve : Option String → ReviewLeaveInput
  decline : String → ReviewLeaveInput

abbrev pub requests_table : Table State LeaveRequest
requests_table = record { get = λ s. s.requests; put = λ s rows. record s { requests = rows } }

-- `LEAVE_ALLOWANCE_DAYS`
abbrev pub allowance_days : LeaveKind → Option ℕ
allowance_days casual = some 15
allowance_days sick = some 10
allowance_days unpaid = none
allowance_days maternity = some 90
allowance_days other = some 5

abbrev pub same_kind : LeaveKind → LeaveKind → Bool
same_kind casual casual = true
same_kind sick sick = true
same_kind unpaid unpaid = true
same_kind maternity maternity = true
same_kind other other = true
same_kind _ _ = false

abbrev pub is_pending : LeaveStatus → Bool
is_pending pending = true
is_pending _ = false

-- `status: { in: ["APPROVED", "PENDING"] }`
abbrev pub is_live : LeaveStatus → Bool
is_live pending = true
is_live approved = true
is_live _ = false

abbrev pub day_ms : ℕ
day_ms = 86400000

-- `Date.UTC(…)` of a date's year, month and day, as a number of days: day 0 is a Thursday.
abbrev pub day_of : ℕ → ℕ
day_of date = date / day_ms

-- `getUTCDay() === 0`
abbrev pub is_sunday : ℕ → Bool
is_sunday day = (day + 4) % 7 == 0

-- The loop from `cursor` to `last`, on fuel.
pub walk : (fuel cursor last : ℕ) → ℕ
walk zero cursor last = 0
walk (suc k) cursor last =
    let rest = walk k (cursor + 1) last in
    if leb cursor last then (if is_sunday cursor then rest else rest + 1) else 0

pub working_days_between : (start end : ℕ) → ℕ
working_days_between start end =
    if ltb (day_of end) (day_of start)
    then 0
    else walk (day_of end + 1 - day_of start) (day_of start) (day_of end)

-- The requests that count against the balance.
abbrev pub is_charged : ℕ → ℕ → LeaveKind → ℕ → LeaveRequest → Bool
is_charged school_id user_id kind year_start r =
    r.school_id == school_id
    && (r.requester_user_id == user_id
        && (same_kind r.kind kind && (is_live r.status && leb year_start r.start_date)))

abbrev pub new_request : ℕ → ℕ → ℕ → RequestLeaveInput → LeaveRequest
new_request school_id requester id input = record {
  id = id;
  school_id = school_id;
  requester_user_id = requester;
  kind = input.kind;
  start_date = input.start_date;
  end_date = input.end_date;
  reason = input.reason;
  status = pending;
  reviewed_by_user_id = none;
  reviewed_at = none;
  review_note = none;
}

abbrev pub same_request : LeaveRequest → LeaveRequest → Bool
same_request x y = y.id == x.id

abbrev pub decide : ReviewLeaveInput → ℕ → ℕ → LeaveRequest → LeaveRequest
decide (approve words) reviewer now r = record r {
  status = approved;
  review_note = words;
  reviewed_by_user_id = some reviewer;
  reviewed_at = some now;
}
decide (decline words) reviewer now r = record r {
  status = rejected;
  review_note = some words;
  reviewed_by_user_id = some reviewer;
  reviewed_at = some now;
}

abbrev pub withdraw : LeaveRequest → LeaveRequest
withdraw r = record r { status = cancelled }

abbrev pub is_own : ℕ → ℕ → LeaveRequest → Bool
is_own user_id id r = r.id == id && r.requester_user_id == user_id

-- Whether the days are more than what is left of an allowance.
abbrev pub exceeds : Option ℕ → ℕ → ℕ → Bool
exceeds none used days = false
exceeds (some allowance) used days = ltb (allowance - used) days

module _ (db : Prisma) where
  pub used_days : (school_id user_id : ℕ) → LeaveKind → (year_start : ℕ) → State → ℕ
  used_days school_id user_id kind year_start s =
      sum_by (λ r. working_days_between r.start_date r.end_date)
        (db.find_many (is_charged school_id user_id kind year_start) (λ r. 0) s.requests)

  pub request :
      (school_id requester id year_start : ℕ) → RequestLeaveInput → Action State LeaveRequest
  request school_id requester id year_start input = do
    let days = working_days_between input.start_date input.end_date
    raise_if (days == 0)
        (bad_request "That range contains no working days — Sunday isn't a working day.")
    (λ s.
        raise_if
          (exceeds (allowance_days input.kind)
            (used_days school_id requester input.kind year_start s) days)
          (bad_request
            "That's ${days} working days but only ${remainingDays} of your allowance remains.")
          s)
    insert_or db requests_table same_request (new_request school_id requester id input)
        unique_violation

  pub review : (school_id id reviewer now : ℕ) → ReviewLeaveInput → Action State (Unit {0})
  review school_id id reviewer now input = do
    r ←
        find_or db requests_table (λ r. r.id == id && r.school_id == school_id)
          (not_found "Leave request not found")
    raise_if (not (is_pending r.status)) (bad_request "That request is already ${status}")
    raise_if (r.requester_user_id == reviewer) (forbidden "You can't review your own leave request")
    update db requests_table (λ r. r.id == id) (decide input reviewer now)

  pub cancel : (user_id id : ℕ) → Action State (Unit {0})
  cancel user_id id = do
    r ← find_or db requests_table (is_own user_id id) (not_found "Leave request not found")
    raise_if (not (is_pending r.status)) (bad_request "Only a pending request can be withdrawn")
    update db requests_table (λ r. r.id == id) withdraw
