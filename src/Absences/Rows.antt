-- ===== src/Absences/Rows.antt =====
-- The rows and inputs of `apps/api/src/absences/absences.service.ts` and
-- `apps/api/src/attendance/attendance.service.ts`, and the writes of their columns.
use skolara.Prelude.{
  ℕ, ◌+◌, ◌-◌, ◌/◌, String, Bool, true, false, ◌&&◌, ◌||◌, List, Option, none, some, leb, ◌==◌, any,
  filter_by,
}
use skolara.Store.{Table}

pub data RequestStatus : Type 0 where
  pending approved rejected cancelled : RequestStatus

pub data AttendanceStatus : Type 0 where
  present absent late excused : AttendanceStatus

pub record AbsenceRequest : Type 0 where
  pub id : ℕ
  pub school_id : ℕ
  pub student_id : ℕ
  pub raised_by_user_id : ℕ
  pub start_date : ℕ
  pub end_date : ℕ
  pub reason : String
  pub status : RequestStatus
  pub review_note : Option String
  pub reviewed_by_user_id : Option ℕ
  pub reviewed_at : Option ℕ

-- The unique key is (classId, studentId, date).
pub record AttendanceRecord : Type 0 where
  pub school_id : ℕ
  pub class_id : ℕ
  pub student_id : ℕ
  pub date : ℕ
  pub status : AttendanceStatus
  pub marked_by_user_id : ℕ
  pub marked_offline : Bool

pub record StudentProfile : Type 0 where
  pub id : ℕ
  pub school_id : ℕ
  pub class_id : Option ℕ

pub record SchoolClass : Type 0 where
  pub id : ℕ
  pub school_id : ℕ

pub record State : Type 0 where
  pub requests : List AbsenceRequest
  pub records : List AttendanceRecord
  pub students : List StudentProfile
  pub classes : List SchoolClass

pub record RequestAbsenceInput : Type 0 where
  pub student_id : ℕ
  pub start_date : ℕ
  pub end_date : ℕ
  pub reason : String

pub data ReviewAbsenceInput : Type 0 where
  approve : Option String → ReviewAbsenceInput
  decline : Option String → ReviewAbsenceInput

pub record Entry : Type 0 where
  pub student_id : ℕ
  pub status : AttendanceStatus

pub record MarkAttendanceInput : Type 0 where
  pub class_id : ℕ
  pub date : ℕ
  pub entries : List Entry
  pub marked_offline : Bool

abbrev pub requests_table : Table State AbsenceRequest
requests_table = record { get = λ s. s.requests; put = λ s rows. record s { requests = rows } }

abbrev pub records_table : Table State AttendanceRecord
records_table = record { get = λ s. s.records; put = λ s rows. record s { records = rows } }

abbrev pub classes_table : Table State SchoolClass
classes_table = record { get = λ s. s.classes; put = λ s rows. record s { classes = rows } }

abbrev pub is_pending : RequestStatus → Bool
is_pending pending = true
is_pending _ = false

abbrev pub is_approved : RequestStatus → Bool
is_approved approved = true
is_approved _ = false

abbrev pub is_absent : AttendanceStatus → Bool
is_absent absent = true
is_absent _ = false

-- `status: { in: ["PENDING", "APPROVED"] }`
abbrev pub is_live : RequestStatus → Bool
is_live st = is_pending st || is_approved st

abbrev pub day_ms : ℕ
day_ms = 86400000

abbrev pub max_absence_request_days : ℕ
max_absence_request_days = 30

-- Inclusive of both ends. An end before the start is below every limit, here as there.
abbrev pub days_inclusive : ℕ → ℕ → ℕ
days_inclusive start end = (end - start) / day_ms + 1

-- The request that would clash with the one asked for.
abbrev pub clashes_with : RequestAbsenceInput → AbsenceRequest → Bool
clashes_with input r =
    r.student_id == input.student_id
    && (is_live r.status && (leb r.start_date input.end_date && leb input.start_date r.end_date))

abbrev pub new_request : ℕ → ℕ → ℕ → RequestAbsenceInput → AbsenceRequest
new_request school_id raised_by id input = record {
  id = id;
  school_id = school_id;
  student_id = input.student_id;
  raised_by_user_id = raised_by;
  start_date = input.start_date;
  end_date = input.end_date;
  reason = input.reason;
  status = pending;
  review_note = none;
  reviewed_by_user_id = none;
  reviewed_at = none;
}

abbrev pub same_request : AbsenceRequest → AbsenceRequest → Bool
same_request x y = y.id == x.id

-- `{ id, schoolId, status: "PENDING" }`
abbrev pub is_open : ℕ → ℕ → AbsenceRequest → Bool
is_open school_id id r = r.id == id && (r.school_id == school_id && is_pending r.status)

abbrev pub decided : ReviewAbsenceInput → RequestStatus
decided (approve _) = approved
decided (decline _) = rejected

abbrev pub note_of : ReviewAbsenceInput → Option String
note_of (approve words) = words
note_of (decline words) = words

abbrev pub decide : ReviewAbsenceInput → ℕ → ℕ → AbsenceRequest → AbsenceRequest
decide input reviewer now r = record r {
  status = decided input;
  review_note = note_of input;
  reviewed_by_user_id = some reviewer;
  reviewed_at = some now;
}

-- The absences that an approved request excuses.
abbrev pub is_excusable : ℕ → AbsenceRequest → AttendanceRecord → Bool
is_excusable school_id r a =
    a.school_id == school_id
    && (a.student_id == r.student_id
        && (is_absent a.status && (leb r.start_date a.date && leb a.date r.end_date)))

abbrev pub excuse : AttendanceRecord → AttendanceRecord
excuse a = record a { status = excused }

abbrev pub is_withdrawable : ℕ → ℕ → AbsenceRequest → Bool
is_withdrawable user_id id r = r.id == id && (r.raised_by_user_id == user_id && is_pending r.status)

abbrev pub withdraw : AbsenceRequest → AbsenceRequest
withdraw r = record r { status = cancelled }

-- The row of a register that an upsert addresses.
abbrev pub is_row : ℕ → ℕ → ℕ → AttendanceRecord → Bool
is_row class_id student_id date a =
    a.class_id == class_id && (a.student_id == student_id && a.date == date)

abbrev pub same_row : AttendanceRecord → AttendanceRecord → Bool
same_row x y = is_row x.class_id x.student_id x.date y

abbrev pub new_record : ℕ → ℕ → MarkAttendanceInput → ℕ → AttendanceStatus → AttendanceRecord
new_record school_id marked_by input student_id status = record {
  school_id = school_id;
  class_id = input.class_id;
  student_id = student_id;
  date = input.date;
  status = status;
  marked_by_user_id = marked_by;
  marked_offline = input.marked_offline;
}

abbrev pub mark : ℕ → MarkAttendanceInput → AttendanceStatus → AttendanceRecord → AttendanceRecord
mark marked_by input status a = record a {
  status = status;
  marked_by_user_id = marked_by;
  marked_offline = input.marked_offline;
}

-- `new Set(…)` of student ids, tested by `has`.
abbrev pub has_student : List Entry → ℕ → Bool
has_student entries id = any (λ e. e.student_id == id) entries

abbrev pub absentees : List Entry → List Entry
absentees = filter_by (λ e. is_absent e.status)

-- An approved request of the school that covers the day for one of the absentees.
abbrev pub excuses_day : ℕ → MarkAttendanceInput → AbsenceRequest → Bool
excuses_day school_id input r =
    r.school_id == school_id
    && (has_student (absentees input.entries) r.student_id
        && (is_approved r.status && (leb r.start_date input.date && leb input.date r.end_date)))
