-- ===== src/Absences.antt =====
-- Absence requests and the registers that they excuse: `apps/api/src/absences/absences.service.ts`
-- and `apps/api/src/attendance/attendance.service.ts`. A date is its time stamp in milliseconds;
-- notifications change no state and are left out.
pub mod Rows
pub mod Overlap
pub mod Cover
pub mod Requests
mod Tests
pub use Rows.*
use skolara.Prelude.{
  ℕ, ◌-◌, Bool, true, false, not, ◌&&◌, List, [], ◌∷◌, none, some, ltb, ◌==◌, if◌then◌else◌, any,
  holds,
}
use skolara.Prelude.Action.{
  Action, ok, err, bad_request, conflict, forbidden, not_found, record_missing, unique_violation,
  ◌>>=◌, ◌>>◌, pure, raise, raise_if, only_if, transaction,
}
use skolara.Store.{Prisma, find, find_or, insert_or, update_many, upsert}

module _ (db : Prisma) where
  pub request : (school_id raised_by id : ℕ) → RequestAbsenceInput → Action State AbsenceRequest
  request school_id raised_by id input = do
    raise_if (ltb max_absence_request_days (days_inclusive input.start_date input.end_date))
        (bad_request "That's ${days} days — a single request can cover at most 30")
    clash ← find db requests_table (clashes_with input)
    (elim clash [
      | some r ↦ raise (
          conflict (
            if is_approved r.status
            then "Those dates are already covered by an approved absence."
            else "Those dates are already covered by a request awaiting a decision."))
      | none ↦
          insert_or db requests_table same_request (new_request school_id raised_by id input)
            unique_violation
    ])

  -- Answers the request and the number of records that it excused.
  pub review :
      (school_id id reviewer now : ℕ) → ReviewAbsenceInput → Action State (AbsenceRequest × ℕ)
  review school_id id reviewer now input = transaction (do
    claimed ← update_many db requests_table (is_open school_id id) (decide input reviewer now)
    only_if (claimed == 0) (do
      _ ←
          find_or db requests_table (λ r. r.id == id && r.school_id == school_id)
            (not_found "Absence request not found")
      raise (bad_request "That request is already ${status}"))
    r ← find_or db requests_table (λ r. r.id == id) record_missing
    (elim (is_approved (decided input)) [
      | true ↦ do
        count ← update_many db records_table (is_excusable school_id r) excuse
        pure (r, count)
      | false ↦ pure (r, 0)
    ]))

  pub cancel : (user_id id : ℕ) → Action State AbsenceRequest
  cancel user_id id = do
    claimed ← update_many db requests_table (is_withdrawable user_id id) withdraw
    only_if (claimed == 0) (do
      r ← find_or db requests_table (λ r. r.id == id) (not_found "Absence request not found")
      raise_if (not (r.raised_by_user_id == user_id)) (forbidden "That isn't your request")
      raise (bad_request "Only a request awaiting a decision can be withdrawn"))
    find_or db requests_table (λ r. r.id == id) record_missing

  -- Whether an entry is of a student who is not in the class.
  pub has_stranger : (school_id : ℕ) → MarkAttendanceInput → State → Bool
  has_stranger school_id input s =
      let enrolled =
        db.find_many
          (λ p.
            has_student input.entries p.id
            && (p.school_id == school_id && holds p.class_id input.class_id))
          (λ p. 0) s.students in
      any (λ e. not (any (λ p. p.id == e.student_id) enrolled)) input.entries

  -- The set of students whose absence on the day is excused.
  pub excused_on : (school_id : ℕ) → MarkAttendanceInput → State → ℕ → Bool
  excused_on school_id input s student_id =
      any (λ r. r.student_id == student_id)
        (db.find_many (excuses_day school_id input) (λ r. 0) s.requests)

  pub status_of : (ℕ → Bool) → Entry → AttendanceStatus
  status_of is_excused e =
      if is_absent e.status && is_excused e.student_id then excused else e.status

  -- The upserts of the transaction, one after the other.
  pub mark_entries :
      (school_id marked_by : ℕ)
      → MarkAttendanceInput
      → (ℕ → Bool)
      → List Entry
      → Action State (Unit {0})
  unfolding status_of
  mark_entries school_id marked_by input is_excused [] s = (ok tt, s)
  mark_entries school_id marked_by input is_excused (e ∷ entries) s =
      let status = status_of is_excused e in
      let (r, s') =
        upsert db records_table (is_row input.class_id e.student_id input.date)
          (mark marked_by input status) same_row
          (new_record school_id marked_by input e.student_id status) s in
      elim r [
        | ok _ ↦ mark_entries school_id marked_by input is_excused entries s'
        | err x ↦ (err x, s')
      ]

  pub mark_attendance : (school_id marked_by : ℕ) → MarkAttendanceInput → Action State (Unit {0})
  mark_attendance school_id marked_by input = do
    _ ←
        find_or db classes_table (λ c. c.id == input.class_id && c.school_id == school_id)
          (not_found "Class not found")
    (λ s.
        raise_if (has_stranger school_id input s)
          (bad_request "One of those students isn't in this class") s)
    (λ s.
        transaction
          (mark_entries school_id marked_by input (excused_on school_id input s) input.entries) s)
