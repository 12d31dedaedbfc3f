-- ===== src/Absences/Cover.antt =====
-- Approved absences and the registers: what `review` does to the records.
use skolara.Prelude.{
  String, ℕ, ◌≡◌, refl, Bool, true, false, ◌&&◌, List, [], ◌∷◌, Option, arith, leb, ◌==◌, any,
  update_by, In, All, All-update_by, Bool-cases, Option-cases, inl, inr,
}
use skolara.Store.{Prisma, Unique, found_row, eq_of_key, In-update_by}
use skolara.Absences.{
  State, AbsenceRequest, AttendanceRecord, ReviewAbsenceInput, approve, decline, is_approved,
  is_absent, is_open, decide, is_excusable, excuse, review,
}

-- A mark of absence on a day that the request, once approved, excuses.
abbrev pub is_unexcused : AbsenceRequest → AttendanceRecord → Bool
is_unexcused r a =
    is_approved r.status
    && (is_absent a.status
        && (r.school_id == a.school_id
            && (r.student_id == a.student_id
                && (leb r.start_date a.date && leb a.date r.end_date))))

abbrev pub Excuses : List AttendanceRecord → AbsenceRequest → Type 0
Excuses rows r = any (is_unexcused r) rows ≡ false

unapproved-Excuses :
    (r : AbsenceRequest) (rows : List AttendanceRecord)
    → is_approved r.status ≡ false
    → Excuses rows r
unapproved-Excuses r [] h = refl
unapproved-Excuses r (a ∷ rows) h = ground (arith, h, unapproved-Excuses r rows)

kept-Excuses :
    (r : AbsenceRequest) (p : AttendanceRecord → Bool) (rows : List AttendanceRecord)
    → Excuses rows r
    → Excuses (update_by p excuse rows) r
kept-Excuses r p [] h = refl
kept-Excuses r p (a ∷ rows) h = ground (arith, kept-Excuses r p rows)

swept-Excuses :
    (r : AbsenceRequest) (rows : List AttendanceRecord)
    → Excuses (update_by (is_excusable r.school_id r) excuse rows) r
swept-Excuses r [] = refl
swept-Excuses r (a ∷ rows) = elim (Bool-cases (is_excusable r.school_id r a)) [
  | inl e ↦ ground (arith, e, swept-Excuses r rows)
  | inr e ↦ ground (arith, e, swept-Excuses r rows)
]

approved-Excuses :
    (school_id id reviewer now : ℕ) (words : Option String) (s : State) (r : AbsenceRequest)
    → Unique AbsenceRequest.id s.requests
    → In r (update_by (is_open school_id id) (decide (approve words) reviewer now) s.requests)
    → (r.id == id) ≡ true
    → All (Excuses s.records) s.requests
    → All
        (Excuses (update_by (is_excusable school_id r) excuse s.records))
        (update_by (is_open school_id id) (decide (approve words) reviewer now) s.requests)
approved-Excuses school_id id reviewer now words s r u m e v =
    let claims = is_open school_id id in
    let f = decide (approve words) reviewer now in
    let (b, n, q) = In-update_by claims f s.requests r m in
    All-update_by (Excuses s.records)
      (Excuses (update_by (is_excusable school_id r) excuse s.records)) claims f s.requests
      (λ x k h. elim (Bool-cases (claims x)) [
        | inr t ↦ rw t (kept-Excuses x (is_excusable school_id r) s.records h)
        | inl t ↦ ground (
          arith,
          t,
          q,
          eq_of_key AbsenceRequest.id s.requests b x u n k,
          swept-Excuses r s.records,
        )
      ])
      v

declined-Excuses :
    (school_id id reviewer now : ℕ) (words : Option String) (s : State)
    → All (Excuses s.records) s.requests
    → All
        (Excuses s.records)
        (update_by (is_open school_id id) (decide (decline words) reviewer now) s.requests)
declined-Excuses school_id id reviewer now words s v =
    All-update_by (Excuses s.records) (Excuses s.records) (is_open school_id id)
      (decide (decline words) reviewer now) s.requests
      (λ x k h. elim (Bool-cases (is_open school_id id x)) [
        | inr t ↦ rw t h
        | inl t ↦ rw t (unapproved-Excuses (decide (decline words) reviewer now x) s.records refl)
      ])
      v

module _ (db : Prisma) where
  -- Where the ids of the requests are unique, and no register has a student absent on a day that
  -- an approved request of the same school and student covers, a review leaves it so: an approval
  -- excuses the days it covers.
  pub review-Excuses :
      (school_id id reviewer now : ℕ) (input : ReviewAbsenceInput) (s : State)
      → Unique AbsenceRequest.id s.requests
      → All (Excuses s.records) s.requests
      → let t = (review db school_id id reviewer now input s).1 in
        All (Excuses t.records) t.requests
  unfolding review
  review-Excuses school_id id reviewer now (approve words) s u v =
      let claims = is_open school_id id in
      let f = decide (approve words) reviewer now in
      let has_id = λ (r : AbsenceRequest). r.id == id in
      let rows = update_by claims f s.requests in
      elim (Option-cases (db.find_first has_id rows)) [
        | inl e ↦ ground (arith, e, db.update_many_lem claims f s.requests)
        | inr (r, e) ↦
            let (m, q) = found_row db has_id rows e in
            ground (
              arith,
              e,
              db.update_many_lem claims f s.requests,
              db.update_many_lem (is_excusable school_id r) excuse s.records,
              approved-Excuses school_id id reviewer now words s r u m q v,
            )
      ]
  review-Excuses school_id id reviewer now (decline words) s u v = ground (
    arith,
    db.update_many_lem (is_open school_id id) (decide (decline words) reviewer now) s.requests,
    declined-Excuses school_id id reviewer now words s v,
  )
