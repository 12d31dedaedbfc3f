-- ===== src/Absences/Overlap.antt =====
-- The dates that requests cover: `request`, `review` and `cancel` of the absences service.
use skolara.Prelude.{
  ℕ, ◌≡◌, refl, Bool, true, false, ◌&&◌, List, [], ◌∷◌, arith, leb, ◌==◌, any, Option-cases,
  if◌then◌else◌, inl, inr,
}
use skolara.Store.{Prisma, no_clash, no_clash-update_by, missing_row}
use skolara.Absences.{
  State, AbsenceRequest, RequestAbsenceInput, ReviewAbsenceInput, approve, decline, is_live,
  clashes_with, new_request, same_request, is_open, is_withdrawable, withdraw, decide, request,
  review, cancel,
}

abbrev pub overlaps : AbsenceRequest → AbsenceRequest → Bool
overlaps x y =
    x.student_id == y.student_id
    && (is_live x.status
        && (is_live y.status && (leb x.start_date y.end_date && leb y.start_date x.end_date)))

-- The query for a clash finds every overlap with the new request.
no_overlap_of_query :
    (school_id raised_by id : ℕ) (input : RequestAbsenceInput) (rows : List AbsenceRequest)
    → any (clashes_with input) rows ≡ false
    → any (overlaps (new_request school_id raised_by id input)) rows ≡ false
no_overlap_of_query school_id raised_by id input [] h = refl
no_overlap_of_query school_id raised_by id input (x ∷ rows) h =
    ground (arith, no_overlap_of_query school_id raised_by id input rows)

-- A decision on a pending request makes none live that was not.
decide_no_overlap :
    (school_id id reviewer now : ℕ) (input : ReviewAbsenceInput) (x y : AbsenceRequest)
    → overlaps x y ≡ false
    → overlaps
        (if is_open school_id id x then decide input reviewer now x else x)
        (if is_open school_id id y then decide input reviewer now y else y)
      ≡ false
decide_no_overlap school_id id reviewer now (approve _) x y h = ground (arith, h)
decide_no_overlap school_id id reviewer now (decline _) x y h = ground (arith, h)

module _ (db : Prisma) where
  -- Where no two live requests of one student overlap, none do after a new request, accepted or
  -- refused.
  pub request-no_overlap :
      (school_id raised_by id : ℕ) (input : RequestAbsenceInput) (s : State)
      → no_clash overlaps s.requests ≡ true
      → no_clash overlaps (request db school_id raised_by id input s).1.requests ≡ true
  unfolding request
  request-no_overlap school_id raised_by id input s n =
      elim (Option-cases (db.find_first (clashes_with input) s.requests)) [
        | inr (r, e) ↦ ground (arith, e)
        | inl e ↦ ground (
          arith,
          e,
          missing_row db (clashes_with input) s.requests e,
          no_overlap_of_query school_id raised_by id input s.requests,
          db.create_lem same_request (new_request school_id raised_by id input) s.requests,
        )
      ]

  -- Where no two live requests of one student overlap, none do after a review.
  pub review-no_overlap :
      (school_id id reviewer now : ℕ) (input : ReviewAbsenceInput) (s : State)
      → no_clash overlaps s.requests ≡ true
      → no_clash overlaps (review db school_id id reviewer now input s).1.requests ≡ true
  unfolding review
  review-no_overlap school_id id reviewer now input s n =
      let kept =
        no_clash-update_by overlaps (is_open school_id id) (decide input reviewer now) s.requests
          (decide_no_overlap school_id id reviewer now input) n in
      ground (
        arith,
        kept,
        db.update_many_lem (is_open school_id id) (decide input reviewer now) s.requests,
      )

  -- Where no two live requests of one student overlap, none do after one is withdrawn.
  pub cancel-no_overlap :
      (user_id id : ℕ) (s : State)
      → no_clash overlaps s.requests ≡ true
      → no_clash overlaps (cancel db user_id id s).1.requests ≡ true
  unfolding cancel
  cancel-no_overlap user_id id s n =
      let kept =
        no_clash-update_by overlaps (is_withdrawable user_id id) withdraw s.requests
          (λ x y h. ground (arith, h)) n in
      ground (arith, kept, db.update_many_lem (is_withdrawable user_id id) withdraw s.requests)
