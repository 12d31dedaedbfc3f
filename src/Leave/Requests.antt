-- ===== src/Leave/Requests.antt =====
-- The leave service as a whole: any request, served in some year.
use skolara.Prelude.{ℕ, ◌≡◌, refl, false, ◌&&◌, arith, ◌==◌, In, inl, inr, Option-cases}
use skolara.Store.{
  Prisma, Unique, Unique-update_by, any-map, found_row, eq_of_key, In-into-update_by,
}
use skolara.Leave.{
  State, LeaveRequest, RequestLeaveInput, ReviewLeaveInput, is_pending, new_request, same_request,
  decide, withdraw, is_own, request, review, cancel,
}
use skolara.Leave.Allowance.{
  IsWithin, decide-id, request-IsWithin, review-IsWithin, cancel-IsWithin,
}

-- A request to the service.
pub data Request : Type 0 where
  ask : (school_id requester id : ℕ) → RequestLeaveInput → Request
  decide_request : (school_id id reviewer now : ℕ) → ReviewLeaveInput → Request
  cancel_request : (user_id id : ℕ) → Request

-- What the service leaves behind it, in the year that starts then.
pub serve : Prisma → ℕ → Request → State → State
serve db year_start (ask school_id requester id input) s =
    (request db school_id requester id year_start input s).1
serve db year_start (decide_request school_id id reviewer now input) s =
    (review db school_id id reviewer now input s).1
serve db year_start (cancel_request user_id id) s = (cancel db user_id id s).1

-- Where the ids of the requests are unique, every request to the leave service, served in a given
-- year, keeps them unique, and keeps every member of staff within every allowance: the working
-- days of the pending and approved requests that start in the year or later are no more than the
-- allowance of their kind, where it has one.
pub serve-IsWithin :
    (db : Prisma) (year_start : ℕ) (q : Request) (s : State)
    → Unique LeaveRequest.id s.requests
    → IsWithin year_start s
    → Unique LeaveRequest.id (serve db year_start q s).requests
      × IsWithin year_start (serve db year_start q s)
unfolding serve request review cancel
serve-IsWithin db year_start (ask school_id requester id input) s u v = (
  ground (
    arith,
    db.create_lem same_request (new_request school_id requester id input) s.requests,
    any-map LeaveRequest.id id s.requests,
  ),
  request-IsWithin db school_id requester id year_start input s v,
)
serve-IsWithin db year_start (decide_request school_id id reviewer now input) s u v = (
  ground (
    arith,
    db.update_many_lem (λ r. r.id == id) (decide input reviewer now) s.requests,
    Unique-update_by LeaveRequest.id (λ r. r.id == id) (decide input reviewer now) s.requests
        (decide-id input reviewer now),
  ),
  review-IsWithin db school_id id reviewer now year_start input s u v,
)
serve-IsWithin db year_start (cancel_request user_id id) s u v = (
  ground (
    arith,
    db.update_many_lem (λ r. r.id == id) withdraw s.requests,
    Unique-update_by LeaveRequest.id (λ r. r.id == id) withdraw s.requests (λ r. refl),
  ),
  cancel-IsWithin db user_id id year_start s v,
)

-- Where the ids of the requests are unique, a request for leave that is no longer pending stays
-- as it is under every request to the service.
pub serve-keeps_decision :
    (db : Prisma) (year_start : ℕ) (q : Request) (s : State) (r : LeaveRequest)
    → Unique LeaveRequest.id s.requests
    → In r s.requests
    → is_pending r.status ≡ false
    → In r (serve db year_start q s).requests
unfolding serve request review cancel
serve-keeps_decision db year_start (ask school_id requester id input) s r u m p =
    ground
      (arith, db.create_lem same_request (new_request school_id requester id input) s.requests, m)
serve-keeps_decision db year_start (decide_request school_id id reviewer now input) s r u m p =
    let own = λ (r : LeaveRequest). r.id == id && r.school_id == school_id in
    elim (Option-cases (db.find_first own s.requests)) [
      | inl e ↦ ground (arith, e)
      | inr (x, e) ↦
          let (n, q) = found_row db own s.requests e in
          ground (
            arith,
            e,
            db.update_many_lem (λ r. r.id == id) (decide input reviewer now) s.requests,
            eq_of_key LeaveRequest.id s.requests x r u n m,
            In-into-update_by (λ r. r.id == id) (decide input reviewer now) s.requests r m,
          )
    ]
serve-keeps_decision db year_start (cancel_request user_id id) s r u m p =
    elim (Option-cases (db.find_first (is_own user_id id) s.requests)) [
      | inl e ↦ ground (arith, e)
      | inr (x, e) ↦
          let (n, q) = found_row db (is_own user_id id) s.requests e in
          ground (
            arith,
            e,
            db.update_many_lem (λ r. r.id == id) withdraw s.requests,
            eq_of_key LeaveRequest.id s.requests x r u n m,
            In-into-update_by (λ r. r.id == id) withdraw s.requests r m,
          )
    ]
