-- ===== src/Leave/Allowance.antt =====
-- What requests take of an allowance: `request`, `review` and `cancel` of the leave service.
use skolara.Prelude.{
  ℕ, ◌≤◌, ◌≡◌, refl, Bool, true, ◌&&◌, List, [], ◌∷◌, some, arith, ◌==◌, if◌then◌else◌, sum_by,
  update_by, In, inl, inr, Bool-cases, Option-cases,
}
use skolara.Store.{Prisma, Unique, found_row, eq_of_key}
use skolara.Leave.{
  State, LeaveRequest, LeaveKind, RequestLeaveInput, ReviewLeaveInput, approve, decline, casual,
  sick, unpaid, maternity, other, allowance_days, same_kind, is_pending, is_live, is_charged,
  new_request, same_request, decide, withdraw, used_days, working_days_between, request, review,
  cancel,
}

-- The days that a request takes of an allowance.
abbrev pub charge : ℕ → ℕ → LeaveKind → ℕ → LeaveRequest → ℕ
charge school_id user_id kind year_start r =
    if is_charged school_id user_id kind year_start r
    then working_days_between r.start_date r.end_date
    else 0

abbrev pub charged : ℕ → ℕ → LeaveKind → ℕ → List LeaveRequest → ℕ
charged school_id user_id kind year_start rows =
    sum_by (charge school_id user_id kind year_start) rows

-- What is asked for and granted of a rationed kind stays within the allowance.
abbrev pub IsWithin : ℕ → State → Type 0
IsWithin year_start s =
    (school_id user_id : ℕ) (kind : LeaveKind) (n : ℕ)
    → allowance_days kind ≡ some n
    → charged school_id user_id kind year_start s.requests ≤ n

same_kind-eq : (x y : LeaveKind) → same_kind x y ≡ true → x ≡ y
same_kind-eq casual casual e = refl
same_kind-eq sick sick e = refl
same_kind-eq unpaid unpaid e = refl
same_kind-eq maternity maternity e = refl
same_kind-eq other other e = refl
same_kind-eq _ _ e = cc

-- An update that charges nothing more.
charged-update_by :
    (school_id user_id : ℕ) (kind : LeaveKind) (year_start : ℕ) (p : LeaveRequest → Bool)
    (f : LeaveRequest → LeaveRequest) (rows : List LeaveRequest)
    → ((r : LeaveRequest)
        → In r rows
        → p r ≡ true
        → charge school_id user_id kind year_start (f r)
          ≤ charge school_id user_id kind year_start r)
    → charged school_id user_id kind year_start (update_by p f rows)
      ≤ charged school_id user_id kind year_start rows
charged-update_by school_id user_id kind year_start p f [] h = omega arith
charged-update_by school_id user_id kind year_start p f (r ∷ rows) h = ground (
  arith,
  h r (inl refl),
  charged-update_by school_id user_id kind year_start p f rows (λ x m. h x (inr m)),
)

pub decide-id :
    (input : ReviewLeaveInput) (reviewer now : ℕ) (r : LeaveRequest)
    → (decide input reviewer now r).id ≡ r.id
decide-id (approve _) reviewer now r = refl
decide-id (decline _) reviewer now r = refl

-- A decision on a pending request charges nothing more.
decide-charge :
    (input : ReviewLeaveInput) (reviewer now school_id user_id : ℕ) (kind : LeaveKind)
    (year_start : ℕ) (r : LeaveRequest)
    → is_pending r.status ≡ true
    → charge school_id user_id kind year_start (decide input reviewer now r)
      ≤ charge school_id user_id kind year_start r
decide-charge (approve _) reviewer now school_id user_id kind year_start r p =
    elim (Bool-cases (is_live r.status)) [
      | inl e ↦ ground (arith, e)
      | inr e ↦ ground (arith, e, p)
    ]
decide-charge (decline _) reviewer now school_id user_id kind year_start r p = ground arith

module _ (db : Prisma) where
  used_days_lem :
      (school_id user_id : ℕ) (kind : LeaveKind) (year_start : ℕ) (s : State)
      → used_days db school_id user_id kind year_start s
        ≡ charged school_id user_id kind year_start s.requests
  unfolding used_days
  used_days_lem school_id user_id kind year_start s =
      db.find_many_sum (is_charged school_id user_id kind year_start) (λ r. 0)
        (λ r. working_days_between r.start_date r.end_date) s.requests

  pub request-IsWithin :
      (school_id requester id year_start : ℕ) (input : RequestLeaveInput) (s : State)
      → IsWithin year_start s
      → IsWithin year_start (request db school_id requester id year_start input s).1
  unfolding request
  request-IsWithin school_id requester id year_start input s v school_id' user_id kind n a =
      let row = new_request school_id requester id input in
      elim (Bool-cases (is_charged school_id' user_id kind year_start row)) [
        | inr e ↦
            ground
              (arith, e, v school_id' user_id kind n a, db.create_lem same_request row s.requests)
        | inl e ↦ ground (
          arith,
          e,
          a,
          v school_id' user_id kind n a,
          same_kind-eq input.kind kind,
          used_days_lem school_id requester input.kind year_start s,
          db.create_lem same_request row s.requests,
        )
      ]

  decided-charge :
      (input : ReviewLeaveInput) (id reviewer now school_id user_id : ℕ) (kind : LeaveKind)
      (year_start : ℕ) (s : State) (r : LeaveRequest)
      → Unique LeaveRequest.id s.requests
      → In r s.requests
      → r.id ≡ id
      → is_pending r.status ≡ true
      → charged school_id user_id kind year_start
          (update_by (λ x. x.id == id) (decide input reviewer now) s.requests)
        ≤ charged school_id user_id kind year_start s.requests
  decided-charge input id reviewer now school_id user_id kind year_start s r u m i p =
      charged-update_by school_id user_id kind year_start _ (decide input reviewer now) s.requests
        (λ x n e.
          decide-charge input reviewer now school_id user_id kind year_start x
            (ground (arith, eq_of_key LeaveRequest.id s.requests x r u n m)))

  pub review-IsWithin :
      (school_id id reviewer now year_start : ℕ) (input : ReviewLeaveInput) (s : State)
      → Unique LeaveRequest.id s.requests
      → IsWithin year_start s
      → IsWithin year_start (review db school_id id reviewer now input s).1
  unfolding review
  review-IsWithin school_id id reviewer now year_start input s u v school_id' user_id kind n a =
      let own = λ (r : LeaveRequest). r.id == id && r.school_id == school_id in
      elim (Option-cases (db.find_first own s.requests)) [
        | inl e ↦ ground (arith, e, v school_id' user_id kind n a)
        | inr (r, e) ↦
            let (m, q) = found_row db own s.requests e in
            ground (
              arith,
              e,
              v school_id' user_id kind n a,
              db.update_many_lem (λ r. r.id == id) (decide input reviewer now) s.requests,
              decided-charge input id reviewer now school_id' user_id kind year_start s r u m,
            )
      ]

  pub cancel-IsWithin :
      (user_id id year_start : ℕ) (s : State)
      → IsWithin year_start s
      → IsWithin year_start (cancel db user_id id s).1
  unfolding cancel
  cancel-IsWithin user_id id year_start s v school_id' user_id' kind n a = ground (
    arith,
    v school_id' user_id' kind n a,
    db.update_many_lem (λ r. r.id == id) withdraw s.requests,
    charged-update_by school_id' user_id' kind year_start (λ r. r.id == id) withdraw s.requests
        (λ r m e. ground arith),
  )
