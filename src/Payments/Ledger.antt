-- ===== src/Payments/Ledger.antt =====
-- Invoices against submissions: `submitPayment`, `review` and what it calls.
use skolara.Prelude.{
  ℕ, ◌+◌, ◌≤◌, ◌<◌, ◌≡◌, refl, ◌⊎◌, Bool, true, false, ◌&&◌, List, [], ◌∷◌, Option, arith, ◌==◌,
  inl, inr, if◌then◌else◌, String, any, count_by, sum_by, update_by, All, In, All-map,
  All-update_by, sum-update_by_same, In-of_count, Bool-cases, Option-cases,
}
use skolara.Store.{
  Prisma, Unique, Unique-update_by, insert_or, Unique-cons, keyed, eq_of_key, sum-update_by,
  found_row,
}
use skolara.Prelude.Action.{Keeps, Result-cases, unique_violation}
use skolara.Payments.{
  submissions_table, State, Invoice, PaymentSubmission, SubmitPaymentInput, ReviewPaymentInput,
  verify_input, reject_input, needs_info_input, partially_paid, paid, is_verified, is_unverified,
  mark_verified, mark_rejected, mark_needs_info, is_invoice, credit, set_receipt, clashes,
  is_duplicate, new_submission, submit_payment, verify, claim_for_review, next_reference_id,
  render_receipt, review,
}

-- What a submission has brought to the invoice.
abbrev pub credited : ℕ → PaymentSubmission → ℕ
credited invoice_id p =
    if p.invoice_id == invoice_id && is_verified p.status then p.amount_claimed else 0

-- Once anything is paid, the status says whether it is enough.
abbrev pub IsSettled : Invoice → Type 0
IsSettled i =
    (i.amount_paid ≡ 0)
    ⊎ ((i.status ≡ paid) × (i.amount_due ≤ i.amount_paid))
    ⊎ ((i.status ≡ partially_paid) × (i.amount_paid < i.amount_due))

abbrev pub AddsUp : (ℕ → ℕ) → List PaymentSubmission → Invoice → Type 0
AddsUp other submissions i =
    (i.amount_paid ≡ other i.id + sum_by (credited i.id) submissions) × IsSettled i

pub record IsBalanced (other : ℕ → ℕ) (s : State) : Type 0 where
  pub invoice_ids : Unique Invoice.id s.invoices
  pub submission_ids : Unique PaymentSubmission.id s.submissions
  pub adds_up : All (AddsUp other s.submissions) s.invoices

-- A verification credits the one invoice.
verified-AddsUp :
    (other : ℕ → ℕ) (school_id reviewer now : ℕ) (a : PaymentSubmission) (s : State)
    → IsBalanced other s
    → In a s.submissions
    → is_unverified school_id a.id a ≡ true
    → (count_by (is_invoice school_id a.invoice_id) s.invoices == 0) ≡ false
    → All
        (AddsUp other
          (update_by (is_unverified school_id a.id) (mark_verified reviewer now) s.submissions))
        (update_by (is_invoice school_id a.invoice_id) (credit a.amount_claimed) s.invoices)
verified-AddsUp other school_id reviewer now a s v m o c =
    let claims = is_unverified school_id a.id in
    let (i, k, q) = In-of_count (is_invoice school_id a.invoice_id) s.invoices c in
    All-update_by (AddsUp other s.submissions)
      (AddsUp other (update_by claims (mark_verified reviewer now) s.submissions)) _
      (credit a.amount_claimed) s.invoices
      (λ x n h. ground (
        arith,
        eq_of_key Invoice.id s.invoices x i v.invoice_ids n k,
        sum-update_by PaymentSubmission.id (credited x.id) claims (mark_verified reviewer now)
            s.submissions a (λ y t. ground arith) v.submission_ids m,
      ))
      v.adds_up

-- A change of one submission that credits nothing before or after.
uncredited-IsBalanced :
    (other : ℕ → ℕ) (p : PaymentSubmission → Bool) (f : PaymentSubmission → PaymentSubmission)
    (s : State)
    → ((x : PaymentSubmission) → (f x).id ≡ x.id)
    → ((n : ℕ) (x : PaymentSubmission) → credited n (if p x then f x else x) ≡ credited n x)
    → IsBalanced other s
    → IsBalanced other (record s { submissions = update_by p f s.submissions })
uncredited-IsBalanced other p f s k h v = record {
  invoice_ids = v.invoice_ids;
  submission_ids = Unique-update_by PaymentSubmission.id p f s.submissions k v.submission_ids;
  adds_up =
      All-map (AddsUp other s.submissions) _ s.invoices
        (λ i a. rw (sum-update_by_same (credited i.id) p f s.submissions (h i.id)) a) v.adds_up;
}

any_id_of_clash :
    (p : PaymentSubmission) (rows : List PaymentSubmission)
    → any (clashes p) rows ≡ false
    → any (keyed PaymentSubmission.id p.id) rows ≡ false
any_id_of_clash p [] h = refl
any_id_of_clash p (x ∷ rows) h = ground (arith, any_id_of_clash p rows)

module _ (db : Prisma) (other : ℕ → ℕ) where
  -- The transaction that verifies a submission leaves the ledger balanced where it was, also for
  -- a submission that was read earlier and reviewed since, as long as its row is still there with
  -- the same id, invoice and amount: every invoice has been paid what its verified submissions
  -- claimed, besides a given amount that reached it another way, its status says whether that is
  -- enough, and the ids are unique.
  pub verify-IsBalanced :
      (school_id reviewer now : ℕ) (a read : PaymentSubmission) (s : State)
      → IsBalanced other s
      → In a s.submissions
      → read.id ≡ a.id
      → read.invoice_id ≡ a.invoice_id
      → read.amount_claimed ≡ a.amount_claimed
      → IsBalanced other (verify db school_id read reviewer now s).1
  unfolding verify
  verify-IsBalanced school_id reviewer now a read s v m e f g =
      let claims = is_unverified school_id read.id in
      elim (Bool-cases (count_by claims s.submissions == 0)) [
        | inl gone ↦
            ground
              (arith, gone, db.update_many_lem claims (mark_verified reviewer now) s.submissions)
        | inr claimed ↦
            let (b, n, o) = In-of_count claims s.submissions claimed in
            ground (
              arith,
              claimed,
              o,
              eq_of_key PaymentSubmission.id s.submissions b a v.submission_ids n m,
              db.update_many_lem claims (mark_verified reviewer now) s.submissions,
              db.update_many_lem (is_invoice school_id read.invoice_id) (credit read.amount_claimed)
                  s.invoices,
              verified-AddsUp other school_id reviewer now a s v m,
              Unique-update_by PaymentSubmission.id claims (mark_verified reviewer now)
                  s.submissions (λ x. refl),
              Unique-update_by Invoice.id (is_invoice school_id read.invoice_id)
                  (credit read.amount_claimed) s.invoices (λ x. refl),
            )
      ]

  pub claim_for_review-IsBalanced :
      (school_id id : ℕ) (change : PaymentSubmission → PaymentSubmission) (s : State)
      → ((x : PaymentSubmission) → ((change x).id ≡ x.id) × (is_verified (change x).status ≡ false))
      → IsBalanced other s
      → IsBalanced other (claim_for_review db school_id id change s).1
  unfolding claim_for_review
  claim_for_review-IsBalanced school_id id change s h v = ground (
    arith,
    db.update_many_lem (is_unverified school_id id) change s.submissions,
    uncredited-IsBalanced other (is_unverified school_id id) change s (λ x. (h x).0)
        (λ n x. ground (arith, (h x).1)) v,
  )

  render_receipt-IsBalanced :
      (render : PaymentSubmission → Option String) (id : ℕ) (s : State)
      → IsBalanced other s
      → IsBalanced other (render_receipt db render id s).1
  unfolding render_receipt
  render_receipt-IsBalanced render id s v =
      elim (Option-cases (db.find_first (λ p. p.id == id) s.submissions)) [
        | inl e ↦ ground (arith, e)
        | inr (p, e) ↦ elim (Option-cases (render p)) [
          | inl f ↦ ground (arith, e, f)
          | inr (url, f) ↦ ground (
            arith,
            e,
            f,
            db.update_many_lem (λ p. p.id == id) (set_receipt url) s.submissions,
            uncredited-IsBalanced other (λ p. p.id == id) (set_receipt url) s (λ x. refl)
                (λ n x. ground arith) v,
          )
        ]
      ]

  -- A review of a payment, whatever its outcome and whether or not the receipt is rendered,
  -- leaves the ledger balanced where it was: every invoice has been paid what its verified
  -- submissions claimed, besides a given amount that reached it another way, its status says
  -- whether that is enough, and the ids are unique.
  pub review-IsBalanced :
      (render : PaymentSubmission → Option String) (school_id id reviewer now : ℕ)
      (input : ReviewPaymentInput) (s : State)
      → IsBalanced other s
      → IsBalanced other (review db render school_id id reviewer now input s).1
  unfolding review
  review-IsBalanced render school_id id reviewer now verify_input s v =
      let own = λ (p : PaymentSubmission). p.id == id && p.school_id == school_id in
      elim (Option-cases (db.find_first own s.submissions)) [
        | inl e ↦ ground (arith, e)
        | inr (p, e) ↦
            let (m, q) = found_row db own s.submissions e in
            let after = verify db school_id p reviewer now s in
            ground (
              arith,
              e,
              verify-IsBalanced school_id reviewer now p p s v m refl refl refl,
              render_receipt-IsBalanced render p.id after.1,
            )
      ]
  review-IsBalanced render school_id id reviewer now (reject_input reason note) s v = ground (
    arith,
    claim_for_review-IsBalanced school_id id (mark_rejected reason note reviewer now) s
        (λ x. (refl, refl)) v,
  )
  review-IsBalanced render school_id id reviewer now (needs_info_input note) s v = ground (
    arith,
    claim_for_review-IsBalanced school_id id (mark_needs_info note reviewer now) s
        (λ x. (refl, refl)) v,
  )

  -- A row of its own that credits nothing.
  submitted-IsBalanced :
      (p : PaymentSubmission) (s : State)
      → any (clashes p) s.submissions ≡ false
      → is_verified p.status ≡ false
      → IsBalanced other s
      → IsBalanced other (record s { submissions = p ∷ s.submissions })
  submitted-IsBalanced p s c h v = record {
    invoice_ids = v.invoice_ids;
    submission_ids =
        Unique-cons PaymentSubmission.id p s.submissions (any_id_of_clash p s.submissions c)
          v.submission_ids;
    adds_up =
        All-map (AddsUp other s.submissions) _ s.invoices (λ i a. ground (arith, a, h)) v.adds_up;
  }

  -- The counter is in a table of its own.
  next_reference_id-rows :
      (school_id year : ℕ) (s : State)
      → ((next_reference_id db school_id year s).1.invoices ≡ s.invoices)
        × ((next_reference_id db school_id year s).1.submissions ≡ s.submissions)
  unfolding next_reference_id
  next_reference_id-rows school_id year s = ground arith

  next_reference_id-Keeps :
      (school_id year : ℕ) → Keeps (IsBalanced other) (next_reference_id db school_id year)
  next_reference_id-Keeps school_id year s v =
      ground (arith, next_reference_id-rows school_id year s)

  insert_submission-Keeps :
      (p : PaymentSubmission)
      → is_verified p.status ≡ false
      → Keeps (IsBalanced other) (insert_or db submissions_table clashes p unique_violation)
  insert_submission-Keeps p h s v =
      ground (arith, db.create_lem clashes p s.submissions, submitted-IsBalanced p s)

  -- Submitting a payment leaves the ledger balanced where it was, on every path: every invoice
  -- has been paid what its verified submissions claimed, besides a given amount that reached it
  -- another way, its status says whether that is enough, and the ids are unique.
  pub submit_payment-IsBalanced :
      (school_id student_id submitted_by id year : ℕ) (input : SubmitPaymentInput) (s : State)
      → IsBalanced other s
      → IsBalanced other (submit_payment db school_id student_id submitted_by id year input s).1
  unfolding submit_payment
  submit_payment-IsBalanced school_id student_id submitted_by id year input s v =
      let next = next_reference_id db school_id year s in
      elim (Result-cases next.0) [
        | inl (reference, e) ↦ ground (
          arith,
          e,
          next_reference_id-Keeps school_id year s v,
          insert_submission-Keeps
              (new_submission school_id student_id submitted_by id input reference
                (db.find_first (is_duplicate school_id student_id input) next.1.submissions))
              refl next.1,
        )
        | inr (x, e) ↦ ground (arith, e, next_reference_id-Keeps school_id year s v)
      ]
