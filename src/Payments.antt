-- ===== src/Payments.antt =====
-- Fee payments: `apps/api/src/payments/payments.service.ts`, the row and input types of
-- `packages/types/src/payment.ts` and `packages/utils/src/reference-id.ts`. Amounts are in paisa
-- (the columns are decimals with two places), ids and times are numbers, and a reference is the
-- year and the sequence number that its text `SKL-<year>-<sequence>` is made of. The documents
-- service that renders a receipt is a parameter, which answers a URL or fails; notifications change
-- no state and are left out.
pub mod Rows
pub mod Ledger
pub mod Review
pub mod References
mod Tests
pub use Rows.*
use skolara.Prelude.{ℕ, ◌+◌, String, not, ◌&&◌, Option, none, some, ◌==◌}
use skolara.Prelude.Action.{
  Action, attempt, or_raise, service_failed, bad_request, forbidden, not_found, record_missing,
  unique_violation, ◌>>=◌, ◌>>◌, pure, raise, raise_if, transaction,
}
use skolara.Store.{Prisma, find, find_or, insert_or, update_many, update}

module _ (db : Prisma) where
  pub assert_can_submit_for : AuthenticatedUser → (student_id : ℕ) → Action State (Unit {0})
  assert_can_submit_for user student_id = elim user.role [
    | student ↦ do
      _ ←
          find_or db students_table (λ p. p.id == student_id && p.user_id == user.id)
            (forbidden "Not your record")
      pure tt
    | parent ↦ do
      _ ←
          find_or db links_table (λ l. l.parent_user_id == user.id && l.student_id == student_id)
            (forbidden "Not your child's record")
      pure tt
    | _ ↦ raise (forbidden "Only parents or students can submit payments")
  ]

  -- The upsert of the counter: one more, or 1 where there is none.
  next_reference_id : (school_id year : ℕ) → Action State Reference
  next_reference_id school_id year s =
      elim (db.find_first (is_sequence school_id year) s.sequences) [
        | none ↦
            (do
              q ←
                  insert_or db sequences_table same_sequence
                    (record { school_id = school_id; year = year; last_sequence = 1 })
                    unique_violation
              pure (record { year = year; sequence = q.last_sequence }))
              s
        | some q ↦
            (do
              update db sequences_table (is_sequence school_id year) increment
              pure (record { year = year; sequence = q.last_sequence + 1 }))
              s
      ]

  pub submit_payment :
      (school_id student_id submitted_by id year : ℕ)
      → SubmitPaymentInput
      → Action State PaymentSubmission
  unfolding next_reference_id
  submit_payment school_id student_id submitted_by id year input = do
    _ ←
        find_or db invoices_table
          (λ i.
            i.id == input.invoice_id && (i.school_id == school_id && i.student_id == student_id))
          (not_found "Invoice not found")
    reference ← next_reference_id school_id year
    possible_duplicate ← find db submissions_table (is_duplicate school_id student_id input)
    insert_or db submissions_table clashes
        (new_submission school_id student_id submitted_by id input reference possible_duplicate)
        unique_violation

  -- The transaction that verifies the submission which was read before it.
  pub verify :
      (school_id : ℕ) → PaymentSubmission → (reviewer now : ℕ) → Action State PaymentSubmission
  verify school_id submission reviewer now = transaction (do
    claimed ←
        update_many db submissions_table (is_unverified school_id submission.id)
          (mark_verified reviewer now)
    raise_if (claimed == 0) (bad_request "Submission already verified")
    credited ←
        update_many db invoices_table (is_invoice school_id submission.invoice_id)
          (credit submission.amount_claimed)
    raise_if (credited == 0) (not_found "Invoice not found")
    find_or db submissions_table (λ p. p.id == submission.id) record_missing)

  pub claim_for_review :
      (school_id id : ℕ) → (PaymentSubmission → PaymentSubmission) → Action State PaymentSubmission
  claim_for_review school_id id change = do
    claimed ← update_many db submissions_table (is_unverified school_id id) change
    raise_if (claimed == 0) (bad_request "Submission already verified")
    find_or db submissions_table (λ p. p.id == id) record_missing

  -- Best effort: where the row is gone or the rendering fails, nothing is stored.
  render_receipt :
      (PaymentSubmission → Option String) → (submission_id : ℕ) → Action State (Option String)
  render_receipt render submission_id = attempt none (do
    p ← find_or db submissions_table (λ p. p.id == submission_id) record_missing
    url ← or_raise (render p) service_failed
    update db submissions_table (λ p. p.id == submission_id) (set_receipt url)
    pure (some url))

  pub review :
      (PaymentSubmission → Option String)
      → (school_id id reviewer now : ℕ) → ReviewPaymentInput
      → Action State PaymentSubmission
  unfolding render_receipt
  review render school_id id reviewer now input = do
    submission ←
        find_or db submissions_table (λ p. p.id == id && p.school_id == school_id)
          (not_found "Payment submission not found")
    raise_if (is_verified submission.status) (bad_request "Submission already verified")
    elim input [
      | verify_input ↦ do
        updated ← verify school_id submission reviewer now
        receipt_url ← render_receipt render submission.id
        pure (elim receipt_url [ none ↦ updated | some url ↦ set_receipt url updated ])
      | reject_input reason note ↦
          claim_for_review school_id id (mark_rejected reason note reviewer now)
      | needs_info_input note ↦ claim_for_review school_id id (mark_needs_info note reviewer now)
    ]
