-- ===== src/Payments/References.antt =====
-- References: `nextReferenceId`, whose counter is per school, and the unique index on the
-- reference, which is over all schools.
use skolara.Prelude.{ℕ, ◌≡◌, true, false, ◌&&◌, arith, ◌==◌, any, In, any_of_In}
use skolara.Prelude.Action.{err, unique_violation}
use skolara.Store.{Prisma, find_none, find_some}
use skolara.Payments.{
  Invoice, Reference, State, PaymentSubmission, ReferenceSequence, SubmitPaymentInput, is_sequence,
  same_sequence, clashes, is_duplicate, new_submission, next_reference_id, submit_payment,
}

abbrev pub first_reference : ℕ → Reference
first_reference year = record { year = year; sequence = 1 }

module _ (db : Prisma) where
  -- A school's first submission of a year, for an invoice that exists, fails with a unique
  -- violation where any submission has the first reference of that year, such as one of another
  -- school.
  pub submit_payment-first_taken :
      (school_id student_id submitted_by id year : ℕ) (input : SubmitPaymentInput) (s : State)
      (taken : PaymentSubmission)
      → any (is_sequence school_id year) s.sequences ≡ false
      → In taken s.submissions
      → taken.reference_id ≡ first_reference year
      → any
          (λ i.
            i.id == input.invoice_id && (i.school_id == school_id && i.student_id == student_id))
          s.invoices
        ≡ true
      → (submit_payment db school_id student_id submitted_by id year input s).0
        ≡ err unique_violation
  unfolding submit_payment next_reference_id
  submit_payment-first_taken school_id student_id submitted_by id year input s taken q m r i =
      let row : ReferenceSequence = record {
        school_id = school_id;
        year = year;
        last_sequence = 1;
      } in
      let pays = λ (v : Invoice).
        v.id == input.invoice_id && (v.school_id == school_id && v.student_id == student_id) in
      let (invoice, e) = find_some db pays s.invoices i in
      let created =
        new_submission school_id student_id submitted_by id input (first_reference year)
          (db.find_first (is_duplicate school_id student_id input) s.submissions) in
      ground (
        arith,
        e,
        find_none db (is_sequence school_id year) s.sequences q,
        db.create_lem same_sequence row s.sequences,
        db.create_lem clashes created s.submissions,
        any_of_In (clashes created) s.submissions taken m,
      )
