-- ===== src/Payments/Review.antt =====
-- One submission and two reviewers: the transaction of `review`.
use skolara.Prelude.{
  true, ◌==◌, any, In, any_of_In, count_pos_of_In, ℕ, ◌≡◌, arith, count_by, update_by,
  count-claimed,
}
use skolara.Prelude.Action.{ok, err, bad_request}
use skolara.Store.{Prisma, find_some, found_row, In-of_any, In-into-update_by}
use skolara.Payments.{
  State, PaymentSubmission, is_unverified, mark_verified, is_invoice, credit, verify,
}

module _ (db : Prisma) where
  -- What a verification that went through leaves of the submissions.
  verify-submissions :
      (school_id reviewer now : ℕ) (read : PaymentSubmission) (s : State) {p : PaymentSubmission}
      {t : State}
      → verify db school_id read reviewer now s ≡ (ok p, t)
      → t.submissions
        ≡ update_by (is_unverified school_id read.id) (mark_verified reviewer now) s.submissions
  unfolding verify
  verify-submissions school_id reviewer now read s e = ground (
    arith,
    db.update_many_lem (is_unverified school_id read.id) (mark_verified reviewer now) s.submissions,
    db.update_many_lem (is_invoice school_id read.invoice_id) (credit read.amount_claimed)
        s.invoices,
  )

  nothing_to_claim :
      (school_id reviewer now id : ℕ) (s t : State)
      → t.submissions
        ≡ update_by (is_unverified school_id id) (mark_verified reviewer now) s.submissions
      → count_by (is_unverified school_id id) t.submissions ≡ 0
  nothing_to_claim school_id reviewer now id s t e = rw e (
      count-claimed (is_unverified school_id id) (mark_verified reviewer now) s.submissions
        (λ x. ground arith))

  -- After a verification that went through, a second one of the same submission is refused with
  -- `Submission already verified` and changes nothing, whatever the second reviewer had read of
  -- it but the id.
  pub verify_twice :
      (school_id reviewer now reviewer' now' : ℕ) (read read' : PaymentSubmission) (s : State)
      {p : PaymentSubmission} {t : State}
      → verify db school_id read reviewer now s ≡ (ok p, t)
      → read'.id ≡ read.id
      → verify db school_id read' reviewer' now' t
        ≡ (err (bad_request "Submission already verified"), t)
  unfolding verify
  verify_twice school_id reviewer now reviewer' now' read read' s {t = t} e f = ground (
    arith,
    nothing_to_claim school_id reviewer now read.id s t
        (verify-submissions school_id reviewer now read s e),
    db.update_many_lem (is_unverified school_id read'.id) (mark_verified reviewer' now')
        t.submissions,
  )

  -- Where a submission is not verified and its invoice exists, the transaction that verifies it
  -- goes through and answers the submission: afterwards the submission is marked verified, the
  -- invoice is credited with the amount claimed, and the rest of the state is as it was.
  pub verify_credits :
      (school_id reviewer now : ℕ) (a : PaymentSubmission) (s : State)
      → In a s.submissions
      → is_unverified school_id a.id a ≡ true
      → any (is_invoice school_id a.invoice_id) s.invoices ≡ true
      → (p : PaymentSubmission) × (p.id ≡ a.id)
        × (verify db school_id a reviewer now s ≡ (
          ok p,
          record s {
            submissions =
                update_by (is_unverified school_id a.id) (mark_verified reviewer now) s.submissions;
            invoices =
                update_by (is_invoice school_id a.invoice_id) (credit a.amount_claimed) s.invoices;
          },
        ))
  unfolding verify
  verify_credits school_id reviewer now a s m o i =
      let claims = is_unverified school_id a.id in
      let has_id = λ (p : PaymentSubmission). p.id == a.id in
      let rows = update_by claims (mark_verified reviewer now) s.submissions in
      let there =
        any_of_In has_id rows (mark_verified reviewer now a)
          (ground
            (arith, o, In-into-update_by claims (mark_verified reviewer now) s.submissions a m))
          (ground arith) in
      let (p, e) = find_some db has_id rows there in
      let (invoice, n, q) = In-of_any (is_invoice school_id a.invoice_id) s.invoices i in
      (
        p,
        ground (arith, found_row db has_id rows e),
        ground (
          arith,
          e,
          db.update_many_lem claims (mark_verified reviewer now) s.submissions,
          db.update_many_lem (is_invoice school_id a.invoice_id) (credit a.amount_claimed)
              s.invoices,
          count_pos_of_In claims s.submissions a m,
          count_pos_of_In (is_invoice school_id a.invoice_id) s.invoices invoice n,
        ),
      )
