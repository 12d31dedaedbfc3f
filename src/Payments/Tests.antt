-- ===== src/Payments/Tests.antt =====
-- Runs of the payments service, and the theorems about it at concrete inputs.
use skolara.Prelude.{ℕ, ◌≡◌, refl, String, Option, none, some, [], ◌∷◌, inl}
use skolara.Prelude.Action.{ok, err, unique_violation, bad_request}
use skolara.Store.{listed}
use skolara.Payments.{
  Invoice, PaymentSubmission, State, SubmitPaymentInput, unpaid, pending_verification, verify_input,
  mark_verified, credit, submit_payment, verify, review,
}
use skolara.Payments.Ledger.{IsBalanced, review-IsBalanced}
use skolara.Payments.Review.{verify_twice}
use skolara.Payments.References.{submit_payment-first_taken}

abbrev fee : Invoice
fee = record {
  id = 1;
  school_id = 7;
  student_id = 3;
  amount_due = 500;
  amount_paid = 0;
  status = unpaid;
}

abbrev transfer : PaymentSubmission
transfer = record {
  id = 30;
  reference_id = record { year = 2026; sequence = 1 };
  school_id = 7;
  student_id = 3;
  invoice_id = 1;
  submitted_by_user_id = 5;
  amount_claimed = 500;
  screenshot_url = "u";
  status = pending_verification;
  rejection_reason = none;
  review_note = none;
  reviewed_by_user_id = none;
  reviewed_at = none;
  receipt_url = none;
}

-- A second school, 8, has an invoice and no submission yet.
abbrev books : State
books = record {
  invoices = fee ∷ record fee { id = 2; school_id = 8; student_id = 4 } ∷ [];
  submissions = transfer ∷ [];
  sequences = record { school_id = 7; year = 2026; last_sequence = 1 } ∷ [];
  students = [];
  links = [];
}

abbrev no_gateway : ℕ → ℕ
no_gateway id = 0

abbrev render : PaymentSubmission → Option String
render p = some "receipt.pdf"

abbrev claim : SubmitPaymentInput
claim = record { invoice_id = 2; amount_claimed = 200; screenshot_url = "v" }

books-IsBalanced : IsBalanced no_gateway books
books-IsBalanced = record {
  invoice_ids = (refl, (refl, tt));
  submission_ids = (refl, tt);
  adds_up = ((refl, inl refl), ((refl, inl refl), tt));
}

review-IsBalanced_example :
    IsBalanced no_gateway (review listed render 7 30 9 60 verify_input books).1
review-IsBalanced_example =
    review-IsBalanced listed no_gateway render 7 30 9 60 verify_input books books-IsBalanced

abbrev verified_books : State
verified_books = record books {
  invoices = credit 500 fee ∷ record fee { id = 2; school_id = 8; student_id = 4 } ∷ [];
  submissions = mark_verified 9 60 transfer ∷ [];
}

first_verification :
    verify listed 7 transfer 9 60 books ≡ (ok (mark_verified 9 60 transfer), verified_books)
unfolding verify
first_verification = refl

verify_twice_example :
    verify listed 7 transfer 11 61 verified_books
    ≡ (err (bad_request "Submission already verified"), verified_books)
verify_twice_example =
    verify_twice listed 7 9 60 11 61 transfer transfer books first_verification refl

submit_payment-first_taken_example :
    (submit_payment listed 8 4 6 32 2026 claim books).0 ≡ err unique_violation
submit_payment-first_taken_example =
    submit_payment-first_taken listed 8 4 6 32 2026 claim books transfer refl (inl refl) refl refl
