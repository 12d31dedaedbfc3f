-- ===== src/Payments/Rows.antt =====
-- The rows and inputs of `apps/api/src/payments/payments.service.ts`, and the writes of their
-- columns.
use skolara.Prelude.{
  ℕ, ◌+◌, String, Bool, true, false, not, ◌&&◌, ◌||◌, List, Option, none, some, leb, ◌==◌,
  if◌then◌else◌,
}
use skolara.Store.{Table}

pub data InvoiceStatus : Type 0 where
  unpaid partially_paid paid overdue : InvoiceStatus

pub data SubmissionStatus : Type 0 where
  pending_verification verified rejected needs_info : SubmissionStatus

pub data RejectionReason : Type 0 where
  amount_mismatch screenshot_unclear wrong_account duplicate_submission other : RejectionReason

pub data Role : Type 0 where
  super_admin school_admin teacher parent student : Role

pub record Reference : Type 0 where
  pub year : ℕ
  pub sequence : ℕ

pub data Note : Type 0 where
  duplicate_of : Reference → Note
  text : String → Note

pub record Invoice : Type 0 where
  pub id : ℕ
  pub school_id : ℕ
  pub student_id : ℕ
  pub amount_due : ℕ
  pub amount_paid : ℕ
  pub status : InvoiceStatus

pub record PaymentSubmission : Type 0 where
  pub id : ℕ
  pub reference_id : Reference
  pub school_id : ℕ
  pub student_id : ℕ
  pub invoice_id : ℕ
  pub submitted_by_user_id : ℕ
  pub amount_claimed : ℕ
  pub screenshot_url : String
  pub status : SubmissionStatus
  pub rejection_reason : Option RejectionReason
  pub review_note : Option Note
  pub reviewed_by_user_id : Option ℕ
  pub reviewed_at : Option ℕ
  pub receipt_url : Option String

pub record ReferenceSequence : Type 0 where
  pub school_id : ℕ
  pub year : ℕ
  pub last_sequence : ℕ

pub record StudentProfile : Type 0 where
  pub id : ℕ
  pub user_id : ℕ

pub record ParentStudentLink : Type 0 where
  pub parent_user_id : ℕ
  pub student_id : ℕ

pub record State : Type 0 where
  pub invoices : List Invoice
  pub submissions : List PaymentSubmission
  pub sequences : List ReferenceSequence
  pub students : List StudentProfile
  pub links : List ParentStudentLink

pub record AuthenticatedUser : Type 0 where
  pub id : ℕ
  pub role : Role

pub record SubmitPaymentInput : Type 0 where
  pub invoice_id : ℕ
  pub amount_claimed : ℕ
  pub screenshot_url : String

pub data ReviewPaymentInput : Type 0 where
  verify_input : ReviewPaymentInput
  reject_input : RejectionReason → Option String → ReviewPaymentInput
  needs_info_input : String → ReviewPaymentInput

abbrev pub invoices_table : Table State Invoice
invoices_table = record { get = λ s. s.invoices; put = λ s rows. record s { invoices = rows } }

abbrev pub submissions_table : Table State PaymentSubmission
submissions_table = record {
  get = λ s. s.submissions;
  put = λ s rows. record s { submissions = rows };
}

abbrev pub sequences_table : Table State ReferenceSequence
sequences_table = record { get = λ s. s.sequences; put = λ s rows. record s { sequences = rows } }

abbrev pub students_table : Table State StudentProfile
students_table = record { get = λ s. s.students; put = λ s rows. record s { students = rows } }

abbrev pub links_table : Table State ParentStudentLink
links_table = record { get = λ s. s.links; put = λ s rows. record s { links = rows } }

abbrev pub is_verified : SubmissionStatus → Bool
is_verified verified = true
is_verified _ = false

abbrev pub is_pending : SubmissionStatus → Bool
is_pending pending_verification = true
is_pending _ = false

-- The unique index on `referenceId`, which is over all schools, and the primary key.
abbrev pub clashes : PaymentSubmission → PaymentSubmission → Bool
clashes x y =
    y.id == x.id
    || x.reference_id.year == y.reference_id.year
      && x.reference_id.sequence == y.reference_id.sequence

abbrev pub is_sequence : ℕ → ℕ → ReferenceSequence → Bool
is_sequence school_id year q = q.school_id == school_id && q.year == year

abbrev pub increment : ReferenceSequence → ReferenceSequence
increment q = record q { last_sequence = q.last_sequence + 1 }

-- The primary key (schoolId, year).
abbrev pub same_sequence : ReferenceSequence → ReferenceSequence → Bool
same_sequence x y = is_sequence x.school_id x.year y

abbrev pub is_duplicate : ℕ → ℕ → SubmitPaymentInput → PaymentSubmission → Bool
is_duplicate school_id student_id input p =
    p.school_id == school_id
    && (p.invoice_id == input.invoice_id
        && (p.student_id == student_id
            && (p.amount_claimed == input.amount_claimed && is_pending p.status)))

abbrev pub new_submission :
    (school_id student_id submitted_by id : ℕ)
    → SubmitPaymentInput
    → Reference
    → Option PaymentSubmission
    → PaymentSubmission
new_submission school_id student_id submitted_by id input reference possible_duplicate = record {
  id = id;
  reference_id = reference;
  school_id = school_id;
  student_id = student_id;
  invoice_id = input.invoice_id;
  submitted_by_user_id = submitted_by;
  amount_claimed = input.amount_claimed;
  screenshot_url = input.screenshot_url;
  status = pending_verification;
  rejection_reason = none;
  review_note = elim possible_duplicate [
    | none ↦ none
    | some p ↦ some (duplicate_of p.reference_id)
  ];
  reviewed_by_user_id = none;
  reviewed_at = none;
  receipt_url = none;
}

-- `{ id, schoolId, status: { not: "VERIFIED" } }`
abbrev pub is_unverified : ℕ → ℕ → PaymentSubmission → Bool
is_unverified school_id id p =
    p.id == id && (p.school_id == school_id && not (is_verified p.status))

abbrev pub mark_verified : ℕ → ℕ → PaymentSubmission → PaymentSubmission
mark_verified reviewer now p = record p {
  status = verified;
  reviewed_by_user_id = some reviewer;
  reviewed_at = some now;
}

abbrev pub mark_rejected :
    RejectionReason → Option String → ℕ → ℕ → PaymentSubmission → PaymentSubmission
mark_rejected reason note reviewer now p = record p {
  status = rejected;
  rejection_reason = some reason;
  review_note = elim note [ none ↦ none | some t ↦ some (text t) ];
  reviewed_by_user_id = some reviewer;
  reviewed_at = some now;
}

abbrev pub mark_needs_info : String → ℕ → ℕ → PaymentSubmission → PaymentSubmission
mark_needs_info note reviewer now p = record p {
  status = needs_info;
  review_note = some (text note);
  reviewed_by_user_id = some reviewer;
  reviewed_at = some now;
}

abbrev pub is_invoice : ℕ → ℕ → Invoice → Bool
is_invoice school_id id i = i.id == id && i.school_id == school_id

-- The raw update that credits an invoice.
abbrev pub credit : ℕ → Invoice → Invoice
credit amount i = record i {
  amount_paid = i.amount_paid + amount;
  status = if leb i.amount_due (i.amount_paid + amount) then paid else partially_paid;
}

abbrev pub set_receipt : String → PaymentSubmission → PaymentSubmission
set_receipt url p = record p { receipt_url = some url }
