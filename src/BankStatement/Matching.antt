-- ===== src/BankStatement/Matching.antt =====
-- `suggestedMatches` and `confirmMatch`.
pub mod Once
mod Tests
use skolara.Prelude.{
  ℕ, Bool, true, false, not, ◌&&◌, List, [], ◌∷◌, Option, none, some, ◌==◌, is_none, holds,
  same_some, if◌then◌else◌, any,
}
use skolara.Prelude.Action.{
  Action, ok, err, conflict, not_found, record_missing, ◌>>=◌, ◌>>◌, raise,
}
use skolara.Store.{Prisma, Table, no_clash, find_or}

pub record BankStatementLine : Type 0 where
  pub id : ℕ
  pub school_id : ℕ
  pub transaction_date : ℕ
  pub amount : ℕ
  pub matched_payment_submission_id : Option ℕ

pub record PaymentSubmission : Type 0 where
  pub id : ℕ
  pub school_id : ℕ
  pub amount_claimed : ℕ
  pub is_pending : Bool
  pub created_at : ℕ

pub record State : Type 0 where
  pub submissions : List PaymentSubmission
  pub lines : List BankStatementLine

abbrev pub submissions_table : Table State PaymentSubmission
submissions_table = record {
  get = λ s. s.submissions;
  put = λ s rows. record s { submissions = rows };
}

abbrev pub lines_table : Table State BankStatementLine
lines_table = record { get = λ s. s.lines; put = λ s rows. record s { lines = rows } }

pub record Suggestion : Type 0 where
  pub payment_submission_id : ℕ
  pub amount_claimed : ℕ
  pub bank_statement_line : BankStatementLine

-- `spokenFor.has(id)`
abbrev pub has : List ℕ → ℕ → Bool
has ids id = any (λ n. n == id) ids

-- `unmatchedLines.find(…)`: the first line that is not spoken for and of the amount.
pub find_line : List ℕ → ℕ → List BankStatementLine → Option BankStatementLine
find_line spoken_for amount [] = none
find_line spoken_for amount (l ∷ lines) =
    if not (has spoken_for l.id) && l.amount == amount
    then some l
    else find_line spoken_for amount lines

-- The loop over the pending submissions.
pub suggest : List BankStatementLine → List ℕ → List PaymentSubmission → List Suggestion
suggest lines spoken_for [] = []
suggest lines spoken_for (p ∷ pending) = elim (find_line spoken_for p.amount_claimed lines) [
  | none ↦ suggest lines spoken_for pending
  | some l ↦
      record {
        payment_submission_id = p.id;
        amount_claimed = p.amount_claimed;
        bank_statement_line = l;
      }
      ∷ suggest lines (l.id ∷ spoken_for) pending
]

-- The unique index on the matched payment.
abbrev pub same_match : BankStatementLine → BankStatementLine → Bool
same_match x y = same_some x.matched_payment_submission_id y.matched_payment_submission_id

abbrev pub is_unmatched : ℕ → ℕ → BankStatementLine → Bool
is_unmatched school_id line_id l =
    l.id == line_id && (l.school_id == school_id && is_none l.matched_payment_submission_id)

abbrev pub match_to : ℕ → BankStatementLine → BankStatementLine
match_to submission_id l = record l { matched_payment_submission_id = some submission_id }

module _ (db : Prisma) where
  pub suggested_matches : (school_id : ℕ) → State → List Suggestion
  suggested_matches school_id s =
      suggest
        (db.find_many (λ l. l.school_id == school_id && is_none l.matched_payment_submission_id)
          (λ l. l.transaction_date) s.lines)
        []
        (db.find_many (λ p. p.school_id == school_id && p.is_pending) (λ p. p.created_at)
          s.submissions)

  pub confirm_match : (school_id line_id submission_id : ℕ) → Action State BankStatementLine
  confirm_match school_id line_id submission_id = do
    _ ←
        find_or db submissions_table (λ p. p.id == submission_id && p.school_id == school_id)
          (not_found "Payment submission not found")
    claimed ← (λ s.
        elim (db.update_unique (no_clash same_match) (is_unmatched school_id line_id)
          (match_to submission_id) s.lines) [
            | none ↦ (err (conflict "That payment is already matched to another transfer"), s)
            | some (n, rows) ↦ (ok n, record s { lines = rows })
          ])
    (elim (claimed == 0) [
      | true ↦ do
        l ←
            find_or db lines_table (λ l. l.id == line_id && l.school_id == school_id)
              (not_found "Bank statement line not found")
        raise (
            conflict (
              if holds l.matched_payment_submission_id submission_id
              then "That transfer is already matched to this payment"
              else "That transfer is already matched to another payment"))
      | false ↦ find_or db lines_table (λ l. l.id == line_id) record_missing
    ])
