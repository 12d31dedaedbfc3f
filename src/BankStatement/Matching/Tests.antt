-- ===== src/BankStatement/Matching/Tests.antt =====
-- Runs of the matching, and the theorems about it at concrete inputs.
use skolara.Prelude.{◌≡◌, refl, true, All, none, some, [], ◌∷◌}
use skolara.Store.{listed, Distinct}
use skolara.BankStatement.Matching.{
  BankStatementLine, PaymentSubmission, State, find_line, suggest, suggested_matches,
}
use skolara.BankStatement.Matching.Once.{line_ids, IsOffer, suggested_matches-once}

abbrev spent : BankStatementLine
spent = record {
  id = 1;
  school_id = 7;
  transaction_date = 10;
  amount = 500;
  matched_payment_submission_id = some 30;
}

abbrev waiting : PaymentSubmission
waiting = record { id = 31; school_id = 7; amount_claimed = 500; is_pending = true; created_at = 5 }

-- Two families wait for the same amount, and one line is left.
abbrev pool : State
pool = record {
  submissions = waiting ∷ record waiting { id = 32; created_at = 6 } ∷ [];
  lines = spent ∷ record spent { id = 2; matched_payment_submission_id = none } ∷ [];
}

one_suggestion : line_ids (suggested_matches listed 7 pool) ≡ 2 ∷ []
unfolding suggested_matches suggest find_line
one_suggestion = refl

suggested_matches-once_example :
    Distinct (line_ids (suggested_matches listed 7 pool))
    × All (IsOffer listed 7) (suggested_matches listed 7 pool)
suggested_matches-once_example = suggested_matches-once listed 7 pool
