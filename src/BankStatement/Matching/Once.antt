-- ===== src/BankStatement/Matching/Once.antt =====
-- Lines and the payments they settle: `suggestedMatches` and `confirmMatch`.
use skolara.Prelude.{
  ℕ, ◌≡◌, refl, true, false, ◌&&◌, List, [], ◌∷◌, none, some, arith, ◌==◌, is_none, All, In, All-In,
  map, inl, inr, Option-cases, All-map,
}
use skolara.Store.{Prisma, Distinct, no_clash, All-find_many, In-into-update_by}
use skolara.BankStatement.Matching.{
  State, BankStatementLine, PaymentSubmission, Suggestion, has, find_line, suggest,
  suggested_matches, same_match, is_unmatched, match_to, confirm_match,
}

-- What `find_line` answers.
find_line-some :
    (spoken_for : List ℕ) (amount : ℕ) (lines : List BankStatementLine) (l : BankStatementLine)
    → find_line spoken_for amount lines ≡ some l
    → In l lines × (has spoken_for l.id ≡ false) × (l.amount ≡ amount)
unfolding find_line
find_line-some spoken_for amount [] l e = cc
find_line-some spoken_for amount (x ∷ lines) l e =
    ground (arith, find_line-some spoken_for amount lines l)

abbrev pub line_ids : List Suggestion → List ℕ
line_ids = map (λ g. g.bank_statement_line.id)

-- No line that is spoken for is suggested.
suggest-fresh :
    (lines : List BankStatementLine) (spoken_for : List ℕ) (pending : List PaymentSubmission)
    (id : ℕ)
    → has spoken_for id ≡ true
    → has (line_ids (suggest lines spoken_for pending)) id ≡ false
unfolding suggest
suggest-fresh lines spoken_for [] id h = refl
suggest-fresh lines spoken_for (p ∷ pending) id h =
    elim (Option-cases (find_line spoken_for p.amount_claimed lines)) [
      | inl e ↦ rw (e, suggest) (suggest-fresh lines spoken_for pending id h)
      | inr (l, e) ↦ ground (
        arith,
        e,
        find_line-some spoken_for p.amount_claimed lines l e,
        suggest-fresh lines (l.id ∷ spoken_for) pending id,
      )
    ]

suggest-Distinct :
    (lines : List BankStatementLine) (spoken_for : List ℕ) (pending : List PaymentSubmission)
    → Distinct (line_ids (suggest lines spoken_for pending))
unfolding suggest
suggest-Distinct lines spoken_for [] = tt
suggest-Distinct lines spoken_for (p ∷ pending) =
    elim (Option-cases (find_line spoken_for p.amount_claimed lines)) [
      | inl e ↦ rw (e, suggest) (suggest-Distinct lines spoken_for pending)
      | inr (l, e) ↦
          rw (e, suggest)
            (
              suggest-fresh lines (l.id ∷ spoken_for) pending l.id (ground arith),
              suggest-Distinct lines (l.id ∷ spoken_for) pending,
            )
    ]

-- A suggestion pairs equal amounts, and its line is one of those given.
abbrev pub IsFair : List BankStatementLine → Suggestion → Type 0
IsFair lines g = In g.bank_statement_line lines × (g.bank_statement_line.amount ≡ g.amount_claimed)

suggest-IsFair :
    (lines : List BankStatementLine) (spoken_for : List ℕ) (pending : List PaymentSubmission)
    → All (IsFair lines) (suggest lines spoken_for pending)
unfolding suggest
suggest-IsFair lines spoken_for [] = tt
suggest-IsFair lines spoken_for (p ∷ pending) =
    elim (Option-cases (find_line spoken_for p.amount_claimed lines)) [
      | inl e ↦ rw (e, suggest) (suggest-IsFair lines spoken_for pending)
      | inr (l, e) ↦
          let (m, _, a) = find_line-some spoken_for p.amount_claimed lines l e in
          rw (e, suggest) ((m, a), suggest-IsFair lines (l.id ∷ spoken_for) pending)
    ]

module _ (db : Prisma) where
  abbrev pub IsOffer : ℕ → Suggestion → Type 0
  IsOffer school_id g =
      (g.bank_statement_line.school_id ≡ school_id)
      × (g.bank_statement_line.matched_payment_submission_id ≡ none)
      × (g.bank_statement_line.amount ≡ g.amount_claimed)

  -- Each bank line is suggested at most once, for a claim of its amount, and only while it is
  -- unmatched and of the school.
  pub suggested_matches-once :
      (school_id : ℕ) (s : State)
      → Distinct (line_ids (suggested_matches db school_id s))
        × All (IsOffer school_id) (suggested_matches db school_id s)
  unfolding suggested_matches
  suggested_matches-once school_id s =
      let fits = λ (l : BankStatementLine).
        l.school_id == school_id && is_none l.matched_payment_submission_id in
      let lines = db.find_many fits (λ l. l.transaction_date) s.lines in
      (
        suggest-Distinct lines [] _,
        All-map (IsFair lines) (IsOffer school_id) _
            (λ g f. ground (
              arith,
              f,
              All-In (λ l. fits l ≡ true) g.bank_statement_line lines
                  (All-find_many db fits (λ l. l.transaction_date) s.lines) f.0,
            ))
            (suggest-IsFair lines [] _),
      )

  -- Where no two lines share a payment, confirming a match leaves every line that is matched
  -- already as it is, and no two lines come to share a payment.
  pub confirm_match-keeps :
      (school_id line_id submission_id : ℕ) (l : BankStatementLine) (n : ℕ) (s : State)
      → In l s.lines
      → l.matched_payment_submission_id ≡ some n
      → no_clash same_match s.lines ≡ true
      → let t = (confirm_match db school_id line_id submission_id s).1 in
        In l t.lines × (no_clash same_match t.lines ≡ true)
  unfolding confirm_match
  confirm_match-keeps school_id line_id submission_id l n s m e u = ground (
    arith,
    db.update_unique_lem (no_clash same_match) (is_unmatched school_id line_id)
        (match_to submission_id) s.lines,
    In-into-update_by (is_unmatched school_id line_id) (match_to submission_id) s.lines l m,
  )
