-- ===== src/Quizzes/Attempts/Finality.antt =====
-- Attempts that are settled: what `grade` and the start of an attempt do to the others.
use skolara.Prelude.{
  ℕ, ◌≡◌, refl, ◌∙◌, true, false, List, [], ◌∷◌, any, ◌==◌, some, arith, update_by, In, inl, inr,
  ◌⊎◌, sum_by, Option-cases,
}
use skolara.Store.{
  Prisma, Unique, Unique-update_by, Unique-cons, keyed, In-into-update_by, eq_of_key,
}
use skolara.Quizzes.{
  Quiz, QuizAttempt, QuizAnswer, QuizQuestion, QuizAttemptStatus, State, is_open, attempt_clashes,
}
use skolara.Quizzes.Papers.{award_by, settle, new_attempt}
use skolara.Quizzes.Attempts.{
  questions_of, answers_of, mark_answers, record_marks, sync_gradebook, grade,
}
use skolara.Quizzes.Attempts.Marks.{mark_answers-rows}

-- A settled attempt, where the attempts have unique ids.
abbrev pub IsSettled : QuizAttempt → State → Type 0
IsSettled t s = Unique QuizAttempt.id s.attempts × In t s.attempts × (is_open t.status ≡ false)

any-attempt_clashes :
    (row : QuizAttempt) (attempts : List QuizAttempt)
    → any (attempt_clashes row) attempts ≡ false
    → any (keyed QuizAttempt.id row.id) attempts ≡ false
any-attempt_clashes row [] h = refl
any-attempt_clashes row (t ∷ attempts) h = ground (arith, any-attempt_clashes row attempts)

module _ (db : Prisma) where
  sync_gradebook-attempts :
      (grade_id quiz_id student_id : ℕ) (s : State)
      → (sync_gradebook db grade_id quiz_id student_id s).1.attempts ≡ s.attempts
  unfolding sync_gradebook
  sync_gradebook-attempts grade_id quiz_id student_id s = ground arith

  record_marks-attempts :
      (attempt_id now : ℕ) (status : QuizAttemptStatus) (questions : List QuizQuestion)
      (answers : List QuizAnswer) (s : State)
      → let t = (record_marks db attempt_id now status questions answers s).1 in
        let f =
          settle status now
            (sum_by (award_by questions) answers)
            (sum_by (λ q. q.marks) questions) in
        (t.attempts ≡ s.attempts) ⊎ (t.attempts ≡ update_by (λ x. x.id == attempt_id) f s.attempts)
  unfolding record_marks
  record_marks-attempts attempt_id now status questions answers s =
      let f =
        settle status now (sum_by (award_by questions) answers) (sum_by (λ q. q.marks) questions) in
      ground (
        arith,
        mark_answers-rows db questions answers s,
        db.update_many_lem (λ x. x.id == attempt_id) f
            (mark_answers db questions answers s).1.attempts,
      )

  -- The gradebook is no part of the attempts.
  grade-record_marks :
      (grade_id attempt_id now : ℕ) (status : QuizAttemptStatus) (s : State)
      → ((grade db grade_id attempt_id now status s).1.attempts ≡ s.attempts)
        ⊎ ((quiz_id : ℕ) × ((grade db grade_id attempt_id now status s).1.attempts
              ≡ (record_marks db attempt_id now status
                  (questions_of db quiz_id s)
                  (answers_of db attempt_id s)
                  s).1.attempts))
  unfolding grade
  grade-record_marks grade_id attempt_id now status s =
      elim (Option-cases (db.find_first (λ t. t.id == attempt_id) s.attempts)) [
        | inl e ↦ inl (ground (arith, e))
        | inr (attempt, e) ↦ inr (
          attempt.quiz_id,
          ground (
            arith,
            e,
            sync_gradebook-attempts grade_id attempt.quiz_id attempt.student_id
                (record_marks db attempt_id now status (questions_of db attempt.quiz_id s)
                  (answers_of db attempt_id s) s).1,
          ),
        )
      ]

  -- Of the attempts, grading writes the row of the attempt, or nothing.
  grade-attempts :
      (grade_id attempt_id now : ℕ) (status : QuizAttemptStatus) (s : State)
      → ((grade db grade_id attempt_id now status s).1.attempts ≡ s.attempts)
        ⊎ ((score : ℕ) × (max_score : ℕ) × ((grade db grade_id attempt_id now status s).1.attempts
              ≡ update_by (λ x. x.id == attempt_id) (settle status now score max_score) s.attempts))
  grade-attempts grade_id attempt_id now status s =
      elim (grade-record_marks grade_id attempt_id now status s) [
        | inl e ↦ inl e
        | inr (quiz_id, e) ↦
            elim (record_marks-attempts attempt_id now status (questions_of db quiz_id s)
              (answers_of db attempt_id s) s) [ inl h ↦ inl (e ∙ h) | inr h ↦ inr (_, _, e ∙ h) ]
      ]

  pub graded-IsSettled :
      (u : QuizAttempt) (grade_id now : ℕ) (status : QuizAttemptStatus) (t : QuizAttempt)
      (s : State)
      → In t s.attempts
      → is_open t.status ≡ true
      → IsSettled u s
      → IsSettled u (grade db grade_id t.id now status s).1
  graded-IsSettled u grade_id now status t s m o (unique, n, c) =
      elim (grade-attempts grade_id t.id now status s) [
        | inl e ↦ ground (arith, e, unique, n, c)
        | inr (score, max_score, e) ↦
            let f = settle status now score max_score in
            let is_t = λ (x : QuizAttempt). x.id == t.id in
            ground (
              arith,
              e,
              c,
              o,
              Unique-update_by QuizAttempt.id is_t f s.attempts (λ x. refl) unique,
              In-into-update_by is_t f s.attempts u n,
              eq_of_key QuizAttempt.id s.attempts u t unique n m,
            )
      ]

  pub opened-IsSettled :
      (u : QuizAttempt) (school_id id student_id number now : ℕ) (quiz : Quiz) (s : State)
      (rows : List QuizAttempt)
      → db.create attempt_clashes (new_attempt school_id id student_id number now quiz) s.attempts
        ≡ some rows
      → IsSettled u s
      → IsSettled u (record s { attempts = rows })
  opened-IsSettled u school_id id student_id number now quiz s rows e v =
      let row = new_attempt school_id id student_id number now quiz in
      ground (
        arith,
        e,
        v,
        db.create_lem attempt_clashes row s.attempts,
        any-attempt_clashes row s.attempts,
        Unique-cons QuizAttempt.id row s.attempts,
      )
