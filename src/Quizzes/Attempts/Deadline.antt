-- ===== src/Quizzes/Attempts/Deadline.antt =====
-- The time limit of an attempt: what `saveAnswer` does once it has run out.
use skolara.Prelude.{
  ℕ, ◌≡◌, refl, Bool, true, List, [], ◌∷◌, map, ◌==◌, ◌&&◌, arith, update_by, inl, inr,
  Option-cases, ◌⊎◌,
}
use skolara.Prelude.Action.{Exception, bad_request, ok, err, Result-cases}
use skolara.Store.{Prisma}
use skolara.Quizzes.{
  QuizAttempt, QuizAnswer, QuizQuestion, QuizAttemptStatus, expired, StudentProfile, State,
  SaveQuizAnswerInput,
}
use skolara.Quizzes.Papers.{mark_answer, is_own, is_late}
use skolara.Quizzes.Attempts.{
  mark_answers, record_marks, sync_gradebook, grade, finalize_if_expired, own_attempt, save_answer,
  questions_of, answers_of,
}

-- What was chosen, answer by answer.
abbrev pub choices : State → List ℕ
choices s = map QuizAnswer.selected_index s.answers

choices-update_by :
    (p : QuizAnswer → Bool) (f : QuizAnswer → QuizAnswer) (answers : List QuizAnswer)
    → ((a : QuizAnswer) → (f a).selected_index ≡ a.selected_index)
    → map QuizAnswer.selected_index (update_by p f answers) ≡ map QuizAnswer.selected_index answers
choices-update_by p f [] h = refl
choices-update_by p f (a ∷ answers) h = ground (arith, h a, choices-update_by p f answers h)

module _ (db : Prisma) where
  mark_answers-choices :
      (questions : List QuizQuestion) (answers : List QuizAnswer) (s : State)
      → choices (mark_answers db questions answers s).1 ≡ choices s
  unfolding mark_answers
  mark_answers-choices questions [] s = refl
  mark_answers-choices questions (a ∷ answers) s =
      let has_id = λ (x : QuizAnswer). x.id == a.id in
      let f = mark_answer questions a in
      ground (
        arith,
        db.update_many_lem has_id f s.answers,
        choices-update_by has_id f s.answers (λ x. refl),
        mark_answers-choices questions answers
            (record s { answers = update_by has_id f s.answers }),
      )

  record_marks-choices :
      (attempt_id now : ℕ) (status : QuizAttemptStatus) (questions : List QuizQuestion)
      (answers : List QuizAnswer) (s : State)
      → choices (record_marks db attempt_id now status questions answers s).1 ≡ choices s
  unfolding record_marks
  record_marks-choices attempt_id now status questions answers s =
      ground (arith, mark_answers-choices questions answers s)

  sync_gradebook-choices :
      (grade_id quiz_id student_id : ℕ) (s : State)
      → choices (sync_gradebook db grade_id quiz_id student_id s).1 ≡ choices s
  unfolding sync_gradebook
  sync_gradebook-choices grade_id quiz_id student_id s = ground arith

  grade-choices :
      (grade_id attempt_id now : ℕ) (status : QuizAttemptStatus) (s : State)
      → choices (grade db grade_id attempt_id now status s).1 ≡ choices s
  unfolding grade
  grade-choices grade_id attempt_id now status s =
      elim (Option-cases (db.find_first (λ t. t.id == attempt_id) s.attempts)) [
        | inl e ↦ ground (arith, e)
        | inr (attempt, e) ↦
            let questions = questions_of db attempt.quiz_id s in
            let answers = answers_of db attempt_id s in
            let recorded = (record_marks db attempt_id now status questions answers s).1 in
            ground (
              arith,
              e,
              record_marks-choices attempt_id now status questions answers s,
              sync_gradebook-choices grade_id attempt.quiz_id attempt.student_id recorded,
            )
      ]

  late_settles :
      (grade_id now : ℕ) (t : QuizAttempt) (s : State)
      → is_late now t ≡ true
      → let settled = finalize_if_expired db grade_id now t s in
        (((e : Exception) × (settled.0 ≡ err e)) ⊎ (settled.0 ≡ ok expired))
        × (choices settled.1 ≡ choices s)
  unfolding finalize_if_expired
  late_settles grade_id now t s h = elim (Result-cases (grade db grade_id t.id now expired s).0) [
    | inl (a, g) ↦ (
      inr (ground (arith, h, g)),
      ground (arith, h, g, grade-choices grade_id t.id now expired s),
    )
    | inr (x, g) ↦ (
      inl (x, ground (arith, h, g)),
      ground (arith, h, g, grade-choices grade_id t.id now expired s),
    )
  ]

  -- Where the attempt that a student answers in is in progress and has run out of time, the
  -- answer is refused, and every answer that was given stays the choice that it was.
  pub save_answer-late :
      (school_id attempt_id user_id id grade_id now : ℕ) (input : SaveQuizAnswerInput) (s : State)
      (t : QuizAttempt)
      → (own_attempt db school_id attempt_id user_id s).0 ≡ ok t
      → is_late now t ≡ true
      → ((e : Exception) × ((save_answer db school_id attempt_id user_id id grade_id now input s).0
            ≡ err e))
        × (choices (save_answer db school_id attempt_id user_id id grade_id now input s).1
            ≡ choices s)
  unfolding save_answer own_attempt
  save_answer-late school_id attempt_id user_id id grade_id now input s t o h =
      let own = λ (p : StudentProfile). p.user_id == user_id && p.school_id == school_id in
      elim (Option-cases (db.find_first own s.students)) [
        | inl e ↦ ground (arith, e, o)
        | inr (student, e) ↦
            elim (Option-cases
              (db.find_first (is_own school_id attempt_id student.id) s.attempts)) [
                | inl f ↦ ground (arith, e, f, o)
                | inr (u, f) ↦
                    let same : u ≡ t = ground (arith, e, f, o) in
                    let (g, c) = late_settles grade_id now u s (ground (arith, h, same)) in
                    elim g [
                      | inl (x, g) ↦ ((x, ground (arith, e, f, g)), ground (arith, e, f, g, c))
                      | inr g ↦ (
                        (bad_request "Time is up on that attempt", ground (arith, e, f, g)),
                        ground (arith, e, f, g, c),
                      )
                    ]
              ]
      ]
