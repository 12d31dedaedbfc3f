-- ===== src/Quizzes/Authoring/Rows.antt =====
-- What `create`, `replaceQuestions`, `publish` and `remove` leave of the attempts, the answers
-- and the grades.
use skolara.Prelude.{
  ◌+◌, ℕ, ◌≡◌, refl, Bool, false, not, ◌&&◌, List, [], ◌∷◌, arith, ◌==◌, is_none, filter_by, any,
  count_pos_of_In, count_zero_of_any, ◌⊎◌, Option-cases, Bool-cases, inl, inr,
}
use skolara.Prelude.Action.{unique_violation, Result-cases}
use skolara.Store.{Prisma, In-of_any}
use skolara.Quizzes.{
  Quiz, QuizAttempt, QuizAnswer, State, QuestionInput, CreateQuizInput, SchoolClass, quiz_clashes,
  question_clashes,
}
use skolara.Quizzes.Authoring.{
  new_quiz, new_question, answers_quiz, create_questions, create, replace_questions, publish,
  remove, find_own,
}

-- Nothing but quizzes and questions is written.
abbrev pub IsBeside : State → State → Type 0
IsBeside s t = (t.attempts ≡ s.attempts) × (t.answers ≡ s.answers) × (t.grades ≡ s.grades)

-- Nothing more than this is written, but that answers may go.
abbrev pub IsBelow : State → State → Type 0
IsBelow s t =
    (t.attempts ≡ s.attempts)
    × ((kept : QuizAnswer → Bool) × (t.answers ≡ filter_by kept s.answers))
    × (t.grades ≡ s.grades)

-- Nothing goes where nothing fits.
filter_by-all :
    {R : Type 0} (p : R → Bool) (xs : List R)
    → any p xs ≡ false
    → filter_by (λ r. not (p r)) xs ≡ xs
filter_by-all p [] h = refl
filter_by-all p (x ∷ xs) h = ground (arith, filter_by-all p xs)

module _ (db : Prisma) where
  pub create_questions-IsBeside :
      (quiz_id index : ℕ) (inputs : List QuestionInput) (s : State)
      → IsBeside s (create_questions db quiz_id index inputs s).1
  unfolding create_questions
  create_questions-IsBeside quiz_id index [] s = (refl, refl, refl)
  create_questions-IsBeside quiz_id index (input ∷ inputs) s =
      elim (Option-cases
        (db.create question_clashes (new_question quiz_id index input) s.questions)) [
          | inl e ↦ ground (arith, e)
          | inr (rows, e) ↦ ground (
            arith,
            e,
            create_questions-IsBeside quiz_id (index + 1) inputs (record s { questions = rows }),
          )
        ]

  pub create-IsBeside :
      (school_id created_by id : ℕ) (input : CreateQuizInput) (s : State)
      → IsBeside s (create db school_id created_by id input s).1
  unfolding create
  create-IsBeside school_id created_by id input s =
      let own = λ (c : SchoolClass). c.id == input.class_id && c.school_id == school_id in
      elim (Option-cases (db.find_first own s.classes)) [
        | inl e ↦ ground (arith, e)
        | inr (c, e) ↦
            elim (Option-cases
              (db.create quiz_clashes (new_quiz school_id created_by id input) s.quizzes)) [
                | inl f ↦ ground (arith, e, f)
                | inr (rows, f) ↦
                    let made =
                      create_questions db id 0 input.questions (record s { quizzes = rows }) in
                    let beside =
                      create_questions-IsBeside id 0 input.questions
                        (record s { quizzes = rows }) in
                    elim (Result-cases made.0) [
                      | inl (a, g) ↦ ground (arith, e, f, g, beside)
                      | inr (unique_violation, g) ↦ ground (arith, e, f, g)
                      | inr (x, g) ↦ ground (arith, e, f, g)
                    ]
              ]
      ]

  pub publish-IsBeside :
      (school_id quiz_id now : ℕ) (s : State) → IsBeside s (publish db school_id quiz_id now s).1
  unfolding publish find_own
  publish-IsBeside school_id quiz_id now s = ground arith

  -- What the questions are replaced by, once the old ones and their answers are gone.
  pub replace_questions-IsBelow :
      (school_id quiz_id : ℕ) (inputs : List QuestionInput) (s : State)
      → ((replace_questions db school_id quiz_id inputs s).1 ≡ s)
        ⊎ IsBelow s (replace_questions db school_id quiz_id inputs s).1
  unfolding replace_questions find_own
  replace_questions-IsBelow school_id quiz_id inputs s =
      let own = λ (q : Quiz). q.id == quiz_id && q.school_id == school_id in
      elim (Option-cases (db.find_first own s.quizzes)) [
        | inl e ↦ ground (arith, e)
        | inr (quiz, e) ↦
            let goes = answers_quiz quiz_id s.questions in
            let bare = record s {
              answers = db.delete_many goes s.answers;
              questions = db.delete_many (λ q. q.quiz_id == quiz_id) s.questions;
            } in
            let beside = create_questions-IsBeside quiz_id 0 inputs bare in
            let gone = db.delete_many_lem goes s.answers in
            elim (Bool-cases (is_none quiz.published_at)) [
              | inr n ↦ ground (arith, e, n)
              | inl n ↦ elim (Result-cases (create_questions db quiz_id 0 inputs bare).0) [
                | inr (x, g) ↦ ground (arith, e, n, g)
                | inl (a, g) ↦
                    elim (Option-cases (
                      db.find_first (λ q. q.id == quiz_id)
                        (create_questions db quiz_id 0 inputs bare).1.quizzes)) [
                          | inl f ↦ ground (arith, e, n, g, f)
                          | inr (r, f) ↦ inr (
                            ground (arith, e, n, g, f, beside),
                            (λ a. not (goes a), ground (arith, e, n, g, f, beside, gone)),
                            ground (arith, e, n, g, f, beside),
                          )
                        ]
              ]
            ]
      ]

  -- A quiz that goes has no attempt at it.
  pub remove-IsBelow :
      (school_id quiz_id : ℕ) (s : State)
      → ((remove db school_id quiz_id s).1 ≡ s) ⊎ IsBelow s (remove db school_id quiz_id s).1
  unfolding remove find_own
  remove-IsBelow school_id quiz_id s =
      let own = λ (q : Quiz). q.id == quiz_id && q.school_id == school_id in
      let of_quiz = λ (t : QuizAttempt). t.quiz_id == quiz_id in
      elim (Option-cases (db.find_first own s.quizzes)) [
        | inl e ↦ ground (arith, e)
        | inr (quiz, e) ↦
            let counted = db.update_many_lem of_quiz (λ t. t) s.attempts in
            elim (Bool-cases (any of_quiz s.attempts)) [
              | inl h ↦
                  let (t, m, q) = In-of_any of_quiz s.attempts h in
                  inl (ground (arith, e, counted, count_pos_of_In of_quiz s.attempts t m q))
              | inr h ↦ inr (
                ground (
                  arith,
                  e,
                  counted,
                  count_zero_of_any of_quiz s.attempts h,
                  db.delete_many_lem of_quiz s.attempts,
                  filter_by-all of_quiz s.attempts h,
                ),
                (
                  λ a. not (answers_quiz quiz_id s.questions a),
                  ground (
                    arith,
                    e,
                    counted,
                    count_zero_of_any of_quiz s.attempts h,
                    db.delete_many_lem (answers_quiz quiz_id s.questions) s.answers,
                  ),
                ),
                ground (arith, e, counted, count_zero_of_any of_quiz s.attempts h),
              )
            ]
      ]
