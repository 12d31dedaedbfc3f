-- ===== src/Quizzes/Attempts.antt =====
-- What a student does with a quiz: `startAttempt`, `saveAnswer`, `submitAttempt` and the grading that
-- they share. An attempt whose time has run out is settled when it is next touched.
pub mod Deadline
pub mod Finality
pub mod Marks
pub mod Steps
pub mod Tests
use skolara.Prelude.{
  ℕ, ◌+◌, ◌*◌, String, Bool, true, false, not, ◌&&◌, ◌||◌, List, [], ◌∷◌, Option, none, some, ltb,
  leb, ◌==◌, is_none, holds, or_else, if◌then◌else◌, sum_by, length, map,
}
use skolara.Prelude.Action.{
  Action, ok, err, bad_request, conflict, forbidden, not_found, record_missing, unique_violation,
  ◌>>=◌, ◌>>◌, pure, raise, raise_if, only_if, transaction, translate,
}
use skolara.Store.{Prisma, Table, find, find_or, insert_or, update, upsert}
use skolara.Quizzes.{
  Quiz, QuizQuestion, QuizAttempt, QuizAnswer, QuizAttemptStatus, in_progress, submitted, expired,
  GradeEntry, StudentProfile, State, SaveQuizAnswerInput, quizzes_table, questions_table,
  attempts_table, answers_table, grades_table, students_table, is_open, attempt_clashes,
  answer_clashes,
}
use skolara.Quizzes.Papers.{
  QuizQuestionForStudent, Selection, Paper, MarkedQuestion, MarkedPaper, without_key, get_question,
  get_answer, is_right, award, award_by, mark_answer, marked_question, settle, counts_for, is_cell,
  grade_clashes, set_grade, new_grade, is_late, find_open, last_number, new_attempt, is_own,
  is_answer, new_answer, choose,
}

module _ (db : Prisma) where
  abbrev pub questions_of : ℕ → State → List QuizQuestion
  questions_of quiz_id s = db.find_many (λ q. q.quiz_id == quiz_id) (λ q. q.sort_order) s.questions

  abbrev pub answers_of : ℕ → State → List QuizAnswer
  answers_of attempt_id s = db.find_many (λ a. a.attempt_id == attempt_id) (λ a. 0) s.answers

  -- The updates of the answers, one after the other.
  pub mark_answers : List QuizQuestion → List QuizAnswer → Action State (Unit {0})
  mark_answers questions [] s = (ok tt, s)
  mark_answers questions (a ∷ answers) s =
      let (r, s') = update db answers_table (λ x. x.id == a.id) (mark_answer questions a) s in
      elim r [ ok _ ↦ mark_answers questions answers s' | err e ↦ (err e, s') ]

  -- `grade_id` is the id of a grade entry that may have to be made.
  pub sync_gradebook : (grade_id quiz_id student_id : ℕ) → Action State (Unit {0})
  sync_gradebook grade_id quiz_id student_id = do
    quiz ← find_or db quizzes_table (λ q. q.id == quiz_id) record_missing
    elim quiz.grade_term [
      | none ↦ pure tt
      | some term ↦ elim quiz.grade_exam_type [
        | none ↦ pure tt
        | some exam_type ↦ λ s.
            elim (db.find_top (counts_for quiz_id student_id) (λ t. or_else t.score 0) s.attempts) [
              | none ↦ (ok tt, s)
              | some best ↦
                  upsert db grades_table (is_cell student_id quiz.subject term exam_type)
                    (set_grade best) grade_clashes
                    (new_grade grade_id student_id term exam_type quiz best) s
            ]
      ]
    ]

  -- The transaction of `grade`, for the questions and the answers that were read before it.
  pub record_marks :
      (attempt_id now : ℕ)
      → QuizAttemptStatus
      → List QuizQuestion
      → List QuizAnswer
      → Action State (Unit {0})
  unfolding mark_answers
  record_marks attempt_id now status questions answers = transaction (do
    mark_answers questions answers
    update db attempts_table (λ t. t.id == attempt_id)
        (settle status now (sum_by (award_by questions) answers) (sum_by (λ q. q.marks) questions)))

  pub grade : (grade_id attempt_id now : ℕ) → QuizAttemptStatus → Action State (Unit {0})
  unfolding record_marks sync_gradebook
  grade grade_id attempt_id now status = do
    attempt ← find_or db attempts_table (λ t. t.id == attempt_id) record_missing
    (λ s.
        record_marks attempt_id now status (questions_of attempt.quiz_id s)
          (answers_of attempt_id s) s)
    sync_gradebook grade_id attempt.quiz_id attempt.student_id

  -- Answers the status that the attempt has after it.
  pub finalize_if_expired : (grade_id now : ℕ) → QuizAttempt → Action State QuizAttemptStatus
  unfolding grade
  finalize_if_expired grade_id now attempt = elim (is_late now attempt) [
    | true ↦ do grade grade_id attempt.id now expired; pure expired
    | false ↦ pure attempt.status
  ]

  pub attempt_paper : (attempt_id : ℕ) → Action State Paper
  attempt_paper attempt_id = do
    attempt ← find_or db attempts_table (λ t. t.id == attempt_id) record_missing
    quiz ← find_or db quizzes_table (λ q. q.id == attempt.quiz_id) record_missing
    (λ s. (
      ok (record {
        attempt = attempt;
        quiz = quiz;
        questions = map without_key (questions_of quiz.id s);
        answers =
            map (λ a. record { question_id = a.question_id; selected_index = a.selected_index })
              (answers_of attempt_id s);
      }),
      s,
    ))

  pub attempt_result : (attempt_id : ℕ) → Action State MarkedPaper
  attempt_result attempt_id = do
    attempt ← find_or db attempts_table (λ t. t.id == attempt_id) record_missing
    quiz ← find_or db quizzes_table (λ q. q.id == attempt.quiz_id) record_missing
    raise_if (is_open attempt.status) (bad_request "That attempt hasn't been submitted yet")
    (λ s. (
      ok (record {
        attempt = attempt;
        quiz = quiz;
        questions = map (marked_question (answers_of attempt_id s)) (questions_of quiz.id s);
      }),
      s,
    ))

  pub resolve_own_student : (school_id user_id : ℕ) → Action State StudentProfile
  resolve_own_student school_id user_id =
      find_or db students_table (λ p. p.user_id == user_id && p.school_id == school_id)
        (forbidden "No student record for this account")

  pub own_attempt : (school_id attempt_id user_id : ℕ) → Action State QuizAttempt
  unfolding resolve_own_student
  own_attempt school_id attempt_id user_id = do
    student ← resolve_own_student school_id user_id
    find_or db attempts_table (is_own school_id attempt_id student.id)
        (not_found "Attempt not found")

  -- The start of a fresh attempt after those that exist.
  pub open_attempt :
      (school_id student_id id now : ℕ) → Quiz → List QuizAttempt → Action State Paper
  unfolding attempt_paper
  open_attempt school_id student_id id now quiz existing = do
    raise_if (leb quiz.max_attempts (length existing)) (
        bad_request (
          if quiz.max_attempts == 1
          then "You've already sat this quiz"
          else "You've used all ${maxAttempts} attempts"))
    _ ←
        insert_or db attempts_table attempt_clashes
          (new_attempt school_id id student_id (last_number existing + 1) now quiz)
          (conflict "That attempt is already open — reload and continue it")
    attempt_paper id

  -- Hands back the attempt that is open, unless its time has run out, or starts the next.
  pub resume_or_open :
      (school_id student_id id grade_id now : ℕ) → Quiz → List QuizAttempt → Action State Paper
  unfolding finalize_if_expired open_attempt attempt_paper
  resume_or_open school_id student_id id grade_id now quiz existing = elim (find_open existing) [
    | none ↦ open_attempt school_id student_id id now quiz existing
    | some t ↦ do
      status ← finalize_if_expired grade_id now t
      elim (is_open status) [
        | true ↦ attempt_paper t.id
        | false ↦ open_attempt school_id student_id id now quiz existing
      ]
  ]

  pub start_attempt : (school_id quiz_id user_id id grade_id now : ℕ) → Action State Paper
  unfolding resolve_own_student resume_or_open
  start_attempt school_id quiz_id user_id id grade_id now = do
    student ← resolve_own_student school_id user_id
    quiz ←
        find_or db quizzes_table
          (λ q. q.id == quiz_id && (q.school_id == school_id && not (is_none q.published_at)))
          (not_found "Quiz not found")
    raise_if (not (holds student.class_id quiz.class_id))
        (forbidden "That quiz isn't set for your class")
    raise_if (elim quiz.opens_at [ none ↦ false | some o ↦ ltb now o ])
        (bad_request "That quiz hasn't opened yet")
    raise_if (elim quiz.closes_at [ none ↦ false | some c ↦ leb c now ])
        (bad_request "That quiz has closed")
    (λ s.
        resume_or_open school_id student.id id grade_id now quiz
          (db.find_many (λ t. t.quiz_id == quiz_id && t.student_id == student.id)
            (λ t. t.attempt_number) s.attempts)
          s)

  pub save_answer :
      (school_id attempt_id user_id id grade_id now : ℕ)
      → SaveQuizAnswerInput
      → Action State (Unit {0})
  unfolding own_attempt finalize_if_expired
  save_answer school_id attempt_id user_id id grade_id now input = do
    attempt ← own_attempt school_id attempt_id user_id
    status ← finalize_if_expired grade_id now attempt
    raise_if (not (is_open status)) (
        bad_request (elim status [
          | expired ↦ "Time is up on that attempt"
          | _ ↦ "That attempt is submitted"
        ]))
    question ←
        find_or db questions_table (λ q. q.id == input.question_id && q.quiz_id == attempt.quiz_id)
          (not_found "Question not found on this quiz")
    raise_if (leb (length question.options) input.selected_index)
        (bad_request "That option doesn't exist on this question")
    upsert db answers_table (is_answer attempt_id input.question_id) (choose now input)
        answer_clashes (new_answer id attempt_id now input)

  -- What is left to do with an attempt of that status.
  pub hand_in : (attempt_id grade_id now : ℕ) → QuizAttemptStatus → Action State MarkedPaper
  unfolding grade attempt_result
  hand_in attempt_id grade_id now submitted =
      raise (bad_request "That attempt is already submitted")
  hand_in attempt_id grade_id now expired = attempt_result attempt_id
  hand_in attempt_id grade_id now in_progress = do
    grade grade_id attempt_id now submitted
    attempt_result attempt_id

  pub submit_attempt : (school_id attempt_id user_id grade_id now : ℕ) → Action State MarkedPaper
  unfolding own_attempt finalize_if_expired hand_in
  submit_attempt school_id attempt_id user_id grade_id now = do
    attempt ← own_attempt school_id attempt_id user_id
    status ← finalize_if_expired grade_id now attempt
    hand_in attempt_id grade_id now status
