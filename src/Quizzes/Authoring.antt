-- ===== src/Quizzes/Authoring.antt =====
-- What staff do with a quiz: `create`, `replaceQuestions`, `publish` and `remove`.
pub mod Rows
use skolara.Prelude.{
  ℕ, ◌+◌, Bool, not, ◌&&◌, List, [], ◌∷◌, none, some, ltb, ◌==◌, is_none, or_else, any,
}
use skolara.Prelude.Action.{
  Action, ok, err, bad_request, conflict, not_found, record_missing, unique_violation, ◌>>=◌, ◌>>◌,
  pure, raise_if, only_if, transaction, translate,
}
use skolara.Store.{Prisma, find_or, insert_or, count, delete_many, update}
use skolara.Quizzes.{
  Quiz, QuizQuestion, QuizAnswer, State, QuestionInput, CreateQuizInput, quizzes_table,
  questions_table, attempts_table, answers_table, classes_table, quiz_clashes, question_clashes,
}

abbrev pub new_quiz : ℕ → ℕ → ℕ → CreateQuizInput → Quiz
new_quiz school_id created_by id input = record {
  id = id;
  school_id = school_id;
  class_id = input.class_id;
  subject = input.subject;
  title = input.title;
  instructions = input.instructions;
  time_limit_minutes = input.time_limit_minutes;
  opens_at = input.opens_at;
  closes_at = input.closes_at;
  max_attempts = or_else input.max_attempts 1;
  published_at = none;
  grade_term = input.grade_term;
  grade_exam_type = input.grade_exam_type;
  created_by_user_id = created_by;
}

abbrev pub new_question : ℕ → ℕ → QuestionInput → QuizQuestion
new_question quiz_id index input = record {
  id = input.id;
  quiz_id = quiz_id;
  prompt = input.prompt;
  options = input.options;
  correct_index = input.correct_index;
  marks = or_else input.marks 100;
  sort_order = index;
}

-- The answer is to a question of the quiz.
abbrev pub answers_quiz : ℕ → List QuizQuestion → QuizAnswer → Bool
answers_quiz quiz_id questions a =
    any (λ q. q.id == a.question_id && q.quiz_id == quiz_id) questions

abbrev pub set_published : ℕ → Quiz → Quiz
set_published now q = record q { published_at = some now }

module _ (db : Prisma) where
  -- `createMany`, and the nested `create`: the questions in their order, counted from `index`.
  pub create_questions : (quiz_id index : ℕ) → List QuestionInput → Action State (Unit {0})
  create_questions quiz_id index [] s = (ok tt, s)
  create_questions quiz_id index (input ∷ inputs) s =
      let row = new_question quiz_id index input in
      elim (db.create question_clashes row s.questions) [
        | none ↦ (err unique_violation, s)
        | some rows ↦ create_questions quiz_id (index + 1) inputs (record s { questions = rows })
      ]

  -- `findOwn`
  pub find_own : (school_id quiz_id : ℕ) → Action State Quiz
  find_own school_id quiz_id =
      find_or db quizzes_table (λ q. q.id == quiz_id && q.school_id == school_id)
        (not_found "Quiz not found")

  pub create : (school_id created_by id : ℕ) → CreateQuizInput → Action State Quiz
  create school_id created_by id input = do
    _ ←
        find_or db classes_table (λ c. c.id == input.class_id && c.school_id == school_id)
          (not_found "Class not found")
    translate
        (conflict
          "Another quiz for this class and subject already writes to that term and assessment name")
        (transaction (do
          quiz ←
              insert_or db quizzes_table quiz_clashes (new_quiz school_id created_by id input)
                unique_violation
          create_questions id 0 input.questions
          pure quiz))

  -- The foreign keys cascade: the answers to the old questions go with them.
  pub replace_questions : (school_id quiz_id : ℕ) → List QuestionInput → Action State Quiz
  unfolding find_own
  replace_questions school_id quiz_id inputs = do
    quiz ← find_own school_id quiz_id
    raise_if (not (is_none quiz.published_at))
        (bad_request "A published quiz's questions can't be changed")
    transaction (do
      (λ s. delete_many db answers_table (answers_quiz quiz_id s.questions) s)
      delete_many db questions_table (λ q. q.quiz_id == quiz_id)
      create_questions quiz_id 0 inputs
      find_or db quizzes_table (λ q. q.id == quiz_id) record_missing)

  pub publish : (school_id quiz_id now : ℕ) → Action State (Unit {0})
  unfolding find_own
  publish school_id quiz_id now = do
    quiz ← find_own school_id quiz_id
    questions ← count db questions_table (λ q. q.quiz_id == quiz_id)
    raise_if (questions == 0) (bad_request "Add at least one question before publishing")
    only_if (is_none quiz.published_at)
        (update db quizzes_table (λ q. q.id == quiz_id) (set_published now))

  -- The foreign keys cascade to the attempts and the questions and, through these, to answers.
  pub remove : (school_id quiz_id : ℕ) → Action State (Unit {0})
  unfolding find_own
  remove school_id quiz_id = do
    _ ← find_own school_id quiz_id
    attempts ← count db attempts_table (λ t. t.quiz_id == quiz_id)
    raise_if (ltb 0 attempts)
        (bad_request "Students have already sat this quiz — it can't be deleted")
    (λ s. delete_many db answers_table (answers_quiz quiz_id s.questions) s)
    delete_many db questions_table (λ q. q.quiz_id == quiz_id)
    delete_many db attempts_table (λ t. t.quiz_id == quiz_id)
    delete_many db quizzes_table (λ q. q.id == quiz_id)
