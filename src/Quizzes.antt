-- ===== src/Quizzes.antt =====
-- Quizzes: `apps/api/src/quizzes/quizzes.service.ts` and the types of
-- `packages/types/src/quizzes.ts`. Marks are hundredths (the columns are decimals with two
-- places), times are time stamps in milliseconds; subjects, terms and assessment names are only
-- compared, so they are numbers. This file holds the tables, Quizzes/Authoring what staff do and
-- Quizzes/Attempts what students do.
pub mod Authoring
pub mod Papers
pub mod Requests
pub mod Attempts
mod Tests
use skolara.Prelude.{
  ℕ, ◌+◌, String, Bool, true, false, not, ◌&&◌, ◌||◌, List, [], ◌∷◌, Option, none, some, ltb, leb,
  ◌==◌, is_none, holds, same_some, or_else, if◌then◌else◌, sum_by,
}
use skolara.Store.{Prisma, Table}

pub data QuizAttemptStatus : Type 0 where
  in_progress submitted expired : QuizAttemptStatus

pub record Quiz : Type 0 where
  pub id : ℕ
  pub school_id : ℕ
  pub class_id : ℕ
  pub subject : ℕ
  pub title : String
  pub instructions : Option String
  pub time_limit_minutes : Option ℕ
  pub opens_at : Option ℕ
  pub closes_at : Option ℕ
  pub max_attempts : ℕ
  pub published_at : Option ℕ
  pub grade_term : Option ℕ
  pub grade_exam_type : Option ℕ
  pub created_by_user_id : ℕ

pub record QuizQuestion : Type 0 where
  pub id : ℕ
  pub quiz_id : ℕ
  pub prompt : String
  pub options : List String
  pub correct_index : ℕ
  pub marks : ℕ
  pub sort_order : ℕ

pub record QuizAttempt : Type 0 where
  pub id : ℕ
  pub school_id : ℕ
  pub quiz_id : ℕ
  pub student_id : ℕ
  pub attempt_number : ℕ
  pub status : QuizAttemptStatus
  pub started_at : ℕ
  pub expires_at : Option ℕ
  pub submitted_at : Option ℕ
  pub score : Option ℕ
  pub max_score : Option ℕ

pub record QuizAnswer : Type 0 where
  pub id : ℕ
  pub attempt_id : ℕ
  pub question_id : ℕ
  pub selected_index : ℕ
  pub is_correct : Option Bool
  pub marks_awarded : Option ℕ
  pub answered_at : ℕ

pub record GradeEntry : Type 0 where
  pub id : ℕ
  pub school_id : ℕ
  pub student_id : ℕ
  pub class_id : ℕ
  pub subject : ℕ
  pub term : ℕ
  pub exam_type : ℕ
  pub marks_obtained : ℕ
  pub max_marks : ℕ
  pub graded_by_user_id : ℕ

pub record StudentProfile : Type 0 where
  pub id : ℕ
  pub school_id : ℕ
  pub user_id : ℕ
  pub class_id : Option ℕ

pub record SchoolClass : Type 0 where
  pub id : ℕ
  pub school_id : ℕ

pub record State : Type 0 where
  pub quizzes : List Quiz
  pub questions : List QuizQuestion
  pub attempts : List QuizAttempt
  pub answers : List QuizAnswer
  pub grades : List GradeEntry
  pub students : List StudentProfile
  pub classes : List SchoolClass

-- A question to create, with the id that the database gives its row.
pub record QuestionInput : Type 0 where
  pub id : ℕ
  pub prompt : String
  pub options : List String
  pub correct_index : ℕ
  pub marks : Option ℕ

pub record CreateQuizInput : Type 0 where
  pub class_id : ℕ
  pub subject : ℕ
  pub title : String
  pub instructions : Option String
  pub time_limit_minutes : Option ℕ
  pub opens_at : Option ℕ
  pub closes_at : Option ℕ
  pub max_attempts : Option ℕ
  pub grade_term : Option ℕ
  pub grade_exam_type : Option ℕ
  pub questions : List QuestionInput

pub record SaveQuizAnswerInput : Type 0 where
  pub question_id : ℕ
  pub selected_index : ℕ

abbrev pub quizzes_table : Table State Quiz
quizzes_table = record { get = λ s. s.quizzes; put = λ s rows. record s { quizzes = rows } }

abbrev pub questions_table : Table State QuizQuestion
questions_table = record { get = λ s. s.questions; put = λ s rows. record s { questions = rows } }

abbrev pub attempts_table : Table State QuizAttempt
attempts_table = record { get = λ s. s.attempts; put = λ s rows. record s { attempts = rows } }

abbrev pub answers_table : Table State QuizAnswer
answers_table = record { get = λ s. s.answers; put = λ s rows. record s { answers = rows } }

abbrev pub grades_table : Table State GradeEntry
grades_table = record { get = λ s. s.grades; put = λ s rows. record s { grades = rows } }

abbrev pub students_table : Table State StudentProfile
students_table = record { get = λ s. s.students; put = λ s rows. record s { students = rows } }

abbrev pub classes_table : Table State SchoolClass
classes_table = record { get = λ s. s.classes; put = λ s rows. record s { classes = rows } }

abbrev pub is_open : QuizAttemptStatus → Bool
is_open in_progress = true
is_open _ = false

-- The unique index on (classId, subject, gradeTerm, gradeExamType): a null is like nothing.
abbrev pub same_gradebook_cell : Quiz → Quiz → Bool
same_gradebook_cell x y =
    x.class_id == y.class_id
    && (x.subject == y.subject
        && (same_some x.grade_term y.grade_term && same_some x.grade_exam_type y.grade_exam_type))

abbrev pub quiz_clashes : Quiz → Quiz → Bool
quiz_clashes x y = y.id == x.id || same_gradebook_cell x y

-- The unique index on (quizId, sortOrder), and the primary key.
abbrev pub question_clashes : QuizQuestion → QuizQuestion → Bool
question_clashes x y = y.id == x.id || x.quiz_id == y.quiz_id && x.sort_order == y.sort_order

-- The unique index on (quizId, studentId, attemptNumber), and the primary key.
abbrev pub attempt_clashes : QuizAttempt → QuizAttempt → Bool
attempt_clashes x y =
    y.id == x.id
    || x.quiz_id == y.quiz_id
      && (x.student_id == y.student_id && x.attempt_number == y.attempt_number)

-- The unique index on (attemptId, questionId), and the primary key.
abbrev pub same_cell : QuizAnswer → QuizAnswer → Bool
same_cell x y = x.attempt_id == y.attempt_id && x.question_id == y.question_id

abbrev pub answer_clashes : QuizAnswer → QuizAnswer → Bool
answer_clashes x y = y.id == x.id || same_cell x y
