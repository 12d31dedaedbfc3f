-- ===== src/Quizzes/Attempts/Tests.antt =====
-- A quiz that is sat, and an answer that comes too late.
use skolara.Prelude.{◌≡◌, refl, none, some, [], ◌∷◌}
use skolara.Prelude.Action.{ok}
use skolara.Store.{listed}
use skolara.Quizzes.{
  Quiz, QuizQuestion, QuizAttempt, State, in_progress, submitted, SaveQuizAnswerInput,
}
use skolara.Quizzes.Attempts.{own_attempt, resolve_own_student}

abbrev quiz : Quiz
quiz = record {
  id = 1;
  school_id = 7;
  class_id = 3;
  subject = 11;
  title = "Fractions";
  instructions = none;
  time_limit_minutes = some 10;
  opens_at = none;
  closes_at = none;
  max_attempts = 2;
  published_at = some 1;
  grade_term = some 1;
  grade_exam_type = some 2;
  created_by_user_id = 20;
}

abbrev question : QuizQuestion
question = record {
  id = 4;
  quiz_id = 1;
  prompt = "1/2 + 1/2";
  options = "1" ∷ "2" ∷ [];
  correct_index = 0;
  marks = 200;
  sort_order = 0;
}

-- The first attempt, which is over, and the second, which is open until 600 000.
abbrev pub first_attempt : QuizAttempt
first_attempt = record {
  id = 30;
  school_id = 7;
  quiz_id = 1;
  student_id = 6;
  attempt_number = 1;
  status = submitted;
  started_at = 0;
  expires_at = none;
  submitted_at = some 10;
  score = some 0;
  max_score = some 200;
}

abbrev second_attempt : QuizAttempt
second_attempt = record {
  id = 31;
  school_id = 7;
  quiz_id = 1;
  student_id = 6;
  attempt_number = 2;
  status = in_progress;
  started_at = 0;
  expires_at = some 600000;
  submitted_at = none;
  score = none;
  max_score = none;
}

abbrev pub classroom : State
classroom = record {
  quizzes = quiz ∷ [];
  questions = question ∷ [];
  attempts = second_attempt ∷ first_attempt ∷ [];
  answers =
      record {
        id = 40;
        attempt_id = 31;
        question_id = 4;
        selected_index = 0;
        is_correct = none;
        marks_awarded = none;
        answered_at = 5;
      }
      ∷ [];
  grades = [];
  students = record { id = 6; school_id = 7; user_id = 60; class_id = some 3 } ∷ [];
  classes = [];
}

abbrev other_choice : SaveQuizAnswerInput
other_choice = record { question_id = 4; selected_index = 1 }

own_second : (own_attempt listed 7 31 60 classroom).0 ≡ ok second_attempt
unfolding own_attempt resolve_own_student
own_second = refl
