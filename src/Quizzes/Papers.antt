-- ===== src/Quizzes/Papers.antt =====
-- The rows and the papers of `apps/api/src/quizzes/quizzes.service.ts`: what a student sees of a
-- quiz, how an answer is marked, and the rows that an attempt, an answer and a grade are.
use skolara.Prelude.{
  ℕ, ◌+◌, ◌*◌, String, Bool, false, not, ◌&&◌, ◌||◌, List, [], ◌∷◌, Option, none, some, leb, ◌==◌,
  is_none, or_else, if◌then◌else◌,
}
use skolara.Quizzes.{
  Quiz, QuizQuestion, QuizAttempt, QuizAnswer, QuizAttemptStatus, in_progress, GradeEntry,
  SaveQuizAnswerInput, is_open,
}

-- A question as the student sees it, without `correctIndex`.
pub record QuizQuestionForStudent : Type 0 where
  pub id : ℕ
  pub quiz_id : ℕ
  pub prompt : String
  pub options : List String
  pub marks : ℕ
  pub sort_order : ℕ

pub record Selection : Type 0 where
  pub question_id : ℕ
  pub selected_index : ℕ

pub record Paper : Type 0 where
  pub attempt : QuizAttempt
  pub quiz : Quiz
  pub questions : List QuizQuestionForStudent
  pub answers : List Selection

pub record MarkedQuestion : Type 0 where
  pub id : ℕ
  pub prompt : String
  pub options : List String
  pub marks : ℕ
  pub correct_index : ℕ
  pub selected_index : Option ℕ
  pub is_correct : Bool
  pub marks_awarded : ℕ

pub record MarkedPaper : Type 0 where
  pub attempt : QuizAttempt
  pub quiz : Quiz
  pub questions : List MarkedQuestion

abbrev pub without_key : QuizQuestion → QuizQuestionForStudent
without_key q = record {
  id = q.id;
  quiz_id = q.quiz_id;
  prompt = q.prompt;
  options = q.options;
  marks = q.marks;
  sort_order = q.sort_order;
}

-- `key.get(id)` and `byQuestion.get(id)`: of two entries with one key, a map has the later.
abbrev pub get_question : ℕ → List QuizQuestion → Option QuizQuestion
get_question id [] = none
get_question id (q ∷ questions) = elim (get_question id questions) [
  | some r ↦ some r
  | none ↦ if q.id == id then some q else none
]

abbrev pub get_answer : ℕ → List QuizAnswer → Option QuizAnswer
get_answer question_id [] = none
get_answer question_id (a ∷ answers) = elim (get_answer question_id answers) [
  | some r ↦ some r
  | none ↦ if a.question_id == question_id then some a else none
]

-- `isCorrect` and `marksAwarded` of an answer.
abbrev pub is_right : Option QuizQuestion → QuizAnswer → Bool
is_right none a = false
is_right (some q) a = a.selected_index == q.correct_index

abbrev pub award : Option QuizQuestion → QuizAnswer → ℕ
award none a = 0
award (some q) a = if a.selected_index == q.correct_index then q.marks else 0

abbrev pub award_by : List QuizQuestion → QuizAnswer → ℕ
award_by questions a = award (get_question a.question_id questions) a

-- What is written to the row of the answer `a`.
abbrev pub mark_answer : List QuizQuestion → QuizAnswer → QuizAnswer → QuizAnswer
mark_answer questions a x = record x {
  is_correct = some (is_right (get_question a.question_id questions) a);
  marks_awarded = some (award_by questions a);
}

abbrev pub marked_question : List QuizAnswer → QuizQuestion → MarkedQuestion
marked_question answers q =
    let answer = get_answer q.id answers in
    record {
      id = q.id;
      prompt = q.prompt;
      options = q.options;
      marks = q.marks;
      correct_index = q.correct_index;
      selected_index = elim answer [ none ↦ none | some a ↦ some a.selected_index ];
      is_correct = elim answer [ none ↦ false | some a ↦ or_else a.is_correct false ];
      marks_awarded = elim answer [ none ↦ 0 | some a ↦ or_else a.marks_awarded 0 ];
    }

-- `{ status, submittedAt, score, maxScore }`
abbrev pub settle : QuizAttemptStatus → ℕ → ℕ → ℕ → QuizAttempt → QuizAttempt
settle status now score max_score t = record t {
  status = status;
  submitted_at = some now;
  score = some score;
  max_score = some max_score;
}

-- A settled attempt with a score, of that quiz and student.
abbrev pub counts_for : ℕ → ℕ → QuizAttempt → Bool
counts_for quiz_id student_id t =
    t.quiz_id == quiz_id
    && (t.student_id == student_id && (not (is_open t.status) && not (is_none t.score)))

-- The gradebook's unique key (studentId, subject, term, examType).
abbrev pub is_cell : ℕ → ℕ → ℕ → ℕ → GradeEntry → Bool
is_cell student_id subject term exam_type g =
    g.student_id == student_id
    && (g.subject == subject && (g.term == term && g.exam_type == exam_type))

abbrev pub grade_clashes : GradeEntry → GradeEntry → Bool
grade_clashes x y = y.id == x.id || is_cell x.student_id x.subject x.term x.exam_type y

abbrev pub set_grade : QuizAttempt → GradeEntry → GradeEntry
set_grade best g = record g {
  marks_obtained = or_else best.score 0;
  max_marks = or_else best.max_score 0;
}

abbrev pub new_grade : ℕ → ℕ → ℕ → ℕ → Quiz → QuizAttempt → GradeEntry
new_grade id student_id term exam_type quiz best = record {
  id = id;
  school_id = quiz.school_id;
  student_id = student_id;
  class_id = quiz.class_id;
  subject = quiz.subject;
  term = term;
  exam_type = exam_type;
  marks_obtained = or_else best.score 0;
  max_marks = or_else best.max_score 0;
  graded_by_user_id = quiz.created_by_user_id;
}

-- `attempt.expiresAt > now` is false: the time has run out.
abbrev pub is_late : ℕ → QuizAttempt → Bool
is_late now t = is_open t.status && elim t.expires_at [ none ↦ false | some e ↦ leb e now ]

-- `existing.find(…)`
abbrev pub find_open : List QuizAttempt → Option QuizAttempt
find_open [] = none
find_open (t ∷ attempts) = if is_open t.status then some t else find_open attempts

-- `existing.at(-1)?.attemptNumber ?? 0`
abbrev pub last_number : List QuizAttempt → ℕ
last_number [] = 0
last_number (t ∷ []) = t.attempt_number
last_number (t ∷ u ∷ attempts) = last_number (u ∷ attempts)

abbrev pub new_attempt : ℕ → ℕ → ℕ → ℕ → ℕ → Quiz → QuizAttempt
new_attempt school_id id student_id number now quiz = record {
  id = id;
  school_id = school_id;
  quiz_id = quiz.id;
  student_id = student_id;
  attempt_number = number;
  status = in_progress;
  started_at = now;
  expires_at = elim quiz.time_limit_minutes [
    | none ↦ none
    | some m ↦ if m == 0 then none else some (now + m * 60000)
  ];
  submitted_at = none;
  score = none;
  max_score = none;
}

abbrev pub is_own : ℕ → ℕ → ℕ → QuizAttempt → Bool
is_own school_id attempt_id student_id t =
    t.id == attempt_id && (t.school_id == school_id && t.student_id == student_id)

abbrev pub is_answer : ℕ → ℕ → QuizAnswer → Bool
is_answer attempt_id question_id a = a.attempt_id == attempt_id && a.question_id == question_id

abbrev pub new_answer : ℕ → ℕ → ℕ → SaveQuizAnswerInput → QuizAnswer
new_answer id attempt_id now input = record {
  id = id;
  attempt_id = attempt_id;
  question_id = input.question_id;
  selected_index = input.selected_index;
  is_correct = none;
  marks_awarded = none;
  answered_at = now;
}

abbrev pub choose : ℕ → SaveQuizAnswerInput → QuizAnswer → QuizAnswer
choose now input a = record a { selected_index = input.selected_index; answered_at = now }
