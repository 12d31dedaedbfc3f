-- ===== src/Quizzes/Attempts/Marks.antt =====
-- Scores against what a quiz can give: `grade`, and what carries a score to the gradebook.
use skolara.Prelude.{
  ℕ, ◌+◌, ◌≤◌, ◌≡◌, refl, Bool, true, false, ◌&&◌, List, [], ◌∷◌, Option, none, some, arith, leb,
  ◌==◌, or_else, if◌then◌else◌, any, sum_by, update_by, All, All-update_by, All-In, Bool-cases,
  Option-cases, inl, inr,
}
use skolara.Prelude.Action.{Keeps}
use skolara.Store.{Prisma, no_clash, no_clash-update_by, Finds}
use mathlib.Core.Path.{subst}
use skolara.Quizzes.{
  QuizQuestion, QuizAttempt, QuizAnswer, QuizAttemptStatus, GradeEntry, State, same_cell,
}
use skolara.Quizzes.Papers.{
  get_question, award_by, mark_answer, settle, counts_for, is_cell, grade_clashes, set_grade,
  new_grade,
}
use skolara.Quizzes.Attempts.{
  questions_of, answers_of, mark_answers, record_marks, sync_gradebook, grade,
}

-- Not above the most there is; no score is no claim.
abbrev pub within : Option ℕ → Option ℕ → Bool
within none m = true
within (some n) none = false
within (some n) (some m) = leb n m

abbrev pub HasFairScore : QuizAttempt → Type 0
HasFairScore t = within t.score t.max_score ≡ true

abbrev pub HasFairMarks : GradeEntry → Type 0
HasFairMarks g = g.marks_obtained ≤ g.max_marks

pub record IsGraded (s : State) : Type 0 where
  pub cells : no_clash same_cell s.answers ≡ true
  pub scores : All HasFairScore s.attempts
  pub grades : All HasFairMarks s.grades

-- One more question gives no more than its marks, to the answers that it is the question of.
award_of_question :
    (q : QuizQuestion) (questions : List QuizQuestion) (a : QuizAnswer)
    → award_by (q ∷ questions) a
      ≤ award_by questions a + (if q.id == a.question_id then q.marks else 0)
award_of_question q questions a = elim (Option-cases (get_question a.question_id questions)) [
  | inl e ↦ ground (arith, e)
  | inr (r, e) ↦ ground (arith, e)
]

award_sum :
    (p : QuizAnswer → Bool) (q : QuizQuestion) (questions : List QuizQuestion)
    (answers : List QuizAnswer)
    → sum_by (λ a. if p a then award_by (q ∷ questions) a else 0) answers
      ≤ sum_by (λ a. if p a then award_by questions a else 0) answers
        + sum_by (λ a. if p a then (if q.id == a.question_id then q.marks else 0) else 0) answers
award_sum p q questions [] = omega arith
award_sum p q questions (a ∷ answers) = elim (Bool-cases (p a)) [
  | inl e ↦ ground (arith, e, award_of_question q questions a, award_sum p q questions answers)
  | inr e ↦ ground (arith, e, award_sum p q questions answers)
]

-- The marks that the answers of an attempt to one question may bring, all of them.
abbrev brings : ℕ → ℕ → ℕ → QuizAnswer → ℕ
brings attempt_id question_id marks a =
    if a.attempt_id == attempt_id then (if question_id == a.question_id then marks else 0) else 0

brings-none :
    (attempt_id question_id marks : ℕ) (a : QuizAnswer) (answers : List QuizAnswer)
    → a.attempt_id ≡ attempt_id
    → a.question_id ≡ question_id
    → any (same_cell a) answers ≡ false
    → sum_by (brings attempt_id question_id marks) answers ≡ 0
brings-none attempt_id question_id marks a [] e f h = refl
brings-none attempt_id question_id marks a (x ∷ answers) e f h =
    ground (arith, brings-none attempt_id question_id marks a answers e f)

-- An attempt answers a question once.
brings-once :
    (attempt_id question_id marks : ℕ) (answers : List QuizAnswer)
    → no_clash same_cell answers ≡ true
    → sum_by (brings attempt_id question_id marks) answers ≤ marks
brings-once attempt_id question_id marks [] h = omega arith
brings-once attempt_id question_id marks (a ∷ answers) h =
    elim (Bool-cases (a.attempt_id == attempt_id && question_id == a.question_id)) [
      | inl e ↦ ground (
        arith,
        e,
        brings-none attempt_id question_id marks a answers (ground (arith, e)) (ground (arith, e)),
      )
      | inr e ↦ ground (arith, e, brings-once attempt_id question_id marks answers)
    ]

score_bound :
    (attempt_id : ℕ) (questions : List QuizQuestion) (answers : List QuizAnswer)
    → no_clash same_cell answers ≡ true
    → sum_by (λ a. if a.attempt_id == attempt_id then award_by questions a else 0) answers
      ≤ sum_by (λ q. q.marks) questions
score_bound attempt_id [] [] h = omega arith
score_bound attempt_id [] (a ∷ answers) h = ground (arith, score_bound attempt_id [] answers)
score_bound attempt_id (q ∷ questions) answers h = omega (
  arith,
  award_sum (λ a. a.attempt_id == attempt_id) q questions answers,
  brings-once attempt_id q.id q.marks answers h,
  score_bound attempt_id questions answers h,
)

module _ (db : Prisma) where
  -- Marking writes nothing but the answers, and keeps one to a question.
  pub mark_answers-rows :
      (questions : List QuizQuestion) (answers : List QuizAnswer) (s : State)
      → let t = (mark_answers db questions answers s).1 in
        (t.attempts ≡ s.attempts)
        × (t.grades ≡ s.grades)
        × (no_clash same_cell s.answers ≡ true → no_clash same_cell t.answers ≡ true)
  unfolding mark_answers
  mark_answers-rows questions [] s = (refl, refl, λ h. h)
  mark_answers-rows questions (a ∷ answers) s =
      let has_id = λ (x : QuizAnswer). x.id == a.id in
      let f = mark_answer questions a in
      ground (
        arith,
        db.update_many_lem has_id f s.answers,
        no_clash-update_by same_cell has_id f s.answers (λ x y h. ground (arith, h)),
        mark_answers-rows questions answers (record s { answers = update_by has_id f s.answers }),
      )

  record_marks-IsGraded :
      (attempt_id now : ℕ) (status : QuizAttemptStatus) (questions : List QuizQuestion)
      (answers : List QuizAnswer)
      → sum_by (award_by questions) answers ≤ sum_by (λ q. q.marks) questions
      → Keeps IsGraded (record_marks db attempt_id now status questions answers)
  unfolding record_marks
  record_marks-IsGraded attempt_id now status questions answers b s v =
      let f =
        settle status now (sum_by (award_by questions) answers) (sum_by (λ q. q.marks) questions) in
      let has_id = λ (t : QuizAttempt). t.id == attempt_id in
      let marked = (mark_answers db questions answers s).1 in
      ground (
        arith,
        mark_answers-rows questions answers s,
        db.update_many_lem has_id f marked.attempts,
        All-update_by HasFairScore HasFairScore has_id f s.attempts (λ t m h. ground (arith, h, b))
            v.scores,
      )

  -- The best attempt has a fair score, and so has the grade that is made of it.
  best_is_fair :
      (quiz_id student_id : ℕ) (s : State) (best : QuizAttempt)
      → All HasFairScore s.attempts
      → db.find_top (counts_for quiz_id student_id) (λ t. or_else t.score 0) s.attempts ≡ some best
      → or_else best.score 0 ≤ or_else best.max_score 0
  best_is_fair quiz_id student_id s best v f =
      let counts = counts_for quiz_id student_id in
      let (i, c) =
        subst (Finds counts s.attempts) f
          (db.find_top_finds counts (λ t. or_else t.score 0) s.attempts) in
      let fair = All-In HasFairScore best s.attempts v i in
      elim (Option-cases best.score) [
        | inl z ↦ ground (arith, z)
        | inr (a, z) ↦ elim (Option-cases best.max_score) [
          | inl w ↦ ground (arith, z, w, fair)
          | inr (b, w) ↦ ground (arith, z, w, fair)
        ]
      ]

  sync_gradebook-IsGraded :
      (grade_id quiz_id student_id : ℕ)
      → Keeps IsGraded (sync_gradebook db grade_id quiz_id student_id)
  unfolding sync_gradebook
  sync_gradebook-IsGraded grade_id quiz_id student_id s v =
      elim (Option-cases (db.find_first (λ q. q.id == quiz_id) s.quizzes)) [
        | inl e ↦ ground (arith, e, v)
        | inr (quiz, e) ↦ elim (Option-cases quiz.grade_term) [
          | inl n ↦ ground (arith, e, n)
          | inr (term, n) ↦ elim (Option-cases quiz.grade_exam_type) [
            | inl x ↦ ground (arith, e, n, x)
            | inr (exam_type, x) ↦
                let cell = is_cell student_id quiz.subject term exam_type in
                elim (Option-cases (
                  db.find_top (counts_for quiz_id student_id) (λ t. or_else t.score 0)
                    s.attempts)) [
                      | inl f ↦ ground (arith, e, n, x, f)
                      | inr (best, f) ↦ ground (
                        arith,
                        e,
                        n,
                        x,
                        f,
                        best_is_fair quiz_id student_id s best v.scores f,
                        db.update_many_lem cell (set_grade best) s.grades,
                        All-update_by HasFairMarks HasFairMarks cell (set_grade best) s.grades
                            (λ g k h.
                              ground (arith, h, best_is_fair quiz_id student_id s best v.scores f))
                            v.grades,
                        db.create_lem grade_clashes
                            (new_grade grade_id student_id term exam_type quiz best) s.grades,
                      )
                    ]
          ]
        ]
      ]

  pub grade-IsGraded :
      (grade_id attempt_id now : ℕ) (status : QuizAttemptStatus)
      → Keeps IsGraded (grade db grade_id attempt_id now status)
  unfolding grade
  grade-IsGraded grade_id attempt_id now status s v =
      elim (Option-cases (db.find_first (λ t. t.id == attempt_id) s.attempts)) [
        | inl e ↦ ground (arith, e, v)
        | inr (attempt, e) ↦
            let questions = questions_of db attempt.quiz_id s in
            let answers = answers_of db attempt_id s in
            let is_one = λ (a : QuizAnswer). a.attempt_id == attempt_id in
            let record_ = record_marks db attempt_id now status questions answers in
            let marked =
              record_marks-IsGraded attempt_id now status questions answers
                (omega (
                  arith,
                  db.find_many_sum is_one (λ a. 0) (award_by questions) s.answers,
                  score_bound attempt_id questions s.answers v.cells,
                ))
                s v in
            ground (
              arith,
              e,
              marked,
              sync_gradebook-IsGraded grade_id attempt.quiz_id attempt.student_id (record_ s).1,
            )
      ]
