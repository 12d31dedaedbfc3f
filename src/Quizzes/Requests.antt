-- ===== src/Quizzes/Requests.antt =====
-- The quizzes service as a whole: any request of staff or of a student, served at some time.
use skolara.Prelude.{
  ℕ, ◌≡◌, refl, true, false, List, [], ◌∷◌, some, arith, In, inl, inr, ◌⊎◌, Option-cases, any,
}
use mathlib.Core.Path.{subst, sym}
use skolara.Store.{Prisma, Unique, no_clash-update_by, no_clash-filter_by, upsert, missing_row}
use skolara.Quizzes.{
  Quiz, QuizAttempt, QuizAnswer, QuizAttemptStatus, State, CreateQuizInput, QuestionInput,
  SaveQuizAnswerInput, is_open, attempt_clashes, answer_clashes, answers_table, same_cell,
}
use skolara.Quizzes.Authoring.{create, replace_questions, publish, remove}
use skolara.Quizzes.Authoring.Rows.{
  IsBeside, IsBelow, create-IsBeside, replace_questions-IsBelow, publish-IsBeside, remove-IsBelow,
}
use skolara.Quizzes.Papers.{new_attempt, is_answer, new_answer, choose}
use skolara.Quizzes.Attempts.{start_attempt, save_answer, submit_attempt, grade}
use skolara.Quizzes.Attempts.Finality.{IsSettled, graded-IsSettled, opened-IsSettled}
use skolara.Quizzes.Attempts.Marks.{IsGraded, grade-IsGraded}
use skolara.Quizzes.Attempts.Steps.{start_attempt_keeps, save_answer_keeps, submit_attempt_keeps}

-- A request to the service, with the ids that the database gives the rows it makes.
pub data Request : Type 0 where
  create_quiz : (school_id created_by id : ℕ) → CreateQuizInput → Request
  replace_quiz : (school_id quiz_id : ℕ) → List QuestionInput → Request
  publish_quiz : (school_id quiz_id : ℕ) → Request
  remove_quiz : (school_id quiz_id : ℕ) → Request
  start_quiz : (school_id quiz_id user_id id grade_id : ℕ) → Request
  answer_quiz : (school_id attempt_id user_id id grade_id : ℕ) → SaveQuizAnswerInput → Request
  submit_quiz : (school_id attempt_id user_id grade_id : ℕ) → Request

-- What the service leaves behind it.
pub serve : Prisma → ℕ → Request → State → State
serve db now (create_quiz school_id created_by id input) s =
    (create db school_id created_by id input s).1
serve db now (replace_quiz school_id quiz_id inputs) s =
    (replace_questions db school_id quiz_id inputs s).1
serve db now (publish_quiz school_id quiz_id) s = (publish db school_id quiz_id now s).1
serve db now (remove_quiz school_id quiz_id) s = (remove db school_id quiz_id s).1
serve db now (start_quiz school_id quiz_id user_id id grade_id) s =
    (start_attempt db school_id quiz_id user_id id grade_id now s).1
serve db now (answer_quiz school_id attempt_id user_id id grade_id input) s =
    (save_answer db school_id attempt_id user_id id grade_id now input s).1
serve db now (submit_quiz school_id attempt_id user_id grade_id) s =
    (submit_attempt db school_id attempt_id user_id grade_id now s).1

-- What is asked of an invariant, so that every request keeps it.
module _ (db : Prisma) (I : State → Type 0)
    (graded : (grade_id now : ℕ) (status : QuizAttemptStatus) (t : QuizAttempt) (s : State)
      → In t s.attempts
      → is_open t.status ≡ true
      → I s
      → I (grade db grade_id t.id now status s).1)
    (opened : (school_id id student_id number now : ℕ) (quiz : Quiz) (s : State)
        (rows : List QuizAttempt)
      → db.create attempt_clashes (new_attempt school_id id student_id number now quiz) s.attempts
        ≡ some rows
      → I s
      → I (record s { attempts = rows }))
    (answered : (id attempt_id now : ℕ) (input : SaveQuizAnswerInput) (s : State)
      → I s
      → I
          (upsert db answers_table
            (is_answer attempt_id input.question_id)
            (choose now input)
            answer_clashes
            (new_answer id attempt_id now input)
            s).1)
    (beside : (s t : State) → IsBeside s t → I s → I t)
    (below : (s t : State) → IsBelow s t → I s → I t) where
  same_or_below : (s t : State) → (t ≡ s) ⊎ IsBelow s t → I s → I t
  same_or_below s t (inl e) v = subst I (sym e) v
  same_or_below s t (inr b) v = below s t b v

  serve_keeps : (now : ℕ) (q : Request) (s : State) → I s → I (serve db now q s)
  unfolding serve
  serve_keeps now (create_quiz school_id created_by id input) s v =
      beside _ _ (create-IsBeside db school_id created_by id input s) v
  serve_keeps now (replace_quiz school_id quiz_id inputs) s v =
      same_or_below _ _ (replace_questions-IsBelow db school_id quiz_id inputs s) v
  serve_keeps now (publish_quiz school_id quiz_id) s v =
      beside _ _ (publish-IsBeside db school_id quiz_id now s) v
  serve_keeps now (remove_quiz school_id quiz_id) s v =
      same_or_below _ _ (remove-IsBelow db school_id quiz_id s) v
  serve_keeps now (start_quiz school_id quiz_id user_id id grade_id) s v =
      start_attempt_keeps db I graded opened answered school_id quiz_id user_id id grade_id now s v
  serve_keeps now (answer_quiz school_id attempt_id user_id id grade_id input) s v =
      save_answer_keeps db I graded opened answered school_id attempt_id user_id id grade_id now
        input s v
  serve_keeps now (submit_quiz school_id attempt_id user_id grade_id) s v =
      submit_attempt_keeps db I graded opened answered school_id attempt_id user_id grade_id now s v

any-is_answer :
    (id attempt_id now : ℕ) (input : SaveQuizAnswerInput) (answers : List QuizAnswer)
    → any (is_answer attempt_id input.question_id) answers ≡ false
    → any (same_cell (new_answer id attempt_id now input)) answers ≡ false
any-is_answer id attempt_id now input [] h = refl
any-is_answer id attempt_id now input (a ∷ answers) h =
    ground (arith, any-is_answer id attempt_id now input answers)

module _ (db : Prisma) where
  answered-IsSettled :
      (t : QuizAttempt) (id attempt_id now : ℕ) (input : SaveQuizAnswerInput) (s : State)
      → IsSettled t s
      → IsSettled t
          (upsert db answers_table
            (is_answer attempt_id input.question_id)
            (choose now input)
            answer_clashes
            (new_answer id attempt_id now input)
            s).1
  answered-IsSettled t id attempt_id now input s v = ground (arith, v)

  opened-IsGraded :
      (school_id id student_id number now : ℕ) (quiz : Quiz) (s : State) (rows : List QuizAttempt)
      → db.create attempt_clashes (new_attempt school_id id student_id number now quiz) s.attempts
        ≡ some rows
      → IsGraded s
      → IsGraded (record s { attempts = rows })
  opened-IsGraded school_id id student_id number now quiz s rows e v = ground (
    arith,
    e,
    v,
    db.create_lem attempt_clashes (new_attempt school_id id student_id number now quiz) s.attempts,
  )

  answered-IsGraded :
      (id attempt_id now : ℕ) (input : SaveQuizAnswerInput) (s : State)
      → IsGraded s
      → IsGraded
          (upsert db answers_table
            (is_answer attempt_id input.question_id)
            (choose now input)
            answer_clashes
            (new_answer id attempt_id now input)
            s).1
  answered-IsGraded id attempt_id now input s v =
      let fits = is_answer attempt_id input.question_id in
      elim (Option-cases (db.find_first fits s.answers)) [
        | inr (a, e) ↦ ground (
          arith,
          e,
          v,
          db.update_many_lem fits (choose now input) s.answers,
          no_clash-update_by same_cell fits (choose now input) s.answers
              (λ x y h. ground (arith, h)) v.cells,
        )
        | inl e ↦ ground (
          arith,
          e,
          v,
          any-is_answer id attempt_id now input s.answers,
          missing_row db fits s.answers e,
          db.create_lem answer_clashes (new_answer id attempt_id now input) s.answers,
        )
      ]

  -- Every request to the quizzes service, at any time and refused or not, keeps scores within
  -- what a quiz can give: an attempt answers a question at most once, no attempt has a score
  -- above its maximum, and no grade in the gradebook is above its maximum.
  pub serve-IsGraded :
      (now : ℕ) (q : Request) (s : State) → IsGraded s → IsGraded (serve db now q s)
  serve-IsGraded =
      serve_keeps db IsGraded
        (λ grade_id now status t s m o v. grade-IsGraded db grade_id t.id now status s v)
        opened-IsGraded answered-IsGraded (λ s t b v. ground (arith, b, v))
        (λ s t (a, (kept, e), g) v.
          ground (arith, a, e, g, v, no_clash-filter_by same_cell kept s.answers))

  -- Where the attempts have unique ids, an attempt that is no longer in progress stays as it is,
  -- score and all, under every request to the quizzes service at any time.
  pub serve-keeps_settled :
      (now : ℕ) (q : Request) (s : State) (t : QuizAttempt)
      → Unique QuizAttempt.id s.attempts
      → In t s.attempts
      → is_open t.status ≡ false
      → In t (serve db now q s).attempts
  serve-keeps_settled now q s t u m o =
      (serve_keeps db (IsSettled t) (graded-IsSettled db t) (opened-IsSettled db t)
        (answered-IsSettled t) (λ s t b v. ground (arith, b, v))
        (λ s t (a, _, _) v. ground (arith, a, v)) now q s (u, m, o)).1
