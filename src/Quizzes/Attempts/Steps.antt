-- ===== src/Quizzes/Attempts/Steps.antt =====
-- Any invariant through `startAttempt`, `saveAnswer` and `submitAttempt`: what they write is a
-- grading of an open attempt, a new attempt or an answer.
use skolara.Prelude.{
  ℕ, ◌+◌, ◌≡◌, refl, true, not, ◌&&◌, List, [], ◌∷◌, some, arith, ◌==◌, is_none, In, Bool-cases,
  Option-cases, inl, inr,
}
use mathlib.Core.Path.{subst, sym}
use skolara.Prelude.Action.{ok, Result-cases}
use skolara.Store.{Prisma, found_row, upsert}
use skolara.Quizzes.{
  Quiz, QuizAttempt, QuizAttemptStatus, in_progress, submitted, expired, StudentProfile, State,
  SaveQuizAnswerInput, is_open, attempt_clashes, answer_clashes, answers_table,
}
use skolara.Quizzes.Papers.{
  new_attempt, is_answer, new_answer, choose, is_late, find_open, last_number, is_own,
}
use skolara.Quizzes.Attempts.{
  grade, finalize_if_expired, attempt_paper, attempt_result, open_attempt, start_attempt,
  own_attempt, save_answer, submit_attempt, resume_or_open, hand_in,
}

find_open-some :
    (attempts : List QuizAttempt) (t : QuizAttempt)
    → find_open attempts ≡ some t
    → In t attempts × (is_open t.status ≡ true)
find_open-some [] t e = cc
find_open-some (x ∷ attempts) t e = ground (arith, find_open-some attempts t)

is_own-id :
    (school_id attempt_id student_id : ℕ) (t : QuizAttempt)
    → is_own school_id attempt_id student_id t ≡ true
    → t.id ≡ attempt_id
is_own-id school_id attempt_id student_id t q = ground (arith, q)

module _ (db : Prisma) (I : State → Type 0)
    (graded : (grade_id now : ℕ) (status : QuizAttemptStatus) (t : QuizAttempt) (s : State)
      → In t s.attempts
      → is_open t.status ≡ true
      → I s
      → I (grade db grade_id t.id now status s).1)
    (opened : (school_id id student_id number now : ℕ) (quiz : Quiz) (s : State)
        (rows : List QuizAttempt)
      → db.create attempt_clashes (new_attempt school_id id student_id number now quiz) s.attempts
        ≡ some rows
      → I s
      → I (record s { attempts = rows }))
    (answered : (id attempt_id now : ℕ) (input : SaveQuizAnswerInput) (s : State)
      → I s
      → I
          (upsert db answers_table
            (is_answer attempt_id input.question_id)
            (choose now input)
            answer_clashes
            (new_answer id attempt_id now input)
            s).1) where
  finalize_keeps :
      (grade_id now : ℕ) (t : QuizAttempt) (s : State)
      → In t s.attempts
      → I s
      → I (finalize_if_expired db grade_id now t s).1
  unfolding finalize_if_expired
  finalize_keeps grade_id now t s m v = elim (Bool-cases (is_late now t)) [
    | inl e ↦ ground (arith, e, graded grade_id now expired t s m)
    | inr e ↦ ground (arith, e, v)
  ]

  open_keeps :
      (school_id student_id id now : ℕ) (quiz : Quiz) (existing : List QuizAttempt) (s : State)
      → I s
      → I (open_attempt db school_id student_id id now quiz existing s).1
  unfolding open_attempt attempt_paper
  open_keeps school_id student_id id now quiz existing s v =
      let row = new_attempt school_id id student_id (last_number existing + 1) now quiz in
      elim (Option-cases (db.create attempt_clashes row s.attempts)) [
        | inl e ↦ ground (arith, e, v)
        | inr (rows, e) ↦ ground (
          arith,
          e,
          v,
          opened school_id id student_id (last_number existing + 1) now quiz s rows e v,
        )
      ]

  attempt_paper_reads : (attempt_id : ℕ) (s : State) → I s → I (attempt_paper db attempt_id s).1
  unfolding attempt_paper
  attempt_paper_reads attempt_id s v = ground (arith, v)

  attempt_result_reads : (attempt_id : ℕ) (s : State) → I s → I (attempt_result db attempt_id s).1
  unfolding attempt_result
  attempt_result_reads attempt_id s v = ground (arith, v)

  resume_keeps :
      (school_id student_id id grade_id now : ℕ) (quiz : Quiz) (existing : List QuizAttempt)
      (s : State)
      → ((t : QuizAttempt) → In t existing → In t s.attempts)
      → I s
      → I (resume_or_open db school_id student_id id grade_id now quiz existing s).1
  unfolding resume_or_open
  resume_keeps school_id student_id id grade_id now quiz existing s i v =
      elim (Option-cases (find_open existing)) [
        | inl g ↦ ground (arith, g, open_keeps school_id student_id id now quiz existing s v)
        | inr (t, g) ↦
            let settled = (finalize_if_expired db grade_id now t s).1 in
            let kept = finalize_keeps grade_id now t s (i t (find_open-some existing t g).0) v in
            ground (
              arith,
              g,
              kept,
              open_keeps school_id student_id id now quiz existing settled kept,
              attempt_paper_reads t.id settled kept,
            )
      ]

  pub start_attempt_keeps :
      (school_id quiz_id user_id id grade_id now : ℕ) (s : State)
      → I s
      → I (start_attempt db school_id quiz_id user_id id grade_id now s).1
  unfolding start_attempt
  start_attempt_keeps school_id quiz_id user_id id grade_id now s v =
      let own = λ (p : StudentProfile). p.user_id == user_id && p.school_id == school_id in
      let fits = λ (q : Quiz).
        q.id == quiz_id && (q.school_id == school_id && not (is_none q.published_at)) in
      elim (Option-cases (db.find_first own s.students)) [
        | inl e ↦ ground (arith, e, v)
        | inr (student, e) ↦ elim (Option-cases (db.find_first fits s.quizzes)) [
          | inl f ↦ ground (arith, e, f, v)
          | inr (quiz, f) ↦
              let mine = λ (t : QuizAttempt). t.quiz_id == quiz_id && t.student_id == student.id in
              ground (
                arith,
                e,
                f,
                v,
                resume_keeps school_id student.id id grade_id now quiz
                    (db.find_many mine (λ t. t.attempt_number) s.attempts) s
                    (λ t m. (db.find_many_in mine (λ t. t.attempt_number) s.attempts t m).0) v,
              )
        ]
      ]

  pub save_answer_keeps :
      (school_id attempt_id user_id id grade_id now : ℕ) (input : SaveQuizAnswerInput) (s : State)
      → I s
      → I (save_answer db school_id attempt_id user_id id grade_id now input s).1
  unfolding save_answer own_attempt
  save_answer_keeps school_id attempt_id user_id id grade_id now input s v =
      let own = λ (p : StudentProfile). p.user_id == user_id && p.school_id == school_id in
      elim (Option-cases (db.find_first own s.students)) [
        | inl e ↦ ground (arith, e, v)
        | inr (student, e) ↦
            elim (Option-cases
              (db.find_first (is_own school_id attempt_id student.id) s.attempts)) [
                | inl f ↦ ground (arith, e, f, v)
                | inr (t, f) ↦
                    let (m, _) =
                      found_row db (is_own school_id attempt_id student.id) s.attempts f in
                    let settled = finalize_if_expired db grade_id now t s in
                    ground (
                      arith,
                      e,
                      f,
                      finalize_keeps grade_id now t s m v,
                      answered id attempt_id now input settled.1
                          (finalize_keeps grade_id now t s m v),
                    )
              ]
      ]

  -- An attempt that is still open when it is looked at has been left alone.
  finalize-open :
      (grade_id now : ℕ) (t : QuizAttempt) (s : State)
      → (finalize_if_expired db grade_id now t s).0 ≡ ok in_progress
      → (is_open t.status ≡ true) × ((finalize_if_expired db grade_id now t s).1 ≡ s)
  unfolding finalize_if_expired
  finalize-open grade_id now t s h = elim (Bool-cases (is_late now t)) [
    | inl e ↦ ground (arith, e, h)
    | inr e ↦ ground (arith, e, h)
  ]

  hand_in_keeps :
      (grade_id now : ℕ) (status : QuizAttemptStatus) (t : QuizAttempt) (s : State)
      → (status ≡ in_progress → In t s.attempts × (is_open t.status ≡ true))
      → I s
      → I (hand_in db t.id grade_id now status s).1
  unfolding hand_in
  hand_in_keeps grade_id now submitted t s h v = v
  hand_in_keeps grade_id now expired t s h v = attempt_result_reads t.id s v
  hand_in_keeps grade_id now in_progress t s h v =
      let (m, o) = h refl in
      let kept = graded grade_id now submitted t s m o v in
      ground
        (arith, kept, attempt_result_reads t.id (grade db grade_id t.id now submitted s).1 kept)

  -- The same, of the id that the attempt was found by, once its time has been looked at.
  hand_in_own :
      (attempt_id grade_id now : ℕ) (status : QuizAttemptStatus) (t : QuizAttempt) (s : State)
      → In t s.attempts
      → (t.id ≡ attempt_id)
      → (finalize_if_expired db grade_id now t s).0 ≡ ok status
      → I (finalize_if_expired db grade_id now t s).1
      → I (hand_in db attempt_id grade_id now status (finalize_if_expired db grade_id now t s).1).1
  hand_in_own attempt_id grade_id now status t s m e g v =
      let settled = finalize_if_expired db grade_id now t s in
      subst (λ k. I (hand_in db k grade_id now status settled.1).1) e
        (hand_in_keeps grade_id now status t settled.1
          (λ i.
            let (o, same) = finalize-open grade_id now t s (cc (g, i)) in
            (subst (λ u. In t u.attempts) (sym same) m, o))
          v)

  pub submit_attempt_keeps :
      (school_id attempt_id user_id grade_id now : ℕ) (s : State)
      → I s
      → I (submit_attempt db school_id attempt_id user_id grade_id now s).1
  unfolding submit_attempt own_attempt
  submit_attempt_keeps school_id attempt_id user_id grade_id now s v =
      let own = λ (p : StudentProfile). p.user_id == user_id && p.school_id == school_id in
      elim (Option-cases (db.find_first own s.students)) [
        | inl e ↦ ground (arith, e, v)
        | inr (student, e) ↦
            elim (Option-cases
              (db.find_first (is_own school_id attempt_id student.id) s.attempts)) [
                | inl f ↦ ground (arith, e, f, v)
                | inr (t, f) ↦
                    let (m, q) =
                      found_row db (is_own school_id attempt_id student.id) s.attempts f in
                    let kept = finalize_keeps grade_id now t s m v in
                    let is_it = is_own-id school_id attempt_id student.id t q in
                    elim (Result-cases (finalize_if_expired db grade_id now t s).0) [
                      | inr (x, g) ↦ ground (arith, e, f, g, kept)
                      | inl (status, g) ↦ ground (
                        arith,
                        e,
                        f,
                        g,
                        hand_in_own attempt_id grade_id now status t s m is_it g kept,
                      )
                    ]
              ]
      ]
