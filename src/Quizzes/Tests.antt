-- ===== src/Quizzes/Tests.antt =====
-- Requests to the quizzes service, and the theorems about it at concrete inputs.
use skolara.Prelude.{refl, In, inl, inr}
use skolara.Store.{listed}
use skolara.Quizzes.Attempts.Tests.{first_attempt, classroom}
use skolara.Quizzes.Attempts.Marks.{IsGraded}
use skolara.Quizzes.Requests.{serve, submit_quiz, serve-IsGraded, serve-keeps_settled}

classroom-IsGraded : IsGraded classroom
classroom-IsGraded = record { cells = refl; scores = (refl, (refl, tt)); grades = tt }

serve-IsGraded_example : IsGraded (serve listed 700000 (submit_quiz 7 31 60 50) classroom)
serve-IsGraded_example =
    serve-IsGraded listed 700000 (submit_quiz 7 31 60 50) classroom classroom-IsGraded

serve-keeps_settled_example :
    In first_attempt (serve listed 500 (submit_quiz 7 31 60 50) classroom).attempts
serve-keeps_settled_example =
    serve-keeps_settled listed 500 (submit_quiz 7 31 60 50) classroom first_attempt
      (refl, (refl, tt)) (inr (inl refl)) refl
