-- ===== src/Exams/Tests.antt =====
-- Runs of the exams service, and the theorems about it at concrete inputs.
use skolara.Prelude.{ℕ, ◌≡◌, ◌+◌, ◌*◌, ◌/◌, refl, [], ◌∷◌, List, inl, inr}
use skolara.Prelude.Action.{ok}
use skolara.Store.{listed}
use skolara.Exams.{State, Doubles, GradeEntry, RankListEntry, rank_list}
use skolara.Exams.Ranks.{IsDescending, above, rank_list-places}

abbrev mark : (student_id subject obtained : ℕ) → GradeEntry
mark student_id subject obtained = record {
  school_id = 7;
  class_id = 4;
  student_id = student_id;
  subject = subject;
  term = 1;
  exam_type = 2;
  marks_obtained = obtained;
  max_marks = 10000;
  first_name = "";
  last_name = "";
}

abbrev school : State
school = record {
  exams =
      record {
        id = 1;
        school_id = 7;
        class_id = 4;
        name = "Midterm";
        term = 1;
        exam_type = 2;
        scheduled_date = 9;
      }
      ∷ [];
  grades = mark 30 1 5000 ∷ mark 31 1 8000 ∷ mark 32 1 7000 ∷ mark 30 2 9000 ∷ mark 31 2 6000 ∷ [];
}

abbrev place : (student_id obtained max percentage rank : ℕ) → RankListEntry
place student_id obtained max percentage rank = record {
  student_id = student_id;
  first_name = "";
  last_name = "";
  total_marks_obtained = obtained;
  total_max_marks = max;
  percentage = percentage;
  rank = rank;
}

abbrev exact : Doubles
exact = record { number = λ n. n; add = ◌+◌; percent = λ obtained max. obtained * 10000 / max }

abbrev places : List RankListEntry
places = place 30 14000 20000 7000 1 ∷ place 31 14000 20000 7000 1 ∷ place 32 7000 10000 7000 1 ∷ []

-- Three students of one percentage share the first place.
shared : (rank_list listed exact 7 1 school).0 ≡ ok places
unfolding rank_list
shared = refl

rank_list-places_example : IsDescending places × (1 ≡ 1 + above 7000 places)
rank_list-places_example =
    rank_list-places listed exact 7 1 school places (place 32 7000 10000 7000 1) shared
      (inr (inr (inl refl)))
