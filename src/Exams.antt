-- ===== src/Exams.antt =====
-- Exams and rank lists: `apps/api/src/exams/exams.service.ts` and the types of
-- `packages/types/src/exams.ts`. The marks of a grade are in hundredths; the sums and the
-- percentage of a student are JavaScript's arithmetic on them, a parameter. A grade is read with
-- the name of its student.
pub mod Ranks
mod Tests
use skolara.Prelude.{
  ℕ, ◌+◌, String, Bool, true, false, ◌&&◌, List, [], ◌∷◌, map, Option, none, some, holds, leb, ltb,
  ◌==◌, if◌then◌else◌,
}
use skolara.Prelude.Action.{Action, ok, not_found, unique_violation, ◌>>=◌}
use skolara.Store.{Prisma, Table, find_or, insert_or}

pub record Exam : Type 0 where
  pub id : ℕ
  pub school_id : ℕ
  pub class_id : ℕ
  pub name : String
  pub term : ℕ
  pub exam_type : ℕ
  pub scheduled_date : ℕ

pub record CreateExamInput : Type 0 where
  pub class_id : ℕ
  pub name : String
  pub term : ℕ
  pub exam_type : ℕ
  pub scheduled_date : ℕ

pub record GradeEntry : Type 0 where
  pub school_id : ℕ
  pub class_id : ℕ
  pub student_id : ℕ
  pub subject : ℕ
  pub term : ℕ
  pub exam_type : ℕ
  pub marks_obtained : ℕ
  pub max_marks : ℕ
  pub first_name : String
  pub last_name : String

pub record State : Type 0 where
  pub exams : List Exam
  pub grades : List GradeEntry

-- The sums of one student.
pub record Totals : Type 0 where
  pub student_id : ℕ
  pub first_name : String
  pub last_name : String
  pub obtained : ℕ
  pub max : ℕ

pub record RankListEntry : Type 0 where
  pub student_id : ℕ
  pub first_name : String
  pub last_name : String
  pub total_marks_obtained : ℕ
  pub total_max_marks : ℕ
  pub percentage : ℕ
  pub rank : ℕ

abbrev pub exams_table : Table State Exam
exams_table = record { get = λ s. s.exams; put = λ s rows. record s { exams = rows } }

abbrev pub of_exam : (school_id : ℕ) → Exam → GradeEntry → Bool
of_exam school_id exam g =
    g.school_id == school_id
    && (g.class_id == exam.class_id && (g.term == exam.term && g.exam_type == exam.exam_type))

-- JavaScript's arithmetic on the numbers that are not negative. They are only compared, so a number
-- stands for its place among them in their order, which begins with zero.
pub record Doubles : Type 0 where
  -- `Number` of a column, in hundredths.
  pub number : ℕ → ℕ
  pub add : ℕ → ℕ → ℕ
  -- `(obtained / max) * 100`
  pub percent : ℕ → ℕ → ℕ

abbrev pub new_totals : GradeEntry → Totals
new_totals g = record {
  student_id = g.student_id;
  first_name = g.first_name;
  last_name = g.last_name;
  obtained = 0;
  max = 0;
}

abbrev pub add_marks : Doubles → GradeEntry → Totals → Totals
add_marks js g t = record t {
  obtained = js.add t.obtained (js.number g.marks_obtained);
  max = js.add t.max (js.number g.max_marks);
}

-- One round of the first loop: the student's sums are taken out, or made, and put back.
unfoldable pub put_marks : Doubles → GradeEntry → List Totals → List Totals
put_marks js g [] = add_marks js g (new_totals g) ∷ []
put_marks js g (t ∷ ts) =
    let rest = put_marks js g ts in
    if t.student_id == g.student_id then add_marks js g t ∷ ts else t ∷ rest

unfoldable pub by_student : Doubles → List GradeEntry → List Totals → List Totals
unfolding put_marks
by_student js [] ts = ts
by_student js (g ∷ gs) ts = by_student js gs (put_marks js g ts)

abbrev pub row_of : Doubles → Totals → RankListEntry
row_of js t = record {
  student_id = t.student_id;
  first_name = t.first_name;
  last_name = t.last_name;
  total_marks_obtained = t.obtained;
  total_max_marks = t.max;
  percentage = if ltb 0 t.max then js.percent t.obtained t.max else 0;
  rank = 0;
}

-- `sort((a, b) => b.percentage - a.percentage)`, which is stable.
unfoldable pub insert_row : RankListEntry → List RankListEntry → List RankListEntry
insert_row x [] = x ∷ []
insert_row x (y ∷ ys) =
    let rest = insert_row x ys in if leb y.percentage x.percentage then x ∷ y ∷ ys else y ∷ rest

unfoldable pub sort_rows : List RankListEntry → List RankListEntry
unfolding insert_row
sort_rows [] = []
sort_rows (x ∷ xs) = insert_row x (sort_rows xs)

-- The second loop: the index, and the variables `rank` and `lastPercentage`.
unfoldable pub give_ranks : (index rank : ℕ) → Option ℕ → List RankListEntry → List RankListEntry
give_ranks index rank last [] = []
give_ranks index rank last (row ∷ rows) =
    let next = if holds last row.percentage then rank else index + 1 in
    record row { rank = next } ∷ give_ranks (index + 1) next (some row.percentage) rows

module _ (db : Prisma) where
  unfoldable pub create : (school_id id : ℕ) → CreateExamInput → Action State Exam
  create school_id id input =
      insert_or db exams_table (λ x y. y.id == x.id)
        (record {
          id = id;
          school_id = school_id;
          class_id = input.class_id;
          name = input.name;
          term = input.term;
          exam_type = input.exam_type;
          scheduled_date = input.scheduled_date;
        })
        unique_violation

  -- The list for the grades that the query answers.
  abbrev pub ranked : Doubles → (school_id : ℕ) → Exam → Action State (List RankListEntry)
  ranked js school_id exam s =
      let entries = db.find_many (of_exam school_id exam) (λ g. 0) s.grades in
      (ok (give_ranks 0 0 none (sort_rows (map (row_of js) (by_student js entries [])))), s)

  unfoldable pub rank_list : Doubles → (school_id exam_id : ℕ) → Action State (List RankListEntry)
  unfolding by_student sort_rows give_ranks
  rank_list js school_id exam_id = do
    exam ←
        find_or db exams_table (λ e. e.id == exam_id && e.school_id == school_id)
          (not_found "Exam not found")
    ranked js school_id exam
