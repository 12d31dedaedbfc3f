-- ===== src/CsvWriter/Tests.antt =====
-- Runs of the CSV writer, and the theorem about it at a concrete input.
use skolara.Prelude.{◌≡◌, refl, some, none, Option, [], ◌∷◌, false, List, map, All}
use skolara.BankStatement.Csv.{Text, split_csv_row}
use skolara.CsvWriter.{csv_line, to_csv, shown, is_formula, split_csv_row-csv_line}

-- `=1,"2"`, and a null.
abbrev cells : List (Option Text)
cells = some (b'=' ∷ b'1' ∷ b',' ∷ b'"' ∷ b'2' ∷ b'"' ∷ []) ∷ none ∷ []

-- `"'=1,""2""",`
written :
    csv_line cells
    ≡ b'"' ∷ 39 ∷ b'=' ∷ b'1' ∷ b',' ∷ b'"' ∷ b'"' ∷ b'2' ∷ b'"' ∷ b'"' ∷ b'"' ∷ b',' ∷ []
unfolding csv_line
written = refl

table :
    to_csv ((b'a' ∷ []) ∷ []) ((some (b'1' ∷ []) ∷ []) ∷ []) ≡ b'a' ∷ 13 ∷ 10 ∷ b'1' ∷ 13 ∷ 10 ∷ []
unfolding to_csv
table = refl

split_csv_row-csv_line_example :
    (split_csv_row (csv_line cells) ≡ map shown cells)
    × All (λ text. is_formula text ≡ false) (map shown cells)
split_csv_row-csv_line_example =
    split_csv_row-csv_line (some (b'=' ∷ b'1' ∷ b',' ∷ b'"' ∷ b'2' ∷ b'"' ∷ [])) (none ∷ [])
