-- ===== src/CsvWriter.antt =====
-- Exports as CSV: `apps/api/src/reports/csv.ts`, against the reader of bank statements. A text is
-- the list of its characters; the text of a number is what `String` makes of it.
mod Tests
use mathlib.Core.List.{append-nil, append_assoc}
use skolara.Prelude.{
  ℕ, ◌≡◌, refl, sym, ap, ◌∙◌, Bool, true, false, not, ◌&&◌, ◌||◌, List, [], ◌∷◌, ◌++◌, map, Option,
  none, some, arith, ◌==◌, any, All, if◌then◌else◌, Bool-cases, inl, inr,
}
use skolara.BankStatement.Csv.{
  Text, quote, comma, escape, joined, scan, split_csv_row, Ends, IsBare, outside, inside,
  scan-escape, scan-bare,
}

-- The class `[=+\-@]`.
abbrev pub is_formula_sign : ℕ → Bool
is_formula_sign c = c == b'=' || (c == b'+' || (c == b'-' || c == b'@'))

abbrev pub is_formula : Text → Bool
is_formula [] = false
is_formula (c ∷ text) = is_formula_sign c

abbrev pub apostrophe : ℕ
apostrophe = 39

abbrev pub formula_safe : Text → Text
formula_safe text = if is_formula text then apostrophe ∷ text else text

-- The class `[",\r\n]`.
abbrev pub is_special : ℕ → Bool
is_special c = c == quote || (c == comma || (c == 13 || c == 10))

abbrev pub quote_if_special : Text → Text
quote_if_special text = if any is_special text then quote ∷ escape text ++ quote ∷ [] else text

-- A cell, which may be null.
unfoldable pub escape_cell : Option Text → Text
escape_cell none = []
escape_cell (some text) = quote_if_special (formula_safe text)

-- `row.map(escapeCell).join(",")`
unfoldable pub csv_line : List (Option Text) → Text
unfolding escape_cell
csv_line [] = []
csv_line (cell ∷ cells) = joined (escape_cell cell) (map escape_cell cells)

abbrev pub crlf : Text
crlf = 13 ∷ 10 ∷ []

unfoldable pub csv_lines : List (List (Option Text)) → Text
unfolding csv_line
csv_lines [] = []
csv_lines (row ∷ rows) = csv_line row ++ crlf ++ csv_lines rows

unfoldable pub to_csv : List Text → List (List (Option Text)) → Text
unfolding csv_lines
to_csv headers rows = csv_lines (map some headers ∷ rows)

-- What a spreadsheet is to show for a cell.
abbrev pub shown : Option Text → Text
shown none = []
shown (some text) = formula_safe text

bare : (text : Text) → any is_special text ≡ false → IsBare text
bare [] h = tt
bare (c ∷ text) h = (ground (arith, h), ground (arith, h), bare text (ground (arith, h)))

scan-quote :
    (text rest : Text)
    → Ends rest
    → scan outside [] (quote ∷ escape text ++ quote ∷ rest) ≡ scan outside text rest
unfolding scan
scan-quote text rest h = scan-escape [] text rest h

scan-cell :
    (cell : Option Text) (rest : Text)
    → Ends rest
    → scan outside [] (escape_cell cell ++ rest) ≡ scan outside (shown cell) rest
unfolding escape_cell
scan-cell none rest h = refl
scan-cell (some text) rest h = elim (Bool-cases (any is_special (formula_safe text))) [
  | inl e ↦
      rw (e, append_assoc (escape (formula_safe text)) (quote ∷ []) rest)
        (scan-quote (formula_safe text) rest h)
  | inr e ↦ rw e (scan-bare [] (formula_safe text) rest (bare (formula_safe text) e))
]

scan-cells :
    (cell : Option Text) (cells : List (Option Text))
    → scan outside [] (joined (escape_cell cell) (map escape_cell cells)) ≡ map shown (cell ∷ cells)
unfolding scan
scan-cells cell [] =
    ap (λ t. scan outside [] t) (sym (append-nil (escape_cell cell))) ∙ scan-cell cell [] tt
scan-cells cell (next ∷ cells) =
    scan-cell cell (comma ∷ joined (escape_cell next) (map escape_cell cells)) refl
    ∙ ap (λ r. shown cell ∷ r) (scan-cells next cells)

no_formula : (cells : List (Option Text)) → All (λ text. is_formula text ≡ false) (map shown cells)
no_formula [] = tt
no_formula (none ∷ cells) = (refl, no_formula cells)
no_formula (some [] ∷ cells) = (refl, no_formula cells)
no_formula (some (c ∷ text) ∷ cells) = (ground arith, no_formula cells)

-- Splitting a row that the CSV export wrote, as the reader of bank statements splits it, gives
-- its cells back, whatever commas, quotes and line breaks they hold: the empty text for null, and
-- for a text that begins like a formula the text after an apostrophe, so that no cell begins like
-- a formula.
pub split_csv_row-csv_line :
    (cell : Option Text) (cells : List (Option Text))
    → (split_csv_row (csv_line (cell ∷ cells)) ≡ map shown (cell ∷ cells))
      × All (λ text. is_formula text ≡ false) (map shown (cell ∷ cells))
unfolding split_csv_row csv_line
split_csv_row-csv_line cell cells = (scan-cells cell cells, no_formula (cell ∷ cells))
