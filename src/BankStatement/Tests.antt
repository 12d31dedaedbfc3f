-- ===== src/BankStatement/Tests.antt =====
-- The theorems about the CSV reader and the importer at concrete inputs.
use skolara.Prelude.{
  ℕ, ◌+◌, ◌≡◌, ◌&&◌, leb, if◌then◌else◌, Option, none, some, List, [], ◌∷◌, length, min,
}
use skolara.BankStatement.Csv.{Text, quote, comma}
use skolara.BankStatement.Importer.{import_statement}
use skolara.BankStatement.Importer.Accounting.{content_rows, header_rows, import_statement_accounts}

-- `1,000`, and a text with a quote in it.
abbrev thousand : Text
thousand = b'1' ∷ comma ∷ b'0' ∷ b'0' ∷ b'0' ∷ []

abbrev quip : Text
quip = b'a' ∷ quote ∷ b'b' ∷ []

-- A reader of dates and numbers that takes one digit.
abbrev one_digit : Text → Option ℕ
one_digit (c ∷ []) = if leb b'0' c && leb c b'9' then some c else none
one_digit _ = none

-- A header, a line, a blank row and a row with one field.
abbrev statement : List Text
statement =
    (b'd' ∷ comma ∷ b'a' ∷ [])
    ∷ (b'1' ∷ comma ∷ b'5' ∷ comma ∷ b'x' ∷ [])
    ∷ (b' ' ∷ [])
    ∷ (b'z' ∷ [])
    ∷ []

import_statement_accounts_example :
    let r = import_statement one_digit one_digit statement in
    (length r.lines + r.skipped + header_rows one_digit one_digit statement
      ≡ content_rows statement)
    × (length r.rejections ≡ min r.skipped 50)
import_statement_accounts_example = import_statement_accounts one_digit one_digit statement
