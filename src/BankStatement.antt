-- ===== src/BankStatement.antt =====
-- Bank statements: `apps/api/src/bank-statement/bank-statement.service.ts`. Text is the list of
-- its UTF-16 code units. `new Date(text)` and `Number(text)` are parameters, `none` standing for
-- an invalid date and for a number that is not finite; amounts are only compared, so they are
-- numbers.
pub mod Csv
pub mod Importer
pub mod Matching
mod Tests
