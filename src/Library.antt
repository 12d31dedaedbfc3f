-- ===== src/Library.antt =====
-- The school library: `apps/api/src/library/library.service.ts`. Copies of a book are lent and come
-- back; the state is the tables Book, BookLoan and StudentProfile.
pub mod Stock
pub mod Lending
mod Tests
use skolara.Prelude.{ℕ, ◌+◌, ◌-◌, String, Bool, ◌&&◌, List, Option, none, some, ltb, ◌==◌, is_none}
use skolara.Prelude.Action.{
  Action, bad_request, conflict, not_found, record_missing, unique_violation, ◌>>=◌, ◌>>◌, pure,
  raise, transaction, only_if,
}
use skolara.Store.{Prisma, Table, find_or, insert_or, update_many, update}

pub record Book : Type 0 where
  pub id : ℕ
  pub school_id : ℕ
  pub title : String
  pub author : String
  pub isbn : Option String
  pub total_copies : ℕ
  pub available_copies : ℕ

pub record BookLoan : Type 0 where
  pub id : ℕ
  pub school_id : ℕ
  pub book_id : ℕ
  pub student_id : ℕ
  pub due_at : ℕ
  pub returned_at : Option ℕ

pub record StudentProfile : Type 0 where
  pub id : ℕ
  pub school_id : ℕ

pub record State : Type 0 where
  pub books : List Book
  pub loans : List BookLoan
  pub students : List StudentProfile

pub record CreateBookInput : Type 0 where
  pub title : String
  pub author : String
  pub isbn : Option String
  pub total_copies : ℕ

pub record BorrowBookInput : Type 0 where
  pub book_id : ℕ
  pub student_id : ℕ
  pub due_at : ℕ

-- The `WHERE` of the claim on a copy, and its `SET`.
abbrev pub is_lendable : ℕ → ℕ → Book → Bool
is_lendable school_id book_id b =
    b.id == book_id && (b.school_id == school_id && ltb 0 b.available_copies)

abbrev pub take_copy : Book → Book
take_copy b = record b { available_copies = b.available_copies - 1 }

abbrev pub give_copy : Book → Book
give_copy b = record b { available_copies = b.available_copies + 1 }

-- `{ id: loanId, schoolId, returnedAt: null }`
abbrev pub is_open_loan : ℕ → ℕ → BookLoan → Bool
is_open_loan school_id loan_id l =
    l.id == loan_id && (l.school_id == school_id && is_none l.returned_at)

abbrev pub close_loan : ℕ → BookLoan → BookLoan
close_loan now l = record l { returned_at = some now }

abbrev pub books_table : Table State Book
books_table = record { get = λ s. s.books; put = λ s rows. record s { books = rows } }

abbrev pub loans_table : Table State BookLoan
loans_table = record { get = λ s. s.loans; put = λ s rows. record s { loans = rows } }

abbrev pub students_table : Table State StudentProfile
students_table = record { get = λ s. s.students; put = λ s rows. record s { students = rows } }

-- The rows that the two `create`s write.
abbrev pub new_book : ℕ → ℕ → CreateBookInput → Book
new_book school_id id input = record {
  id = id;
  school_id = school_id;
  title = input.title;
  author = input.author;
  isbn = input.isbn;
  total_copies = input.total_copies;
  available_copies = input.total_copies;
}

abbrev pub new_loan : ℕ → ℕ → BorrowBookInput → BookLoan
new_loan school_id id input = record {
  id = id;
  school_id = school_id;
  book_id = input.book_id;
  student_id = input.student_id;
  due_at = input.due_at;
  returned_at = none;
}

-- The primary key, as a unique index.
abbrev pub same_book : Book → Book → Bool
same_book x y = y.id == x.id

abbrev pub same_loan : BookLoan → BookLoan → Bool
same_loan x y = y.id == x.id

module _ (db : Prisma) where
  pub create_book : (school_id id : ℕ) → CreateBookInput → Action State Book
  create_book school_id id input =
      insert_or db books_table same_book (new_book school_id id input) unique_violation

  -- The transaction of `borrow`.
  pub lend : (school_id id : ℕ) → BorrowBookInput → Action State BookLoan
  lend school_id id input = transaction (do
    claimed ← update_many db books_table (is_lendable school_id input.book_id) take_copy
    only_if (claimed == 0) (do
      _ ←
          find_or db books_table (λ b. b.id == input.book_id && b.school_id == school_id)
            (not_found "Book not found")
      raise (conflict "No copies available"))
    insert_or db loans_table same_loan (new_loan school_id id input) unique_violation)

  pub borrow : (school_id id : ℕ) → BorrowBookInput → Action State BookLoan
  borrow school_id id input = do
    _ ←
        find_or db students_table (λ p. p.id == input.student_id && p.school_id == school_id)
          (not_found "Student not found")
    lend school_id id input

  pub return_book : (school_id loan_id now : ℕ) → Action State BookLoan
  return_book school_id loan_id now = transaction (do
    claimed ← update_many db loans_table (is_open_loan school_id loan_id) (close_loan now)
    only_if (claimed == 0) (do
      _ ←
          find_or db loans_table (λ l. l.id == loan_id && l.school_id == school_id)
            (not_found "Loan not found")
      raise (bad_request "Already returned"))
    loan ← find_or db loans_table (λ l. l.id == loan_id) record_missing
    update db books_table (λ b. b.id == loan.book_id) give_copy
    pure loan)
