-- ===== src/Library/Tests.antt =====
-- Runs of the library service, and the theorems about it at concrete inputs.
use skolara.Prelude.{inl, ◌≡◌, refl, none, [], ◌∷◌}
use skolara.Prelude.Action.{not_found, err, conflict, bad_request}
use skolara.Store.{listed}
use skolara.Library.{Book, BookLoan, State, BorrowBookInput, lend, borrow, return_book}
use skolara.Library.Stock.{IsBalanced, serve, borrow_request, serve-IsBalanced}
use skolara.Library.Lending.{return_book-borrow}

abbrev atlas : Book
atlas = record {
  id = 1;
  school_id = 7;
  title = "Atlas";
  author = "A. Khan";
  isbn = none;
  total_copies = 2;
  available_copies = 1;
}

abbrev first_loan : BookLoan
first_loan = record {
  id = 10;
  school_id = 7;
  book_id = 1;
  student_id = 3;
  due_at = 100;
  returned_at = none;
}

abbrev shelf : State
shelf = record {
  books = atlas ∷ [];
  loans = first_loan ∷ [];
  students = record { id = 4; school_id = 7 } ∷ [];
}

abbrev wanted : BorrowBookInput
wanted = record { book_id = 1; student_id = 4; due_at = 200 }

shelf-IsBalanced : IsBalanced shelf
shelf-IsBalanced = record {
  book_ids = (refl, tt);
  loan_ids = (refl, tt);
  refers = (refl, tt);
  adds_up = (refl, tt);
}

abbrev unknown_book : BorrowBookInput
unknown_book = record wanted { book_id = 2 }

unknown_borrow :
    borrow listed 7 11 unknown_book shelf
    ≡ (err (not_found "Book not found"), (borrow listed 7 11 unknown_book shelf).1)
unfolding borrow lend
unknown_borrow = refl

-- The last copy goes to the first who asks.
second_borrow :
    (borrow listed 7 12 wanted (borrow listed 7 11 wanted shelf).1).0
    ≡ err (conflict "No copies available")
unfolding borrow lend
second_borrow = refl

second_return :
    (return_book listed 7 10 60 (return_book listed 7 10 50 shelf).1).0
    ≡ err (bad_request "Already returned")
unfolding return_book
second_return = refl

serve-IsBalanced_example : IsBalanced (serve listed (borrow_request 7 11 wanted) shelf)
serve-IsBalanced_example =
    serve-IsBalanced listed (borrow_request 7 11 wanted) shelf shelf-IsBalanced

return_book-borrow_example :
    (return_book listed 7 11 50 (borrow listed 7 11 wanted shelf).1).1.books ≡ shelf.books
return_book-borrow_example =
    return_book-borrow listed 7 11 50 wanted shelf atlas refl (refl, tt) (inl refl) refl refl
