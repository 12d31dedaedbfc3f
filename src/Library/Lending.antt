-- ===== src/Library/Lending.antt =====
-- Borrowing and giving back: `borrow` and `returnBook` of the library service.
use skolara.Prelude.{
  ℕ, ◌≡◌, refl, ap, ◌∙◌, inl, inr, Bool, true, false, ◌&&◌, List, [], ◌∷◌, arith, ◌==◌, any,
  update_by, In, All, Option-cases, count_pos_of_In, All-of_In, any_of_In,
}
use skolara.Prelude.Action.{Exception, ok, err}
use skolara.Store.{Prisma, Unique, found_row, find_some, eq_of_key, In-into-update_by}
use skolara.Library.{
  State, Book, BookLoan, StudentProfile, BorrowBookInput, is_lendable, take_copy, give_copy,
  same_loan, new_loan, is_open_loan, close_loan, lend, borrow, return_book,
}

-- What a loan leaves behind it.
abbrev pub lent : ℕ → ℕ → BorrowBookInput → State → State
lent school_id id input s = record s {
  books = update_by (is_lendable school_id input.book_id) take_copy s.books;
  loans = new_loan school_id id input ∷ s.loans;
}

abbrev pub is_student : ℕ → BorrowBookInput → StudentProfile → Bool
is_student school_id input p = p.id == input.student_id && p.school_id == school_id

no_clash_of_fresh :
    (l : BookLoan) (rows : List BookLoan)
    → any (λ x. x.id == l.id) rows ≡ false
    → any (same_loan l) rows ≡ false
no_clash_of_fresh l [] h = refl
no_clash_of_fresh l (x ∷ rows) h = ground (arith, no_clash_of_fresh l rows)

module _ (db : Prisma) where
  -- For a student of the school, a book that is lendable and an unused loan id, a borrowing goes
  -- through: it answers the new loan and adds it, and the copy is taken off the book.
  pub borrow_lends :
      (school_id id : ℕ) (input : BorrowBookInput) (s : State) (b : Book)
      → any (is_student school_id input) s.students ≡ true
      → In b s.books
      → is_lendable school_id input.book_id b ≡ true
      → any (λ l. l.id == id) s.loans ≡ false
      → (borrow db school_id id input s
          ≡ (ok (new_loan school_id id input), lent school_id id input s))
        × In (take_copy b) (lent school_id id input s).books
  unfolding borrow lend
  borrow_lends school_id id input s b p m l f =
      let lends = is_lendable school_id input.book_id in
      let (student, e) = find_some db (is_student school_id input) s.students p in
      ground (
        arith,
        e,
        db.update_many_lem lends take_copy s.books,
        count_pos_of_In lends s.books b m,
        db.create_lem same_loan (new_loan school_id id input) s.loans,
        no_clash_of_fresh (new_loan school_id id input) s.loans,
        In-into-update_by lends take_copy s.books b m,
      )

  -- A borrowing that throws, whatever it throws, leaves the state as it was.
  pub borrow_refused :
      (school_id id : ℕ) (input : BorrowBookInput) (s t : State) (e : Exception)
      → borrow db school_id id input s ≡ (err e, t)
      → t ≡ s
  unfolding borrow lend
  borrow_refused school_id id input s t e h =
      elim (Option-cases (db.find_first (is_student school_id input) s.students)) [
        | inl q ↦ ground (arith, q, h)
        | inr (p, q) ↦ ground (
          arith,
          q,
          h,
          db.update_many_lem (is_lendable school_id input.book_id) take_copy s.books,
        )
      ]

taken_and_given :
    (school_id book_id : ℕ) (books : List Book)
    → All (λ b. b.id ≡ book_id → is_lendable school_id book_id b ≡ true) books
    → update_by
        (λ b. b.id == book_id)
        give_copy
        (update_by (is_lendable school_id book_id) take_copy books)
      ≡ books
taken_and_given school_id book_id [] h = refl
taken_and_given school_id book_id (b ∷ books) h =
    ground (arith, h.0, taken_and_given school_id book_id books h.1)

-- Where the lendable book is the only one with its id.
only_lendable :
    (school_id book_id : ℕ) (books : List Book) (b : Book)
    → Unique Book.id books
    → In b books
    → is_lendable school_id book_id b ≡ true
    → All (λ x. x.id ≡ book_id → is_lendable school_id book_id x ≡ true) books
only_lendable school_id book_id books b u m l =
    All-of_In _ books λ x n e. ground (arith, eq_of_key Book.id books x b u n m, l, e)

closed_with_id :
    (school_id id now : ℕ) (rows : List BookLoan)
    → any (λ l. l.id == id) rows ≡ false
    → any (λ l. l.id == id) (update_by (is_open_loan school_id id) (close_loan now) rows) ≡ false
closed_with_id school_id id now [] h = refl
closed_with_id school_id id now (x ∷ rows) h = ground (arith, closed_with_id school_id id now rows)

module _ (db : Prisma) where
  return_after_lent :
      (school_id id now : ℕ) (input : BorrowBookInput) (s : State) (b : Book)
      → Unique Book.id s.books
      → In b s.books
      → is_lendable school_id input.book_id b ≡ true
      → any (λ l. l.id == id) s.loans ≡ false
      → (return_book db school_id id now (lent school_id id input s)).1.books ≡ s.books
  unfolding return_book
  return_after_lent school_id id now input s b u m l f =
      let t = lent school_id id input s in
      let closes = is_open_loan school_id id in
      let has_id = λ (x : BookLoan). x.id == id in
      let rows = update_by closes (close_loan now) s.loans in
      let row = close_loan now (new_loan school_id id input) in
      let (x, e) = find_some db has_id (row ∷ rows) (ground arith) in
      let (n, q) = found_row db has_id (row ∷ rows) e in
      let is_new : x ≡ row = elim n [
        | inl r ↦ ground (arith, r)
        | inr r ↦
            absurd (
              ground
                (arith, any_of_In has_id rows x r q, closed_with_id school_id id now s.loans f))
      ] in
      ground (
        arith,
        e,
        is_new,
        db.update_many_lem closes (close_loan now) t.loans,
        db.update_many_lem (λ b. b.id == input.book_id) give_copy t.books,
        taken_and_given school_id input.book_id s.books
            (only_lendable school_id input.book_id s.books b u m l),
        In-into-update_by (is_lendable school_id input.book_id) take_copy s.books b m,
        count_pos_of_In (λ b. b.id == input.book_id) t.books (take_copy b),
      )

  -- For a student of the school, a book that is lendable and the only one with its id, and an
  -- unused loan id: giving back what was borrowed leaves the books as they were before.
  pub return_book-borrow :
      (school_id id now : ℕ) (input : BorrowBookInput) (s : State) (b : Book)
      → any (is_student school_id input) s.students ≡ true
      → Unique Book.id s.books
      → In b s.books
      → is_lendable school_id input.book_id b ≡ true
      → any (λ l. l.id == id) s.loans ≡ false
      → (return_book db school_id id now (borrow db school_id id input s).1).1.books ≡ s.books
  return_book-borrow school_id id now input s b p u m l f =
      ap (λ r. (return_book db school_id id now r.1).1.books)
        (borrow_lends db school_id id input s b p m l f).0
      ∙ return_after_lent school_id id now input s b u m l f
