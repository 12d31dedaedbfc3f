-- ===== src/Library/Stock.antt =====
-- The copies of a book: `createBook`, `borrow` and `returnBook` of the library service.
use skolara.Prelude.{
  ℕ, ◌+◌, ◌≡◌, refl, Bool, true, false, ◌&&◌, List, ◌∷◌, none, arith, ◌==◌, is_none, inl, inr, ap,
  ◌∙◌, ==→eq, [], any, any_of_In, if◌then◌else◌, count_by, All, In, All-map, All-update_by,
  In-of_count, update_by, Bool-cases, Option-cases,
}
use skolara.Store.{
  Prisma, found_row, Unique, Unique-update_by, any-map, any-update_by_key, keyed, eq_of_key,
  sum-update_by, In-update_by,
}
use skolara.Library.{
  is_lendable, take_copy, give_copy, is_open_loan, close_loan, same_book, same_loan, new_book,
  new_loan, State, Book, BookLoan, lend, borrow, return_book, create_book, CreateBookInput,
  BorrowBookInput,
}

-- The loan is one of the book that has not come back.
abbrev pub is_out : ℕ → BookLoan → Bool
is_out book_id l = l.book_id == book_id && is_none l.returned_at

-- The copies of a book add up.
abbrev pub AddsUp : List BookLoan → Book → Type 0
AddsUp loans b = b.available_copies + count_by (is_out b.id) loans ≡ b.total_copies

-- The foreign key: the book of a loan exists.
abbrev pub Refers : List Book → BookLoan → Type 0
Refers books l = any (keyed Book.id l.book_id) books ≡ true

pub record IsBalanced (s : State) : Type 0 where
  pub book_ids : Unique Book.id s.books
  pub loan_ids : Unique BookLoan.id s.loans
  pub refers : All (Refers s.books) s.loans
  pub adds_up : All (AddsUp s.loans) s.books

-- A claimed copy and the loan that it goes to keep the books adding up.
lent-AddsUp :
    (school_id book_id : ℕ) (l : BookLoan) (s : State)
    → IsBalanced s
    → l.book_id ≡ book_id
    → l.returned_at ≡ none
    → (count_by (is_lendable school_id book_id) s.books == 0) ≡ false
    → All (AddsUp (l ∷ s.loans)) (update_by (is_lendable school_id book_id) take_copy s.books)
lent-AddsUp school_id book_id l s v e o c =
    let (a, m, q) = In-of_count (is_lendable school_id book_id) s.books c in
    All-update_by (AddsUp s.loans) (AddsUp (l ∷ s.loans)) _ take_copy s.books
      (λ x n h. ground (arith, eq_of_key Book.id s.books x a v.book_ids n m)) v.adds_up

-- The book of a claimed copy exists, also after the claim.
lent-Refers :
    (school_id book_id : ℕ) (s : State)
    → (count_by (is_lendable school_id book_id) s.books == 0) ≡ false
    → any (keyed Book.id book_id) (update_by (is_lendable school_id book_id) take_copy s.books)
      ≡ true
lent-Refers school_id book_id s c =
    let lends = is_lendable school_id book_id in
    let (a, m, q) = In-of_count lends s.books c in
    any-update_by_key Book.id book_id lends take_copy s.books (λ b. refl)
    ∙ any_of_In (keyed Book.id book_id) s.books a m (ground arith)

-- The copy of a loan that is closed goes back to its book.
closed-AddsUp :
    (school_id loan_id now book_id : ℕ) (a : BookLoan) (s : State)
    → IsBalanced s
    → In a s.loans
    → is_open_loan school_id loan_id a ≡ true
    → book_id ≡ a.book_id
    → All
        (AddsUp (update_by (is_open_loan school_id loan_id) (close_loan now) s.loans))
        (update_by (λ b. b.id == book_id) give_copy s.books)
closed-AddsUp school_id loan_id now book_id a s v m o e =
    let closes = is_open_loan school_id loan_id in
    All-update_by (AddsUp s.loans) (AddsUp (update_by closes (close_loan now) s.loans)) _ give_copy
      s.books
      (λ x n h. ground (
        arith,
        sum-update_by BookLoan.id (λ l. if is_out x.id l then 1 else 0) closes (close_loan now)
            s.loans a (λ y q. ground arith) v.loan_ids m,
      ))
      v.adds_up

-- The loan that is read back after the claim is the one claimed.
reread_loan :
    (school_id loan_id now : ℕ) (a l : BookLoan) (loans : List BookLoan)
    → Unique BookLoan.id loans
    → In a loans
    → is_open_loan school_id loan_id a ≡ true
    → In l (update_by (is_open_loan school_id loan_id) (close_loan now) loans)
    → (l.id == loan_id) ≡ true
    → l.book_id ≡ a.book_id
reread_loan school_id loan_id now a l loans u m o n e =
    let (b, k, q) = In-update_by (is_open_loan school_id loan_id) (close_loan now) loans l n in
    ground (arith, eq_of_key BookLoan.id loans b a u k m)

-- No loan is of a book that does not exist yet.
out-of-new-book :
    (id : ℕ) (books : List Book) (loans : List BookLoan)
    → any (keyed Book.id id) books ≡ false
    → All (Refers books) loans
    → count_by (is_out id) loans ≡ 0
out-of-new-book id books [] e r = refl
out-of-new-book id books (l ∷ loans) e r = elim (Bool-cases (l.book_id == id)) [
  | inl t ↦ cc (==→eq l.book_id id t, ap (λ n. any (keyed Book.id n) books) (==→eq l.book_id id t))
  | inr t ↦ ground (arith, out-of-new-book id books loans e r.1)
]

-- The foreign key outlives a change of the books that keeps their ids.
Refers-update_by :
    (p : Book → Bool) (f : Book → Book) (books : List Book) (loans : List BookLoan)
    → ((b : Book) → (f b).id ≡ b.id)
    → All (Refers books) loans
    → All (Refers (update_by p f books)) loans
Refers-update_by p f books loans h =
    All-map _ _ loans (λ l r. any-update_by_key Book.id l.book_id p f books h ∙ r)

module _ (db : Prisma) where
  pub create_book-IsBalanced :
      (school_id id : ℕ) (input : CreateBookInput) (s : State)
      → IsBalanced s
      → IsBalanced (create_book db school_id id input s).1
  unfolding create_book
  create_book-IsBalanced school_id id input s v = ground (
    arith,
    out-of-new-book id s.books s.loans,
    All-map (Refers s.books) (Refers (new_book school_id id input ∷ s.books)) s.loans
        (λ l r. ground (arith, r)),
    db.create_lem same_book (new_book school_id id input) s.books,
    any-map Book.id id s.books,
  )

  -- The transaction that lends a copy leaves the stock balanced where it was, whether or not a
  -- copy is left: every book's available copies and its open loans add up to its total, every
  -- loan's book exists, and the ids are unique.
  pub lend-IsBalanced :
      (school_id id : ℕ) (input : BorrowBookInput) (s : State)
      → IsBalanced s
      → IsBalanced (lend db school_id id input s).1
  unfolding lend
  lend-IsBalanced school_id id input s v = ground (
    arith,
    db.update_many_lem (is_lendable school_id input.book_id) take_copy s.books,
    db.create_lem same_loan (new_loan school_id id input) s.loans,
    lent-AddsUp school_id input.book_id (new_loan school_id id input) s v,
    Unique-update_by Book.id (is_lendable school_id input.book_id) take_copy s.books (λ x. refl),
    any-map BookLoan.id id s.loans,
    Refers-update_by (is_lendable school_id input.book_id) take_copy s.books s.loans (λ b. refl),
    lent-Refers school_id input.book_id s,
  )

  pub borrow-IsBalanced :
      (school_id id : ℕ) (input : BorrowBookInput) (s : State)
      → IsBalanced s
      → IsBalanced (borrow db school_id id input s).1
  unfolding borrow
  borrow-IsBalanced school_id id input s v = ground (arith, lend-IsBalanced school_id id input s v)

  returned-IsBalanced :
      (school_id loan_id now : ℕ) (s : State) (l : BookLoan)
      → IsBalanced s
      → (count_by (is_open_loan school_id loan_id) s.loans == 0) ≡ false
      → In l (update_by (is_open_loan school_id loan_id) (close_loan now) s.loans)
      → (l.id == loan_id) ≡ true
      → IsBalanced (record s {
        loans = update_by (is_open_loan school_id loan_id) (close_loan now) s.loans;
        books = update_by (λ b. b.id == l.book_id) give_copy s.books;
      })
  returned-IsBalanced school_id loan_id now s l v c m e =
      let (a, n, o) = In-of_count (is_open_loan school_id loan_id) s.loans c in
      record {
        book_ids = Unique-update_by Book.id _ give_copy s.books (λ x. refl) v.book_ids;
        loan_ids = Unique-update_by BookLoan.id _ (close_loan now) s.loans (λ x. refl) v.loan_ids;
        refers =
            Refers-update_by _ give_copy s.books _ (λ b. refl)
              (All-update_by (Refers s.books) (Refers s.books) _ (close_loan now) s.loans
                (λ l k r. ground arith) v.refers);
        adds_up =
            closed-AddsUp school_id loan_id now l.book_id a s v n o
              (reread_loan school_id loan_id now a l s.loans v.loan_ids n o m e);
      }

  -- A return leaves the stock balanced where it was, also when the loan is closed already: every
  -- book's available copies and its open loans add up to its total, every loan's book exists, and
  -- the ids are unique.
  pub return_book-IsBalanced :
      (school_id loan_id now : ℕ) (s : State)
      → IsBalanced s
      → IsBalanced (return_book db school_id loan_id now s).1
  unfolding return_book
  return_book-IsBalanced school_id loan_id now s v =
      let closes = is_open_loan school_id loan_id in
      let has_id = λ (l : BookLoan). l.id == loan_id in
      let loans = update_by closes (close_loan now) s.loans in
      elim (Option-cases (db.find_first has_id loans)) [
        | inl e ↦ ground (arith, e, db.update_many_lem closes (close_loan now) s.loans)
        | inr (l, e) ↦
            let (m, q) = found_row db has_id loans e in
            ground (
              arith,
              e,
              db.update_many_lem closes (close_loan now) s.loans,
              db.update_many_lem (λ b. b.id == l.book_id) give_copy s.books,
              returned-IsBalanced school_id loan_id now s l v,
              m,
              q,
            )
      ]

-- A request to the service.
pub data Request : Type 0 where
  create_book_request : (school_id id : ℕ) → CreateBookInput → Request
  borrow_request : (school_id id : ℕ) → BorrowBookInput → Request
  return_request : (school_id loan_id now : ℕ) → Request

-- What the service leaves behind it.
pub serve : Prisma → Request → State → State
serve db (create_book_request school_id id input) s = (create_book db school_id id input s).1
serve db (borrow_request school_id id input) s = (borrow db school_id id input s).1
serve db (return_request school_id loan_id now) s = (return_book db school_id loan_id now s).1

-- Every request to the library service, refused or not, leaves the stock balanced where it was:
-- every book's available copies and its open loans add up to its total, every loan's book exists,
-- and the ids are unique.
pub serve-IsBalanced :
    (db : Prisma) (q : Request) (s : State) → IsBalanced s → IsBalanced (serve db q s)
unfolding serve
serve-IsBalanced db (create_book_request school_id id input) s v =
    create_book-IsBalanced db school_id id input s v
serve-IsBalanced db (borrow_request school_id id input) s v =
    borrow-IsBalanced db school_id id input s v
serve-IsBalanced db (return_request school_id loan_id now) s v =
    return_book-IsBalanced db school_id loan_id now s v
