-- ===== src/Store/Listed.antt =====
-- A client that meets the laws: its queries read the list from the front.
use skolara.Prelude.{
  In, ◌⊎◌, ◌+◌, sum_by, ℕ, ◌≡◌, refl, Bool, false, true, not, List, [], ◌∷◌, Option, none, some,
  if◌then◌else◌, any, filter_by, count_by, update_by, All, inl, inr, arith, leb, leb→le, Bool-cases,
  All-map,
}
use skolara.Store.Client.{Prisma, Finds, IsTop, IsAscending}

module _ {R : Type 0} where
  abbrev first : (R → Bool) → List R → Option R
  first p [] = none
  first p (x ∷ xs) = if p x then some x else first p xs

  Finds-skip :
      (p : R → Bool) (x : R) (xs : List R) (o : Option R)
      → p x ≡ false
      → Finds p xs o
      → Finds p (x ∷ xs) o
  Finds-skip p x xs none e h = (e, h)
  Finds-skip p x xs (some r) e h = (inr h.0, h.1)

  pub first-Finds : (p : R → Bool) (rows : List R) → Finds p rows (first p rows)
  first-Finds p [] = tt
  first-Finds p (x ∷ xs) = elim (Bool-cases (p x)) [
    | inl e ↦ rw e (inl refl, e)
    | inr e ↦ rw e (Finds-skip p x xs (first p xs) e (first-Finds p xs))
  ]

  -- The greater of a row and the best of the rest.
  abbrev better : (R → ℕ) → R → Option R → Option R
  better key x none = some x
  better key x (some r) = if leb (key r) (key x) then some x else some r

  abbrev top : (R → Bool) → (R → ℕ) → List R → Option R
  top p key [] = none
  top p key (x ∷ xs) = let best = top p key xs in if p x then better key x best else best

  better-Finds :
      (p : R → Bool) (key : R → ℕ) (x : R) (xs : List R) (o : Option R)
      → p x ≡ true
      → Finds p xs o
      → Finds p (x ∷ xs) (better key x o)
  better-Finds p key x xs none e h = (inl refl, e)
  better-Finds p key x xs (some r) e h = elim (Bool-cases (leb (key r) (key x))) [
    | inl t ↦ rw t (inl refl, e)
    | inr t ↦ rw t (inr h.0, h.1)
  ]

  pub top-Finds : (p : R → Bool) (key : R → ℕ) (rows : List R) → Finds p rows (top p key rows)
  top-Finds p key [] = tt
  top-Finds p key (x ∷ xs) = elim (Bool-cases (p x)) [
    | inl e ↦ rw e (better-Finds p key x xs (top p key xs) e (top-Finds p key xs))
    | inr e ↦ rw e (Finds-skip p x xs (top p key xs) e (top-Finds p key xs))
  ]

  better-IsTop :
      (p : R → Bool) (key : R → ℕ) (x : R) (xs : List R) (o : Option R)
      → Finds p xs o
      → IsTop p key xs o
      → IsTop p key (x ∷ xs) (better key x o)
  better-IsTop p key x xs none f h = (λ e. omega arith, All-map _ _ xs (λ y e t. cc) f)
  better-IsTop p key x xs (some r) f h = elim (Bool-cases (leb (key r) (key x))) [
    | inl t ↦ rw t (λ e. omega arith, All-map _ _ xs (λ y g e. ground (arith, g e)) h)
    | inr t ↦ rw t (λ e. ground arith, h)
  ]

  IsTop-skip :
      (p : R → Bool) (key : R → ℕ) (x : R) (xs : List R) (o : Option R)
      → p x ≡ false
      → IsTop p key xs o
      → IsTop p key (x ∷ xs) o
  IsTop-skip p key x xs none e h = tt
  IsTop-skip p key x xs (some r) e h = (λ t. cc, h)

  pub top-IsTop : (p : R → Bool) (key : R → ℕ) (rows : List R) → IsTop p key rows (top p key rows)
  top-IsTop p key [] = tt
  top-IsTop p key (x ∷ xs) = elim (Bool-cases (p x)) [
    | inl e ↦
        rw e (better-IsTop p key x xs (top p key xs) (top-Finds p key xs) (top-IsTop p key xs))
    | inr e ↦ rw e (IsTop-skip p key x xs (top p key xs) e (top-IsTop p key xs))
  ]

  abbrev insert : (R → ℕ) → R → List R → List R
  insert key x [] = x ∷ []
  insert key x (y ∷ ys) =
      let rest = insert key x ys in if leb (key x) (key y) then x ∷ y ∷ ys else y ∷ rest

  abbrev sort : (R → ℕ) → List R → List R
  sort key [] = []
  sort key (x ∷ xs) = insert key x (sort key xs)

  sum-insert :
      (key : R → ℕ) (w : R → ℕ) (x : R) (xs : List R)
      → sum_by w (insert key x xs) ≡ w x + sum_by w xs
  sum-insert key w x [] = refl
  sum-insert key w x (y ∷ ys) = ground (arith, sum-insert key w x ys)

  pub sum-sort :
      (p : R → Bool) (key : R → ℕ) (w : R → ℕ) (xs : List R)
      → sum_by w (sort key (filter_by p xs)) ≡ sum_by (λ r. if p r then w r else 0) xs
  sum-sort p key w [] = refl
  sum-sort p key w (x ∷ xs) =
      ground (arith, sum-insert key w x (sort key (filter_by p xs)), sum-sort p key w xs)

  All-insert :
      (P : R → Type 0) (key : R → ℕ) (x : R) (xs : List R)
      → P x
      → All P xs
      → All P (insert key x xs)
  All-insert P key x [] h a = (h, tt)
  All-insert P key x (y ∷ ys) h a = elim (Bool-cases (leb (key x) (key y))) [
    | inl e ↦ rw e (h, a)
    | inr e ↦ rw e (a.0, All-insert P key x ys h a.1)
  ]

  insert-IsAscending :
      (key : R → ℕ) (x : R) (xs : List R) → IsAscending key xs → IsAscending key (insert key x xs)
  insert-IsAscending key x [] a = (tt, tt)
  insert-IsAscending key x (y ∷ ys) a = elim (Bool-cases (leb (key x) (key y))) [
    | inl e ↦ rw e ((leb→le _ _ e, All-map _ _ ys (λ z h. omega (arith, leb→le _ _ e)) a.0), a)
    | inr e ↦ rw e (All-insert _ key x ys (ground arith) a.0, insert-IsAscending key x ys a.1)
  ]

  pub sort-IsAscending : (key : R → ℕ) (xs : List R) → IsAscending key (sort key xs)
  sort-IsAscending key [] = tt
  sort-IsAscending key (x ∷ xs) = insert-IsAscending key x (sort key xs) (sort-IsAscending key xs)

module _ {R : Type 0} where
  In-insert :
      (key : R → ℕ) (x : R) (xs : List R) (r : R) → In r (insert key x xs) → (r ≡ x) ⊎ In r xs
  In-insert key x [] r (inl e) = inl e
  In-insert key x [] r (inr m) = elim m [ ]
  In-insert key x (y ∷ ys) r m = elim (Bool-cases (leb (key x) (key y))) [
    | inl e ↦ rw e at m
    | inr e ↦ elim (rw e at m) [
      | inl f ↦ inr (inl f)
      | inr n ↦ elim (In-insert key x ys r n) [ inl f ↦ inl f | inr k ↦ inr (inr k) ]
    ]
  ]

  pub In-selected :
      (p : R → Bool) (xs : List R) (r : R) → In r (filter_by p xs) → In r xs × (p r ≡ true)
  In-selected p [] r m = elim m [ ]
  In-selected p (x ∷ xs) r m = elim (Bool-cases (p x)) [
    | inl e ↦ elim (rw e at m) [
      | inl f ↦ (inl f, rw f e)
      | inr n ↦ let (k, q) = In-selected p xs r n in (inr k, q)
    ]
    | inr e ↦ let (k, q) = In-selected p xs r (rw e at m) in (inr k, q)
  ]

  pub In-sort : (key : R → ℕ) (xs : List R) (r : R) → In r (sort key xs) → In r xs
  In-sort key [] r m = m
  In-sort key (x ∷ xs) r m = elim (In-insert key x (sort key xs) r m) [
    | inl e ↦ inl e
    | inr n ↦ inr (In-sort key xs r n)
  ]

abbrev pub listed : Prisma
listed = record {
  find_first = first;
  find_first_lem = first-Finds;
  find_top = top;
  find_top_finds = top-Finds;
  find_top_top = top-IsTop;
  find_many = λ p key rows. sort key (filter_by p rows);
  find_many_sum = sum-sort;
  find_many_in = λ p key rows r m. In-selected p rows r (In-sort key (filter_by p rows) r m);
  find_many_ascending = λ p key rows. sort-IsAscending key (filter_by p rows);
  update_many = λ p f rows. (count_by p rows, update_by p f rows);
  update_many_lem = λ p f rows. refl;
  delete_many = λ p rows. filter_by (λ r. not (p r)) rows;
  delete_many_lem = λ p rows. refl;
  create = λ clash row rows. if any (clash row) rows then none else some (row ∷ rows);
  create_lem = λ clash row rows. refl;
  update_unique = λ holds p f rows.
      if holds (update_by p f rows) then some (count_by p rows, update_by p f rows) else none;
  update_unique_lem = λ holds p f rows. refl;
}
