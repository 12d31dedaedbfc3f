-- ===== src/Store/Keys.antt =====
-- Tables whose rows have a unique key, under the writes of the client. The key is the `id` column.
use mathlib.Core.Path.{subst}
use skolara.Store.Client.{Prisma, Finds}
use skolara.Prelude.{
  not, All, All-map, All-false_of_any, ◌&&◌, ◌∙◌, count_by, any-false_of_count, count_zero_of_any,
  ℕ, ◌+◌, ◌≡◌, refl, sym, inl, inr, Bool, true, false, List, [], ◌∷◌, map, arith, if◌then◌else◌,
  any, filter_by, sum_by, update_by, In, ◌==◌, Bool-cases, any-In, Option-cases, none, some,
  any_of_All-false,
}

abbrev pub Distinct : List ℕ → Type 0
Distinct [] = Unit {0}
Distinct (n ∷ ns) = (any (λ m. m == n) ns ≡ false) × Distinct ns

module _ {R : Type 0} where
  -- No two rows share a key.
  abbrev pub Unique : (R → ℕ) → List R → Type 0
  Unique key rows = Distinct (map key rows)

  -- The row has the key `id`.
  abbrev pub keyed : (R → ℕ) → ℕ → R → Bool
  keyed key id r = key r == id

  pub any-map :
      (key : R → ℕ) (n : ℕ) (xs : List R) → any (λ m. m == n) (map key xs) ≡ any (keyed key n) xs
  any-map key n [] = refl
  any-map key n (x ∷ xs) = rw (any-map key n xs)

  map-update_by :
      (key : R → ℕ) (p : R → Bool) (f : R → R) (xs : List R)
      → ((x : R) → key (f x) ≡ key x)
      → map key (update_by p f xs) ≡ map key xs
  map-update_by key p f [] h = refl
  map-update_by key p f (x ∷ xs) h = ground (arith, h x, map-update_by key p f xs h)

  pub Unique-update_by :
      (key : R → ℕ) (p : R → Bool) (f : R → R) (xs : List R)
      → ((x : R) → key (f x) ≡ key x)
      → Unique key xs
      → Unique key (update_by p f xs)
  Unique-update_by key p f xs h u = subst Distinct (sym (map-update_by key p f xs h)) u

  pub any-update_by_key :
      (key : R → ℕ) (n : ℕ) (p : R → Bool) (f : R → R) (xs : List R)
      → ((x : R) → key (f x) ≡ key x)
      → any (keyed key n) (update_by p f xs) ≡ any (keyed key n) xs
  any-update_by_key key n p f [] h = refl
  any-update_by_key key n p f (x ∷ xs) h = ground (arith, h x, any-update_by_key key n p f xs h)

  pub Unique-cons :
      (key : R → ℕ) (x : R) (xs : List R)
      → any (keyed key (key x)) xs ≡ false
      → Unique key xs
      → Unique key (x ∷ xs)
  Unique-cons key x xs h u = (rw (any-map key (key x) xs) h, u)

  any-filter_by : (q p : R → Bool) (xs : List R) → any q xs ≡ false → any q (filter_by p xs) ≡ false
  any-filter_by q p [] h = refl
  any-filter_by q p (x ∷ xs) h = ground (arith, any-filter_by q p xs)

  pub Unique-filter_by :
      (key : R → ℕ) (p : R → Bool) (xs : List R) → Unique key xs → Unique key (filter_by p xs)
  Unique-filter_by key p [] u = tt
  Unique-filter_by key p (x ∷ xs) u = elim (Bool-cases (p x)) [
    | inl e ↦ rw e (
        Unique-cons key x _ (any-filter_by _ p xs (rw (any-map key (key x) xs) at u.0))
          (Unique-filter_by key p xs u.1))
    | inr e ↦ rw e (Unique-filter_by key p xs u.1)
  ]

  -- Where no row is selected, an update changes nothing.
  pub update_by-none :
      (p : R → Bool) (f : R → R) (xs : List R) → any p xs ≡ false → update_by p f xs ≡ xs
  update_by-none p f [] h = refl
  update_by-none p f (x ∷ xs) h = ground (arith, update_by-none p f xs)

  any-other :
      (key : R → ℕ) (n : ℕ) (p : R → Bool) (xs : List R)
      → ((x : R) → p x ≡ true → key x ≡ n)
      → any (keyed key n) xs ≡ false
      → any p xs ≡ false
  any-other key n p [] h e = refl
  any-other key n p (x ∷ xs) h e = ground (arith, any-other key n p xs h, h x)

  -- An update that selects by key changes a sum by what it changes in the one row.
  pub sum-update_by :
      (key : R → ℕ) (w : R → ℕ) (p : R → Bool) (f : R → R) (xs : List R) (r : R)
      → ((x : R) → p x ≡ true → key x ≡ key r)
      → Unique key xs
      → In r xs
      → sum_by w (update_by p f xs) + w r ≡ sum_by w xs + w (if p r then f r else r)
  sum-update_by key w p f [] r h u m = elim m [ ]
  sum-update_by key w p f (x ∷ xs) r h u (inl e) =
      ground (arith, any-map key (key x) xs, update_by-none p f xs, any-other key (key r) p xs h)
  sum-update_by key w p f (x ∷ xs) r h u (inr m) = ground (
    arith,
    sum-update_by key w p f xs r h u.1 m,
    h x,
    any-map key (key x) xs,
    any-In (keyed key (key x)) xs r,
    m,
  )

  -- A row of the table after an update comes from a row before it.
  pub In-update_by :
      (p : R → Bool) (f : R → R) (xs : List R) (a : R)
      → In a (update_by p f xs)
      → (b : R) × In b xs × (a ≡ (if p b then f b else b))
  In-update_by p f [] a m = elim m [ ]
  In-update_by p f (x ∷ xs) a (inl e) = (x, inl refl, e)
  In-update_by p f (x ∷ xs) a (inr m) = let (b, n, e) = In-update_by p f xs a m in (b, inr n, e)

  -- Two rows with one key are one row.
  pub eq_of_key :
      (key : R → ℕ) (xs : List R) (a b : R)
      → Unique key xs
      → In a xs
      → In b xs
      → key a ≡ key b
      → a ≡ b
  eq_of_key key [] a b u m n e = elim m [ ]
  eq_of_key key (x ∷ xs) a b u (inl p) (inl q) e = cc
  eq_of_key key (x ∷ xs) a b u (inl p) (inr q) e =
      ground (arith, any-map key (key x) xs, any-In (keyed key (key x)) xs b, q)
  eq_of_key key (x ∷ xs) a b u (inr p) (inl q) e =
      ground (arith, any-map key (key x) xs, any-In (keyed key (key x)) xs a, p)
  eq_of_key key (x ∷ xs) a b u (inr p) (inr q) e = eq_of_key key xs a b u.1 p q e

-- What a query for one row has found.
module _ (db : Prisma) {R : Type 0} (p : R → Bool) (rows : List R) where
  pub found_row : {r : R} → db.find_first p rows ≡ some r → In r rows × (p r ≡ true)
  found_row e = subst (Finds p rows) e (db.find_first_lem p rows)

  pub missing_row : db.find_first p rows ≡ none → any p rows ≡ false
  missing_row e = any_of_All-false p rows (subst (Finds p rows) e (db.find_first_lem p rows))

  pub find_none : any p rows ≡ false → db.find_first p rows ≡ none
  find_none h = elim (Option-cases (db.find_first p rows)) [
    | inl e ↦ e
    | inr (r, e) ↦ let (m, q) = found_row e in cc (any-In p rows r h m)
  ]

  pub find_some : any p rows ≡ true → (r : R) × (db.find_first p rows ≡ some r)
  find_some h = elim (Option-cases (db.find_first p rows)) [
    | inl e ↦ cc (missing_row e)
    | inr (r, e) ↦ (r, e)
  ]

count_both :
    {R : Type 0} (p q : R → Bool) (rows : List R)
    → sum_by (λ r. if p r then (if q r then 1 else 0) else 0) rows ≡ count_by (λ r. p r && q r) rows
count_both p q [] = refl
count_both p q (x ∷ rows) = ground (arith, count_both p q rows)

-- A test on what a query for many rows answers is one on the rows that fit.
pub any-find_many :
    (db : Prisma) {R : Type 0} (p q : R → Bool) (key : R → ℕ) (rows : List R)
    → any q (db.find_many p key rows) ≡ any (λ r. p r && q r) rows
any-find_many db {R} p q key rows =
    let both = λ (r : R). p r && q r in
    let found = db.find_many p key rows in
    let same : count_by q found ≡ count_by both rows =
      db.find_many_sum p key (λ r. if q r then 1 else 0) rows ∙ count_both p q rows in
    elim (Bool-cases (any both rows)) [
      | inl e ↦ elim (Bool-cases (any q found)) [
        | inl f ↦ cc
        | inr f ↦
            cc (any-false_of_count both rows (omega (arith, same, count_zero_of_any q found f)))
      ]
      | inr e ↦ cc (any-false_of_count q found (omega (arith, same, count_zero_of_any both rows e)))
    ]

never_both : {R : Type 0} (p : R → Bool) (rows : List R) → any (λ r. p r && not (p r)) rows ≡ false
never_both p [] = refl
never_both p (x ∷ rows) = ground (arith, never_both p rows)

-- All that the query answers fits.
pub All-find_many :
    (db : Prisma) {R : Type 0} (p : R → Bool) (key : R → ℕ) (rows : List R)
    → All (λ r. p r ≡ true) (db.find_many p key rows)
All-find_many db p key rows =
    All-map _ _ (db.find_many p key rows) (λ r e. ground (arith, e))
      (All-false_of_any (λ r. not (p r)) (db.find_many p key rows)
        (any-find_many db p (λ r. not (p r)) key rows ∙ never_both p rows))
