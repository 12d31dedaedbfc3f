-- ===== src/Store/Client.antt =====
-- Prisma Client over PostgreSQL is not part of the repository: its queries are parameters, and what
-- their documentation says of them are the laws. A `where` is a test on a row, a `data` a change of
-- a row, a unique index a test on two rows.
use skolara.Prelude.{
  ℕ, ◌≤◌, ◌≡◌, Bool, true, false, not, ◌&&◌, List, [], ◌∷◌, Option, none, some, if◌then◌else◌, any,
  filter_by, count_by, sum_by, update_by, All, In,
}

-- What a query for one row may answer: a row that fits, or `null` if none does.
abbrev pub Finds : {R : Type 0} → (R → Bool) → List R → Option R → Type 0
Finds p rows none = All (λ r. p r ≡ false) rows
Finds p rows (some r) = In r rows × (p r ≡ true)

-- No row that fits has a greater key than the one found.
abbrev pub IsTop : {R : Type 0} → (R → Bool) → (R → ℕ) → List R → Option R → Type 0
IsTop p key rows none = Unit {0}
IsTop p key rows (some r) = All (λ x. p x ≡ true → key x ≤ key r) rows

abbrev pub IsAscending : {R : Type 0} → (R → ℕ) → List R → Type 0
IsAscending key [] = Unit {0}
IsAscending key (x ∷ xs) = All (λ y. key x ≤ key y) xs × IsAscending key xs

-- A unique index as a test on the whole table.
abbrev pub no_clash : {R : Type 0} → (R → R → Bool) → List R → Bool
no_clash clash [] = true
no_clash clash (x ∷ xs) = not (any (clash x) xs) && no_clash clash xs

pub record Prisma : Type 1 where
  -- `findFirst`, `findUnique`: any one row that fits.
  pub find_first : {R : Type 0} → (R → Bool) → List R → Option R
  pub find_first_lem :
      {R : Type 0} (p : R → Bool) (rows : List R) → Finds p rows (find_first p rows)
  -- `findFirst` with `orderBy: { key: "desc" }`.
  pub find_top : {R : Type 0} → (R → Bool) → (R → ℕ) → List R → Option R
  pub find_top_finds :
      {R : Type 0} (p : R → Bool) (key : R → ℕ) (rows : List R) → Finds p rows (find_top p key rows)
  pub find_top_top :
      {R : Type 0} (p : R → Bool) (key : R → ℕ) (rows : List R)
      → IsTop p key rows (find_top p key rows)
  -- `findMany` with `orderBy: { key: "asc" }`; a query with no order has a constant key.
  pub find_many : {R : Type 0} → (R → Bool) → (R → ℕ) → List R → List R
  -- It answers the rows that fit, each as often as the table has it: every sum over them agrees.
  pub find_many_sum :
      {R : Type 0} (p : R → Bool) (key : R → ℕ) (w : R → ℕ) (rows : List R)
      → sum_by w (find_many p key rows) ≡ sum_by (λ r. if p r then w r else 0) rows
  pub find_many_in :
      {R : Type 0} (p : R → Bool) (key : R → ℕ) (rows : List R) (r : R)
      → In r (find_many p key rows)
      → In r rows × (p r ≡ true)
  pub find_many_ascending :
      {R : Type 0} (p : R → Bool) (key : R → ℕ) (rows : List R)
      → IsAscending key (find_many p key rows)
  -- `updateMany`, and a raw `UPDATE … WHERE`: the number of rows that fit, and the table after it.
  pub update_many : {R : Type 0} → (R → Bool) → (R → R) → List R → ℕ × List R
  pub update_many_lem :
      {R : Type 0} (p : R → Bool) (f : R → R) (rows : List R)
      → update_many p f rows ≡ (count_by p rows, update_by p f rows)
  pub delete_many : {R : Type 0} → (R → Bool) → List R → List R
  pub delete_many_lem :
      {R : Type 0} (p : R → Bool) (rows : List R)
      → delete_many p rows ≡ filter_by (λ r. not (p r)) rows
  -- `create`: `none` is the refusal by a unique index, error P2002.
  pub create : {R : Type 0} → (R → R → Bool) → R → List R → Option (List R)
  pub create_lem :
      {R : Type 0} (clash : R → R → Bool) (row : R) (rows : List R)
      → create clash row rows ≡ (if any (clash row) rows then none else some (row ∷ rows))
  -- An `update` of a table with a unique index: `none` is error P2002.
  pub update_unique :
      {R : Type 0} → (List R → Bool) → (R → Bool) → (R → R) → List R → Option (ℕ × List R)
  pub update_unique_lem :
      {R : Type 0} (holds : List R → Bool) (p : R → Bool) (f : R → R) (rows : List R)
      → update_unique holds p f rows
        ≡ (if holds (update_by p f rows) then some (count_by p rows, update_by p f rows) else none)
