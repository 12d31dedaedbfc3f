-- ===== src/Store/Queries.antt =====
-- The queries as steps of a handler. A `Table` says where the state keeps the rows.
use skolara.Prelude.{ℕ, Bool, true, false, List, Option, none, some, ◌==◌}
use skolara.Prelude.Action.{Action, Exception, record_missing, unique_violation, ok, err}
use skolara.Store.Client.{Prisma}

pub record Table (S R : Type 0) : Type 0 where
  pub get : S → List R
  pub put : S → List R → S

module _ (db : Prisma) {S R : Type 0} (t : Table S R) where
  -- `findFirst`, and the throw where the row is missing.
  abbrev pub find_or : (R → Bool) → Exception → Action S R
  find_or p e s = elim (db.find_first p (t.get s)) [ none ↦ (err e, s) | some r ↦ (ok r, s) ]

  abbrev pub find : (R → Bool) → Action S (Option R)
  find p s = (ok (db.find_first p (t.get s)), s)

  abbrev pub count : (R → Bool) → Action S ℕ
  count p s = (ok (db.update_many p (λ r. r) (t.get s)).0, s)

  -- `create`, and what a P2002 is turned into.
  abbrev pub insert_or : (R → R → Bool) → R → Exception → Action S R
  insert_or clash r e s = elim (db.create clash r (t.get s)) [
    | none ↦ (err e, s)
    | some rows ↦ (ok r, t.put s rows)
  ]

  -- `updateMany`, or a raw `UPDATE`: answers the number of rows.
  abbrev pub update_many : (R → Bool) → (R → R) → Action S ℕ
  update_many p f s = let (n, rows) = db.update_many p f (t.get s) in (ok n, t.put s rows)

  -- `update` by key, which throws where the row is missing.
  abbrev pub update : (R → Bool) → (R → R) → Action S (Unit {0})
  update p f s =
      let (n, rows) = db.update_many p f (t.get s) in
      elim (n == 0) [ true ↦ (err record_missing, s) | false ↦ (ok tt, t.put s rows) ]

  abbrev pub delete_many : (R → Bool) → Action S (Unit {0})
  delete_many p s = (ok tt, t.put s (db.delete_many p (t.get s)))

  -- `update` by key under a unique index, and what a P2002 is turned into.
  abbrev pub update_or : (List R → Bool) → (R → Bool) → (R → R) → Exception → Action S (Unit {0})
  update_or holds p f e s = elim (db.update_unique holds p f (t.get s)) [
    | none ↦ (err e, s)
    | some (n, rows) ↦ elim (n == 0) [
      | true ↦ (err record_missing, s)
      | false ↦ (ok tt, t.put s rows)
    ]
  ]

  -- `upsert` on a unique key.
  abbrev pub upsert : (R → Bool) → (R → R) → (R → R → Bool) → R → Action S (Unit {0})
  upsert p f clash row s = elim (db.find_first p (t.get s)) [
    | some r ↦ (ok tt, t.put s (db.update_many p f (t.get s)).1)
    | none ↦ elim (db.create clash row (t.get s)) [
      | none ↦ (err unique_violation, s)
      | some rows ↦ (ok tt, t.put s rows)
    ]
  ]
