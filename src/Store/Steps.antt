-- ===== src/Store/Steps.antt =====
-- What a step of a handler leaves of an invariant: one rule for each kind of query.
use skolara.Prelude.{
  ◌≡◌, refl, Bool, true, false, List, ◌∷◌, ◌==◌, any, In, inl, inr, Bool-cases, Option-cases,
  update_by, count_by, arith,
}
use skolara.Prelude.Action.{Action, Exception, ok, raise_if, Result-cases, ◌>>=◌, ◌>>◌}
use skolara.Store.Client.{Prisma}
use skolara.Store.Keys.{found_row}
use skolara.Store.Queries.{Table, find_or, insert_or, update, update_or}

-- The invariant holds after the step.
pub record Kept {S A : Type 0} (I : S → Type 0) (m : Action S A) (s : S) : Type 0 where
  pub kept : I (m s).1

module _ {S : Type 0} (I : S → Type 0) where
  pub raise_if-keeps :
      {A : Type 0} (b : Bool) (e : Exception) (m : Action S A) (s : S)
      → I s
      → (b ≡ false → Kept I m s)
      → Kept I (raise_if b e >> m) s
  raise_if-keeps true e m s h k = record { kept = h }
  raise_if-keeps false e m s h k = record { kept = (k refl).kept }

  pub bind-keeps :
      {A B : Type 0} (m : Action S A) (k : A → Action S B) (s : S)
      → Kept I m s
      → ((a : A) → (m s).0 ≡ ok a → Kept I (k a) (m s).1)
      → Kept I (m >>= k) s
  bind-keeps m k s h f = record {
    kept = elim (Result-cases (m s).0) [
      | inl (a, e) ↦ rw (◌>>=◌, e) (f a e).kept
      | inr (x, e) ↦ rw (◌>>=◌, e) h.kept
    ];
  }

  -- A check that only reads.
  pub check-keeps :
      {A : Type 0} (m : Action S (Unit {0})) (k : Action S A) (s : S)
      → I s
      → (m s).1 ≡ s
      → (m s ≡ (ok tt, s) → Kept I k s)
      → Kept I (m >> k) s
  check-keeps m k s h r f = record {
    kept = elim (Result-cases (m s).0) [
      | inl (a, e) ↦ rw (◌>>◌, ◌>>=◌, e, r) (f (ground (arith, e, r))).kept
      | inr (x, e) ↦ rw (◌>>◌, ◌>>=◌, e, r) h
    ];
  }

  module _ (db : Prisma) {R : Type 0} (t : Table S R) where
    pub find_or-keeps :
        {A : Type 0} (p : R → Bool) (e : Exception) (m : R → Action S A) (s : S)
        → I s
        → ((r : R) → In r (t.get s) → p r ≡ true → Kept I (m r) s)
        → Kept I (find_or db t p e >>= m) s
    find_or-keeps p e m s h k = record {
      kept = elim (Option-cases (db.find_first p (t.get s))) [
        | inl f ↦ rw (f, ◌>>=◌, find_or, f) h
        | inr (r, f) ↦
            let (i, q) = found_row db p (t.get s) f in rw (f, ◌>>=◌, find_or, f) (k r i q).kept
      ];
    }

    pub insert_or-keeps :
        (clash : R → R → Bool) (r : R) (e : Exception) (s : S)
        → I s
        → (any (clash r) (t.get s) ≡ false → I (t.put s (r ∷ t.get s)))
        → Kept I (insert_or db t clash r e) s
    insert_or-keeps clash r e s h k = record {
      kept = elim (Bool-cases (any (clash r) (t.get s))) [
        | inl a ↦ rw (db.create_lem clash r (t.get s), a, insert_or) h
        | inr a ↦ rw (db.create_lem clash r (t.get s), a, insert_or) (k a)
      ];
    }

    pub update-keeps :
        (p : R → Bool) (f : R → R) (s : S)
        → I s
        → I (t.put s (update_by p f (t.get s)))
        → Kept I (update db t p f) s
    update-keeps p f s h k = record {
      kept = elim (Bool-cases (count_by p (t.get s) == 0)) [
        | inl a ↦ rw (update, db.update_many_lem p f (t.get s), a) h
        | inr a ↦
            rw (update, db.update_many_lem p f (t.get s), a, db.update_many_lem p f (t.get s)) k
      ];
    }

    pub update_or-keeps :
        (fine : List R → Bool) (p : R → Bool) (f : R → R) (e : Exception) (s : S)
        → I s
        → (fine (update_by p f (t.get s)) ≡ true → I (t.put s (update_by p f (t.get s))))
        → Kept I (update_or db t fine p f e) s
    update_or-keeps fine p f e s h k = record {
      kept = elim (Bool-cases (fine (update_by p f (t.get s)))) [
        | inl a ↦ elim (Bool-cases (count_by p (t.get s) == 0)) [
          | inl c ↦ rw (db.update_unique_lem fine p f (t.get s), a, c, update_or) h
          | inr c ↦ rw (db.update_unique_lem fine p f (t.get s), a, c, update_or) (k a)
        ]
        | inr a ↦ rw (db.update_unique_lem fine p f (t.get s), a, update_or) h
      ];
    }
