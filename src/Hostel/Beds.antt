-- ===== src/Hostel/Beds.antt =====
-- The free list: `freeBeds` of the hostel service, for any capacity.
use skolara.Prelude.{
  ℕ, zero, suc, ◌≤◌, ◌<◌, ◌≡◌, refl, Bool, true, false, not, ◌&&◌, List, [], ◌∷◌, ◌++◌, arith, ◌==◌,
  inl, inr, any, filter_by, Bool-cases, ap,
}
use mathlib.Core.Path.{subst}
use skolara.Store.{Prisma, any-find_many}
use skolara.Hostel.{State, lives_in, is_free, beds, free_beds}

filter_by-append :
    (p : ℕ → Bool) (xs ys : List ℕ) → filter_by p (xs ++ ys) ≡ filter_by p xs ++ filter_by p ys
filter_by-append p [] ys = refl
filter_by-append p (x ∷ xs) ys = ground (arith, filter_by-append p xs ys)

-- What a free list says of the beds: all are taken, or the head is the lowest that is not.
abbrev Lowest : (ℕ → Bool) → ℕ → List ℕ → Type 0
Lowest p n [] = (c : ℕ) → 0 < c → c ≤ n → p c ≡ false
Lowest p n (b ∷ rest) = (0 < b) × (b ≤ n) × (p b ≡ true) × ((c : ℕ) → 0 < c → c < b → p c ≡ false)

Lowest-suc :
    (p : ℕ → Bool) (n : ℕ) (xs : List ℕ)
    → Lowest p n xs
    → Lowest p (suc n) (xs ++ filter_by p (suc n ∷ []))
Lowest-suc p n [] h = elim (Bool-cases (p (suc n))) [
  | inl e ↦ rw e (omega arith, omega arith, e, λ c q r. h c q (omega arith))
  | inr e ↦ rw e λ c q r. ground (arith, h c q, e)
]
Lowest-suc p n (b ∷ rest) h = (h.0, omega arith, h.2, h.3)

filter_by-beds : (p : ℕ → Bool) (n : ℕ) → Lowest p n (filter_by p (beds n))
unfolding beds
filter_by-beds p zero = λ c q r. absurd (omega arith)
filter_by-beds p (suc n) =
    rw (filter_by-append p (beds n) (suc n ∷ []))
      (Lowest-suc p n (filter_by p (beds n)) (filter_by-beds p n))

-- A resident of the room has the bed.
abbrev pub is_taken : ℕ → State → ℕ → Bool
is_taken room_id s bed = any (λ a. lives_in room_id a && a.bed_number == bed) s.allocations

module _ (db : Prisma) (room_id capacity : ℕ) (s : State) where
  abbrev free : ℕ → Bool
  free = is_free (db.find_many (lives_in room_id) (λ a. 0) s.allocations)

  pub is_free-not : (bed : ℕ) → free bed ≡ not (is_taken room_id s bed)
  is_free-not bed =
      ap not (any-find_many db (lives_in room_id) (λ a. a.bed_number == bed) (λ a. 0) s.allocations)

  -- The head of the free list is the lowest bed that no resident of the room has: it is numbered
  -- from 1 and within the capacity, and every lower one is taken.
  pub free_beds-lowest :
      {bed : ℕ} {rest : List ℕ}
      → free_beds db room_id capacity s ≡ bed ∷ rest
      → (0 < bed)
        × (bed ≤ capacity)
        × (is_taken room_id s bed ≡ false)
        × ((c : ℕ) → 0 < c → c < bed → is_taken room_id s c ≡ true)
  unfolding free_beds
  free_beds-lowest {bed} {rest} e =
      let (h, k, t, l) = subst (Lowest free capacity) e (filter_by-beds free capacity) in
      (h, k, ground (arith, is_free-not bed), λ c q r. ground (arith, is_free-not c, l c q r))

  -- Where the free list is empty, a resident of the room has every bed from 1 to the capacity.
  pub free_beds-full :
      free_beds db room_id capacity s ≡ []
      → (c : ℕ) → 0 < c
      → c ≤ capacity
      → is_taken room_id s c ≡ true
  unfolding free_beds
  free_beds-full e c q r =
      ground
        (arith, is_free-not c, subst (Lowest free capacity) e (filter_by-beds free capacity) c q r)
