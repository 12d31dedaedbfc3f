-- ===== src/Hostel/Retries.antt =====
-- The retry loop of `allocate`: what is left when it gives up.
use skolara.Prelude.{
  String, ℕ, zero, suc, ◌+◌, ◌≤◌, ◌<◌, ◌≡◌, inl, inr, Bool, true, false, not, ◌&&◌, List, [], ◌∷◌,
  arith, ◌==◌, if◌then◌else◌, any, Bool-cases, Option-cases, List-cases,
}
use skolara.Prelude.Action.{err, conflict, Result-cases}
use skolara.Store.{Prisma, missing_row}
use skolara.Hostel.{
  State, HostelAllocation, AllocateHostelBedInput, clashes, is_resident, lives_in, new_allocation,
  claim_bed, try_beds, free_beds,
}
use skolara.Hostel.Beds.{is_taken, free_beds-lowest, free_beds-full}

-- The number of beds from 1 to `n` that are free, where `p` tells the taken ones.
abbrev pub free_count : (ℕ → Bool) → ℕ → ℕ
free_count p zero = 0
free_count p (suc n) = (if p (suc n) then 0 else 1) + free_count p n

module _ (p q : ℕ → Bool) (keeps : (c : ℕ) → p c ≡ true → q c ≡ true) where
  free_count_mono : (n : ℕ) → free_count q n ≤ free_count p n
  free_count_mono zero = omega arith
  free_count_mono (suc n) = ground (arith, free_count_mono n, keeps (suc n))

  -- One more bed is taken.
  free_count_taken :
      (b n : ℕ) → p b ≡ false → q b ≡ true → 0 < b → b ≤ n → free_count q n < free_count p n
  free_count_taken b zero f t l m = absurd (omega arith)
  free_count_taken b (suc n) f t l m = elim (Bool-cases (b == suc n)) [
    | inl e ↦ ground (arith, e, free_count_mono n)
    | inr e ↦ ground (arith, e, free_count_taken b n f t l, keeps (suc n))
  ]

free_count_bound : (p : ℕ → Bool) (n : ℕ) → free_count p n ≤ n
free_count_bound p zero = omega arith
free_count_bound p (suc n) = ground (arith, free_count_bound p n)

none_free : (p : ℕ → Bool) (n : ℕ) → free_count p n ≤ 0 → (c : ℕ) → 0 < c → c ≤ n → p c ≡ true
none_free p zero h c l m = absurd (omega arith)
none_free p (suc n) h c l m = elim (Bool-cases (c == suc n)) [
  | inl e ↦ ground (arith, e)
  | inr e ↦ none_free p n (ground arith) c l (ground (arith, e))
]

-- A refusal for a student who lives nowhere, with an id of its own, is for the bed.
taken_of_clash :
    (a : HostelAllocation) (rows : List HostelAllocation)
    → any (clashes a) rows ≡ true
    → any (λ x. x.id == a.id) rows ≡ false
    → any (is_resident a.student_id) rows ≡ false
    → any (λ x. lives_in a.room_id x && x.bed_number == a.bed_number) rows ≡ true
taken_of_clash a [] h i r = cc
taken_of_clash a (x ∷ rows) h i r = ground (arith, taken_of_clash a rows)

-- No allocation has the id.
abbrev pub is_fresh : ℕ → State → Bool
is_fresh id s = not (any (λ a. a.id == id) s.allocations)

module _ (db : Prisma) (school_id id room_id capacity : ℕ) (input : AllocateHostelBedInput) where
  claim_bed-conflict :
      (bed : ℕ) (s : State) {m : String} {t : State}
      → is_fresh id s ≡ true
      → claim_bed db school_id id room_id bed input s ≡ (err (conflict m), t)
      → (t ≡ s) × (is_taken room_id s bed ≡ true)
  unfolding claim_bed
  claim_bed-conflict bed s f e =
      let a = new_allocation school_id id room_id bed input in
      elim (Bool-cases (any (clashes a) s.allocations)) [
        | inr c ↦ ground (arith, e, c, db.create_lem clashes a s.allocations)
        | inl c ↦ elim (Option-cases (db.find_first (is_resident input.student_id) s.allocations)) [
          | inr (r, l) ↦ ground (arith, e, c, l, db.create_lem clashes a s.allocations)
          | inl l ↦ ground (
            arith,
            e,
            f,
            c,
            l,
            db.create_lem clashes a s.allocations,
            taken_of_clash a s.allocations c,
            missing_row db (is_resident input.student_id) s.allocations l,
          )
        ]
      ]

  module _ (others : ℕ → State → State)
      (keeps : (k : ℕ) (t : State)
        → is_fresh id t ≡ true
        → (is_fresh id (others k t) ≡ true)
          × ((c : ℕ) → is_taken room_id t c ≡ true → is_taken room_id (others k t) c ≡ true)) where
    -- Each failed attempt leaves one more bed taken.
    gave_up-full :
        (attempts : ℕ) (s : State) {m : String} {t : State}
        → is_fresh id s ≡ true
        → free_count (is_taken room_id s) capacity ≤ attempts
        → try_beds db others attempts school_id id room_id capacity input s ≡ (err (conflict m), t)
        → (c : ℕ) → 0 < c
        → c ≤ capacity
        → is_taken room_id t c ≡ true
    unfolding try_beds
    gave_up-full zero s f h e c l m =
        ground (arith, e, none_free (is_taken room_id s) capacity h c l m)
    gave_up-full (suc k) s {m = words} {t = final} f h e c l m =
        elim (List-cases (free_beds db room_id capacity s)) [
          | inl n ↦ ground (arith, e, n, free_beds-full db room_id capacity s n c l m)
          | inr (bed, rest, n) ↦
              let (low, high, free, _) = free_beds-lowest db room_id capacity s n in
              let t = others k s in
              let (f', kept) = keeps k s f in
              let claim = claim_bed db school_id id room_id bed input t in
              elim (Result-cases claim.0) [
                | inl (a, r) ↦ ground (arith, e, n, r)
                | inr (conflict w, r) ↦
                    let (same, taken) =
                      claim_bed-conflict bed t {m = w} {t = claim.1} f' (ground (arith, r)) in
                    gave_up-full k claim.1 {m = words} {t = final} (ground (arith, same))
                      (ground (
                        arith,
                        same,
                        free_count_taken (is_taken room_id s) (is_taken room_id t) kept bed capacity
                            free taken low high,
                      ))
                      (ground (arith, e, n, r)) c l m
                | inr (x, r) ↦ ground (arith, e, n, r)
              ]
        ]

    -- The retries of an allocation, as many as the room has beds, are enough: where the loop
    -- gives up with a conflict, a resident of the room has every bed from 1 to the capacity.
    -- Between the attempts other requests may do anything to the state that leaves every taken
    -- bed of the room taken and the new id unused.
    pub try_beds-full :
        (s : State) {m : String} {t : State}
        → is_fresh id s ≡ true
        → try_beds db others capacity school_id id room_id capacity input s ≡ (err (conflict m), t)
        → (c : ℕ) → 0 < c
        → c ≤ capacity
        → is_taken room_id t c ≡ true
    try_beds-full s f e =
        gave_up-full capacity s f (free_count_bound (is_taken room_id s) capacity) e
