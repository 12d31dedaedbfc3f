-- ===== src/Hostel/Residents.antt =====
-- Who lives where: `createRoom`, `allocate`, `claimBed` and `vacate` of the hostel service.
use mathlib.Core.Path.{subst}
use skolara.Prelude.{
  ℕ, zero, suc, ◌≤◌, ◌<◌, ◌≡◌, refl, sym, inl, inr, Bool, true, false, ◌&&◌, List, [], ◌∷◌, some,
  arith, ltb, leb, ◌==◌, is_none, any, All, In, All-map, All-update_by, any_of_In, Bool-cases,
  Option-cases, List-cases,
}
use skolara.Store.{Prisma, no_clash, no_clash-update_by, found_row, Unique, Unique-cons, keyed}
use skolara.Hostel.{
  State, HostelRoom, HostelAllocation, UpsertHostelRoomInput, AllocateHostelBedInput, same_place,
  clashes, room_clashes, new_room, is_current, move_out, new_allocation, create_room, claim_bed,
  try_beds, free_beds, allocate, vacate,
}
use skolara.Hostel.Beds.{free_beds-lowest}

abbrev pub is_bed_of : HostelAllocation → HostelRoom → Bool
is_bed_of a r = r.id == a.room_id && (ltb 0 a.bed_number && leb a.bed_number r.capacity)

-- A resident's bed is one of an existing room.
abbrev pub Fits : List HostelRoom → HostelAllocation → Type 0
Fits rooms a = is_none a.vacated_at ≡ true → any (is_bed_of a) rooms ≡ true

pub record IsHoused (s : State) : Type 0 where
  pub room_ids : Unique HostelRoom.id s.rooms
  pub places : no_clash same_place s.allocations ≡ true
  pub fits : All (Fits s.rooms) s.allocations

no_place_clash :
    (a : HostelAllocation) (rows : List HostelAllocation)
    → any (clashes a) rows ≡ false
    → any (same_place a) rows ≡ false
no_place_clash a [] h = refl
no_place_clash a (x ∷ rows) h = ground (arith, no_place_clash a rows)

fresh_room :
    (r : HostelRoom) (rows : List HostelRoom)
    → any (room_clashes r) rows ≡ false
    → any (keyed HostelRoom.id r.id) rows ≡ false
fresh_room r [] h = refl
fresh_room r (x ∷ rows) h = ground (arith, fresh_room r rows)

module _ (db : Prisma) where
  -- A claim on a bed that an existing room has keeps the hostel in order, also where the bed or
  -- the student is taken: no two residents share a bed, no student has two, every resident's bed
  -- is one of an existing room, and the room ids are unique.
  pub claim_bed-IsHoused :
      (school_id id room_id bed : ℕ) (input : AllocateHostelBedInput) (s : State)
      → any (is_bed_of (new_allocation school_id id room_id bed input)) s.rooms ≡ true
      → IsHoused s
      → IsHoused (claim_bed db school_id id room_id bed input s).1
  unfolding claim_bed
  claim_bed-IsHoused school_id id room_id bed input s b v =
      let row = new_allocation school_id id room_id bed input in
      ground (arith, b, db.create_lem clashes row s.allocations, no_place_clash row s.allocations)

  claim_bed-rooms :
      (school_id id room_id bed : ℕ) (input : AllocateHostelBedInput) (s : State)
      → (claim_bed db school_id id room_id bed input s).1.rooms ≡ s.rooms
  unfolding claim_bed
  claim_bed-rooms school_id id room_id bed input s = ground arith

  -- Moving out keeps the hostel in order: no two residents share a bed, no student has two, every
  -- resident's bed is one of an existing room, and the room ids are unique.
  pub vacate-IsHoused :
      (school_id id now : ℕ) (s : State) → IsHoused s → IsHoused (vacate db school_id id now s).1
  unfolding vacate
  vacate-IsHoused school_id id now s v =
      let goes = is_current school_id id in
      ground (
        arith,
        db.update_many_lem goes (move_out now) s.allocations,
        no_clash-update_by same_place goes (move_out now) s.allocations (λ x y h. ground arith)
            v.places,
        All-update_by (Fits s.rooms) (Fits s.rooms) goes (move_out now) s.allocations
            (λ x m h. ground (arith, h)) v.fits,
      )

  bed-In_room :
      (school_id id bed : ℕ) (input : AllocateHostelBedInput) (r : HostelRoom) (s : State)
      → In r s.rooms
      → 0 < bed
      → bed ≤ r.capacity
      → any (is_bed_of (new_allocation school_id id r.id bed input)) s.rooms ≡ true
  bed-In_room school_id id bed input r s m h k =
      any_of_In (is_bed_of (new_allocation school_id id r.id bed input)) s.rooms r m (ground arith)

  -- Whatever other requests do between the attempts, short of touching the rooms.
  try_beds-IsHoused :
      (others : ℕ → State → State)
      → ((k : ℕ) (t : State) → IsHoused t → IsHoused (others k t) × ((others k t).rooms ≡ t.rooms))
      → (attempts school_id id : ℕ) (input : AllocateHostelBedInput) (r : HostelRoom) (s : State)
      → In r s.rooms
      → IsHoused s
      → IsHoused (try_beds db others attempts school_id id r.id r.capacity input s).1
  unfolding try_beds
  try_beds-IsHoused others keep zero school_id id input r s m v = v
  try_beds-IsHoused others keep (suc k) school_id id input r s m v =
      elim (List-cases (free_beds db r.id r.capacity s)) [
        | inl e ↦ rw (e, try_beds) v
        | inr (bed, rest, e) ↦
            let t = others k s in
            let after = claim_bed db school_id id r.id bed input t in
            let (h, q, _, _) = free_beds-lowest db r.id r.capacity s e in
            let same : t.rooms ≡ s.rooms = (keep k s v).1 in
            let there : In r t.rooms = subst (In r) (sym same) m in
            let housed =
              claim_bed-IsHoused school_id id r.id bed input t
                (bed-In_room school_id id bed input r t there h q) (keep k s v).0 in
            let again =
              try_beds-IsHoused others keep k school_id id input r after.1
                (subst (In r) (sym (claim_bed-rooms school_id id r.id bed input t)) there) housed in
            ground (arith, e, housed, again)
      ]

  -- An allocation, with a bed asked for or with the lowest free one and its retries, keeps the
  -- hostel in order: no two residents share a bed, no student has two, every resident's bed is
  -- one of an existing room, and the room ids are unique. Other requests may change the state
  -- between the attempts, as long as they keep the order and the rooms; a bed that is asked for
  -- is numbered from 1.
  pub allocate-IsHoused :
      (others : ℕ → State → State)
      → ((k : ℕ) (t : State) → IsHoused t → IsHoused (others k t) × ((others k t).rooms ≡ t.rooms))
      → (school_id room_id id : ℕ) (input : AllocateHostelBedInput) (s : State)
      → ((bed : ℕ) → input.bed_number ≡ some bed → 0 < bed)
      → IsHoused s
      → IsHoused (allocate db others school_id room_id id input s).1
  unfolding allocate
  allocate-IsHoused others keep school_id room_id id input s pos v =
      elim (Option-cases
        (db.find_first (λ r. r.id == room_id && r.school_id == school_id) s.rooms)) [
          | inl e ↦ ground (arith, e)
          | inr (r, e) ↦
              let (m, q) =
                found_row db (λ r. r.id == room_id && r.school_id == school_id) s.rooms e in
              elim (Option-cases input.bed_number) [
                | inl n ↦ ground (
                  arith,
                  e,
                  n,
                  q,
                  try_beds-IsHoused others keep r.capacity school_id id input r s m v,
                )
                | inr (bed, n) ↦ elim (Bool-cases (ltb r.capacity bed)) [
                  | inl over ↦ ground (arith, e, n, over)
                  | inr fits ↦ ground (
                    arith,
                    e,
                    n,
                    q,
                    fits,
                    claim_bed-IsHoused school_id id r.id bed input s
                        (bed-In_room school_id id bed input r s m (pos bed n)
                          (ground (arith, fits)))
                        v,
                  )
                ]
              ]
        ]

  -- Adding a room keeps the hostel in order: no two residents share a bed, no student has two,
  -- every resident's bed is one of an existing room, and the room ids are unique.
  pub create_room-IsHoused :
      (school_id id : ℕ) (input : UpsertHostelRoomInput) (s : State)
      → IsHoused s
      → IsHoused (create_room db school_id id input s).1
  unfolding create_room
  create_room-IsHoused school_id id input s v =
      let row = new_room school_id id input in
      ground (
        arith,
        db.create_lem room_clashes row s.rooms,
        Unique-cons HostelRoom.id row s.rooms,
        fresh_room row s.rooms,
        All-map (Fits s.rooms) (Fits (row ∷ s.rooms)) s.allocations (λ a f h. ground (arith, f h))
            v.fits,
      )
