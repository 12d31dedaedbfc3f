-- ===== src/Hostel/Rooms.antt =====
-- Rooms under their residents: `updateRoom` and `removeRoom` of the hostel service.
use mathlib.Core.Path.{subst}
use skolara.Prelude.{
  ℕ, ◌≤◌, ◌≡◌, refl, inl, inr, true, false, not, Option, arith, ◌==◌, update_by, filter_by, All, In,
  All-In, All-of_In, All-filter_by, any_of_In, Bool-cases, Option-cases,
}
use skolara.Store.{
  Prisma, Finds, IsTop, no_clash, no_clash-filter_by, In-of_any, In-into-update_by, In-filter_by,
  Unique-update_by, Unique-filter_by,
}
use skolara.Hostel.{
  State, HostelRoom, HostelAllocation, UpsertHostelRoomInput, same_place, same_number, edit_room,
  lives_in, update_room, remove_room, is_below,
}
use skolara.Hostel.Residents.{is_bed_of, Fits, IsHoused}

-- A room whose residents all have beds up to the new capacity may change.
edited-Fits :
    (id : ℕ) (input : UpsertHostelRoomInput) (s : State)
    → ((a : HostelAllocation)
        → In a s.allocations
        → lives_in id a ≡ true
        → a.bed_number ≤ input.capacity)
    → All (Fits s.rooms) s.allocations
    → All (Fits (update_by (λ r. r.id == id) (edit_room input) s.rooms)) s.allocations
edited-Fits id input s bound fits = All-of_In _ s.allocations λ a m c.
    let (r, n, q) =
      In-of_any (is_bed_of a) s.rooms (All-In (Fits s.rooms) a s.allocations fits m c) in
    any_of_In (is_bed_of a) _ _ (In-into-update_by (λ r. r.id == id) (edit_room input) s.rooms r n)
      (ground (arith, bound a m, q, c))

module _ (db : Prisma) (id : ℕ) (s : State) where
  abbrev highest : Option HostelAllocation
  highest = db.find_top (lives_in id) (λ a. a.bed_number) s.allocations

  highest_bound :
      (capacity : ℕ)
      → is_below db capacity highest ≡ false
      → (a : HostelAllocation) → In a s.allocations
      → lives_in id a ≡ true
      → a.bed_number ≤ capacity
  highest_bound capacity low a m l = elim (Option-cases highest) [
    | inl e ↦ cc (
        All-In (λ r. lives_in id r ≡ false) a s.allocations
          (subst (Finds (lives_in id) s.allocations) e
            (db.find_top_finds (lives_in id) (λ a. a.bed_number) s.allocations))
          m)
    | inr (h, e) ↦ ground (
      arith,
      e,
      All-In (λ x. lives_in id x ≡ true → x.bed_number ≤ h.bed_number) a s.allocations
          (subst (IsTop (lives_in id) (λ a. a.bed_number) s.allocations) e
            (db.find_top_top (lives_in id) (λ a. a.bed_number) s.allocations))
          m l,
    )
  ]

module _ (db : Prisma) where
  -- A change of a room keeps the hostel in order, so its capacity never falls below a resident's
  -- bed: no two residents share a bed, no student has two, every resident's bed is one of an
  -- existing room, and the room ids are unique.
  pub update_room-IsHoused :
      (school_id id : ℕ) (input : UpsertHostelRoomInput) (s : State)
      → IsHoused s
      → IsHoused (update_room db school_id id input s).1
  unfolding update_room
  update_room-IsHoused school_id id input s v =
      elim (Bool-cases (is_below db input.capacity (highest db id s))) [
        | inl below ↦ ground (arith, below)
        | inr enough ↦ ground (
          arith,
          enough,
          db.update_unique_lem (no_clash same_number) (λ r. r.id == id) (edit_room input) s.rooms,
          Unique-update_by HostelRoom.id (λ r. r.id == id) (edit_room input) s.rooms (λ r. refl)
              v.room_ids,
          edited-Fits id input s (highest_bound db id s input.capacity enough) v.fits,
        )
      ]

  -- A resident of another room keeps it.
  removed-Fits :
      (id : ℕ) (s : State)
      → All (Fits s.rooms) s.allocations
      → All
          (Fits (filter_by (λ r. not (r.id == id)) s.rooms))
          (filter_by (λ a. not (a.room_id == id)) s.allocations)
  removed-Fits id s fits =
      All-filter_by (Fits s.rooms) _ _ s.allocations
        (λ a t f c.
          let (r, n, q) = In-of_any (is_bed_of a) s.rooms (f c) in
          any_of_In (is_bed_of a) _ r
            (In-filter_by (λ r. not (r.id == id)) s.rooms r n (ground (arith, t, q))) q)
        fits

  -- Deleting a room keeps the hostel in order, so no resident loses their room: no two residents
  -- share a bed, no student has two, every resident's bed is one of an existing room, and the
  -- room ids are unique.
  pub remove_room-IsHoused :
      (school_id id : ℕ) (s : State) → IsHoused s → IsHoused (remove_room db school_id id s).1
  unfolding remove_room
  remove_room-IsHoused school_id id s v = ground (
    arith,
    db.delete_many_lem (λ a. a.room_id == id) s.allocations,
    db.delete_many_lem (λ r. r.id == id) s.rooms,
    Unique-filter_by HostelRoom.id (λ r. not (r.id == id)) s.rooms v.room_ids,
    no_clash-filter_by same_place (λ a. not (a.room_id == id)) s.allocations v.places,
    removed-Fits id s v.fits,
  )
