-- ===== src/Hostel/Requests.antt =====
-- The hostel service as a whole: any request, with what other requests do meanwhile.
use skolara.Prelude.{ℕ, ◌<◌, ◌≡◌, some}
use skolara.Store.{Prisma}
use skolara.Hostel.{
  State, UpsertHostelRoomInput, AllocateHostelBedInput, create_room, update_room, remove_room,
  allocate, vacate,
}
use skolara.Hostel.Residents.{IsHoused, create_room-IsHoused, allocate-IsHoused, vacate-IsHoused}
use skolara.Hostel.Rooms.{update_room-IsHoused, remove_room-IsHoused}

pub data Request : Type 0 where
  add_room : (school_id id : ℕ) → UpsertHostelRoomInput → Request
  change_room : (school_id id : ℕ) → UpsertHostelRoomInput → Request
  drop_room : (school_id id : ℕ) → Request
  move_in : (school_id room_id id : ℕ) → AllocateHostelBedInput → Request
  leave_bed : (school_id allocation_id now : ℕ) → Request

-- A bed that is asked for is numbered from 1.
abbrev pub IsSound : Request → Type 0
IsSound (move_in school_id room_id id input) = (bed : ℕ) → input.bed_number ≡ some bed → 0 < bed
IsSound _ = Unit {0}

-- What the service leaves behind it; `others` is what other requests do between two attempts.
pub serve : Prisma → (others : ℕ → State → State) → Request → State → State
serve db others (add_room school_id id input) s = (create_room db school_id id input s).1
serve db others (change_room school_id id input) s = (update_room db school_id id input s).1
serve db others (drop_room school_id id) s = (remove_room db school_id id s).1
serve db others (move_in school_id room_id id input) s =
    (allocate db others school_id room_id id input s).1
serve db others (leave_bed school_id allocation_id now) s =
    (vacate db school_id allocation_id now s).1

-- Every request to the hostel service keeps the hostel in order: no two residents share a bed, no
-- student has two, every resident's bed is one of an existing room, and the room ids are unique.
-- Other requests may change the state between the attempts of an allocation, as long as they keep
-- the order and the rooms; a bed that is asked for is numbered from 1.
pub serve-IsHoused :
    (db : Prisma) (others : ℕ → State → State)
    → ((k : ℕ) (t : State) → IsHoused t → IsHoused (others k t) × ((others k t).rooms ≡ t.rooms))
    → (q : Request) (s : State) → IsSound q
    → IsHoused s
    → IsHoused (serve db others q s)
unfolding serve
serve-IsHoused db others keep (add_room school_id id input) s b v =
    create_room-IsHoused db school_id id input s v
serve-IsHoused db others keep (change_room school_id id input) s b v =
    update_room-IsHoused db school_id id input s v
serve-IsHoused db others keep (drop_room school_id id) s b v =
    remove_room-IsHoused db school_id id s v
serve-IsHoused db others keep (move_in school_id room_id id input) s b v =
    allocate-IsHoused db others keep school_id room_id id input s b v
serve-IsHoused db others keep (leave_bed school_id allocation_id now) s b v =
    vacate-IsHoused db school_id allocation_id now s v
