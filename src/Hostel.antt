-- ===== src/Hostel.antt =====
-- The hostel: `apps/api/src/hostel/hostel.service.ts`. Rooms have beds numbered from 1; an allocation
-- with no `vacatedAt` is a resident. Block names and room numbers are only compared, so they are
-- numbers. The two partial unique indexes are those of migration 024.
pub mod Beds
pub mod Residents
pub mod Rooms
pub mod Retries
pub mod Requests
mod Tests
use skolara.Prelude.{
  ℕ, zero, suc, ◌+◌, ◌*◌, ◌/◌, String, Bool, true, false, not, ◌&&◌, ◌||◌, List, [], ◌∷◌, ◌++◌,
  Option, none, some, ltb, ◌==◌, is_none, if◌then◌else◌, any, filter_by, map, length,
}
use skolara.Prelude.Action.{
  Action, Result, Exception, ok, err, bad_request, conflict, not_found, record_missing, ◌>>=◌, ◌>>◌,
  pure, raise, raise_if,
}
use skolara.Store.{Prisma, Table, no_clash, find_or, update_many, update_or, delete_many}

pub record HostelRoom : Type 0 where
  pub id : ℕ
  pub school_id : ℕ
  pub block_name : ℕ
  pub room_number : ℕ
  pub floor : Option ℕ
  pub capacity : ℕ
  pub notes : Option String

pub record HostelAllocation : Type 0 where
  pub id : ℕ
  pub school_id : ℕ
  pub room_id : ℕ
  pub student_id : ℕ
  pub bed_number : ℕ
  pub vacated_at : Option ℕ
  pub notes : Option String

pub record StudentProfile : Type 0 where
  pub id : ℕ
  pub school_id : ℕ

pub record State : Type 0 where
  pub rooms : List HostelRoom
  pub allocations : List HostelAllocation
  pub students : List StudentProfile

pub record UpsertHostelRoomInput : Type 0 where
  pub block_name : ℕ
  pub room_number : ℕ
  pub floor : Option ℕ
  pub capacity : ℕ
  pub notes : Option String

pub record AllocateHostelBedInput : Type 0 where
  pub student_id : ℕ
  pub bed_number : Option ℕ
  pub notes : Option String

abbrev pub rooms_table : Table State HostelRoom
rooms_table = record { get = λ s. s.rooms; put = λ s rows. record s { rooms = rows } }

abbrev pub allocations_table : Table State HostelAllocation
allocations_table = record {
  get = λ s. s.allocations;
  put = λ s rows. record s { allocations = rows };
}

abbrev pub students_table : Table State StudentProfile
students_table = record { get = λ s. s.students; put = λ s rows. record s { students = rows } }

-- The unique index on (schoolId, blockName, roomNumber).
abbrev pub same_number : HostelRoom → HostelRoom → Bool
same_number x y =
    x.school_id == y.school_id && (x.block_name == y.block_name && x.room_number == y.room_number)

abbrev pub room_clashes : HostelRoom → HostelRoom → Bool
room_clashes x y = y.id == x.id || same_number x y

abbrev pub new_room : ℕ → ℕ → UpsertHostelRoomInput → HostelRoom
new_room school_id id input = record {
  id = id;
  school_id = school_id;
  block_name = input.block_name;
  room_number = input.room_number;
  floor = input.floor;
  capacity = input.capacity;
  notes = input.notes;
}

abbrev pub edit_room : UpsertHostelRoomInput → HostelRoom → HostelRoom
edit_room input r = record r {
  block_name = input.block_name;
  room_number = input.room_number;
  floor = input.floor;
  capacity = input.capacity;
  notes = input.notes;
}

-- `{ roomId, vacatedAt: null }`
abbrev pub lives_in : ℕ → HostelAllocation → Bool
lives_in room_id a = a.room_id == room_id && is_none a.vacated_at

-- `{ studentId, vacatedAt: null }`
abbrev pub is_resident : ℕ → HostelAllocation → Bool
is_resident student_id a = a.student_id == student_id && is_none a.vacated_at

-- The two partial unique indexes: two residents in one bed, or one student in two.
abbrev pub same_place : HostelAllocation → HostelAllocation → Bool
same_place x y =
    is_none x.vacated_at
    && (is_none y.vacated_at
        && (x.room_id == y.room_id && x.bed_number == y.bed_number || x.student_id == y.student_id))

abbrev pub clashes : HostelAllocation → HostelAllocation → Bool
clashes x y = y.id == x.id || same_place x y

abbrev pub new_allocation : ℕ → ℕ → ℕ → ℕ → AllocateHostelBedInput → HostelAllocation
new_allocation school_id id room_id bed_number input = record {
  id = id;
  school_id = school_id;
  room_id = room_id;
  student_id = input.student_id;
  bed_number = bed_number;
  vacated_at = none;
  notes = input.notes;
}

abbrev pub is_current : ℕ → ℕ → HostelAllocation → Bool
is_current school_id id a = a.id == id && (a.school_id == school_id && is_none a.vacated_at)

abbrev pub move_out : ℕ → HostelAllocation → HostelAllocation
move_out now a = record a { vacated_at = some now }

-- `Array.from({ length: capacity }, (_, index) => index + 1)`: 1 … capacity.
pub beds : ℕ → List ℕ
beds zero = []
beds (suc n) = beds n ++ suc n ∷ []

-- The bed is not among the bed numbers of the allocations.
abbrev pub is_free : List HostelAllocation → ℕ → Bool
is_free taken bed = not (any (λ a. a.bed_number == bed) taken)

module _ (db : Prisma) where
  own_room : (school_id id : ℕ) → Action State HostelRoom
  own_room school_id id =
      find_or db rooms_table (λ r. r.id == id && r.school_id == school_id)
        (not_found "Room not found")

  assert_student : (school_id student_id : ℕ) → Action State (Unit {0})
  assert_student school_id student_id = do
    _ ←
        find_or db students_table (λ p. p.id == student_id && p.school_id == school_id)
          (not_found "Student not found")
    pure tt

  pub create_room : (school_id id : ℕ) → UpsertHostelRoomInput → Action State HostelRoom
  create_room school_id id input s =
      elim (db.create room_clashes (new_room school_id id input) s.rooms) [
        | none ↦ (err (conflict "That block already has a room with that number"), s)
        | some rows ↦ (ok (new_room school_id id input), record s { rooms = rows })
      ]

  -- The highest occupied bed, or none, bounds the new capacity.
  abbrev pub is_below : ℕ → Option HostelAllocation → Bool
  is_below capacity none = false
  is_below capacity (some highest) = ltb capacity highest.bed_number

  pub update_room : (school_id id : ℕ) → UpsertHostelRoomInput → Action State (Unit {0})
  unfolding own_room
  update_room school_id id input = do
    _ ← own_room school_id id
    (λ s.
        raise_if
          (is_below input.capacity (db.find_top (lives_in id) (λ a. a.bed_number) s.allocations))
          (bad_request "Bed ${bedNumber} is occupied — move that student before reducing capacity")
          s)
    update_or db rooms_table (no_clash same_number) (λ r. r.id == id) (edit_room input)
        (conflict "That block already has a room with that number")

  -- The foreign key cascades to the allocations of the past.
  pub remove_room : (school_id id : ℕ) → Action State (Unit {0})
  unfolding own_room
  remove_room school_id id = do
    _ ← own_room school_id id
    (λ s.
        raise_if (not (is_none (db.find_first (lives_in id) s.allocations)))
          (bad_request "Someone still lives in that room — move them out before deleting it") s)
    delete_many db allocations_table (λ a. a.room_id == id)
    delete_many db rooms_table (λ r. r.id == id)

  -- The beds of the room that nobody has, the lowest first.
  pub free_beds : (room_id capacity : ℕ) → State → List ℕ
  free_beds room_id capacity s =
      filter_by (is_free (db.find_many (lives_in room_id) (λ a. 0) s.allocations)) (beds capacity)

  pub claim_bed :
      (school_id id room_id bed_number : ℕ) → AllocateHostelBedInput → Action State HostelAllocation
  claim_bed school_id id room_id bed_number input s =
      let row = new_allocation school_id id room_id bed_number input in
      elim (db.create clashes row s.allocations) [
        | some rows ↦ (ok row, record s { allocations = rows })
        | none ↦ (
          err (
              if is_none (db.find_first (is_resident input.student_id) s.allocations)
              then conflict "Bed ${bedNumber} was just taken"
              else bad_request "That student already lives in ${room} — move them out first"),
          s,
        )
      ]

  -- The retry loop. `others k` is what other requests do to the state between the reading of the
  -- free list and the claim, when `k` further attempts are left.
  pub try_beds :
      (others : ℕ → State → State) (attempts : ℕ) (school_id id room_id capacity : ℕ)
      → AllocateHostelBedInput
      → Action State HostelAllocation
  try_beds others zero school_id id room_id capacity input s =
      (err (conflict "Room ${roomNumber} is full"), s)
  try_beds others (suc k) school_id id room_id capacity input s =
      elim (free_beds room_id capacity s) [
        | [] ↦ (err (conflict "Room ${roomNumber} is full"), s)
        | bed ∷ _ ↦
            let (r, s') = claim_bed school_id id room_id bed input (others k s) in
            elim r [
              | ok a ↦ (ok a, s')
              | err (conflict _) ↦ try_beds others k school_id id room_id capacity input s'
              | err e ↦ (err e, s')
            ]
      ]

  pub allocate :
      (others : ℕ → State → State) (school_id room_id id : ℕ)
      → AllocateHostelBedInput
      → Action State HostelAllocation
  unfolding own_room assert_student
  allocate others school_id room_id id input = do
    room ← own_room school_id room_id
    assert_student school_id input.student_id
    elim input.bed_number [
      | some bed_number ↦ do
        raise_if (ltb room.capacity bed_number)
            (bad_request "Room ${roomNumber} has ${capacity} beds — there is no bed ${bedNumber}")
        claim_bed school_id id room_id bed_number input
      | none ↦ try_beds others room.capacity school_id id room_id room.capacity input
    ]

  pub vacate : (school_id allocation_id now : ℕ) → Action State HostelAllocation
  vacate school_id allocation_id now = do
    released ← update_many db allocations_table (is_current school_id allocation_id) (move_out now)
    (elim (released == 0) [
      | true ↦ do
        _ ←
            find_or db allocations_table (λ a. a.id == allocation_id && a.school_id == school_id)
              (not_found "Allocation not found")
        raise (bad_request "That student has already moved out")
      | false ↦ find_or db allocations_table (λ a. a.id == allocation_id) record_missing
    ])
