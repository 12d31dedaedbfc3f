-- ===== src/Hostel/Tests.antt =====
-- Runs of the hostel service, and the theorems about it at concrete inputs.
use skolara.Prelude.{ℕ, ◌≡◌, refl, true, none, some, [], ◌∷◌, arith}
use skolara.Prelude.Action.{err, conflict}
use skolara.Store.{listed}
use skolara.Hostel.{
  HostelRoom, HostelAllocation, State, AllocateHostelBedInput, UpsertHostelRoomInput, free_beds,
  beds, claim_bed, allocate, try_beds,
}
use skolara.Hostel.Beds.{is_taken}
use skolara.Hostel.Requests.{serve, move_in, serve-IsHoused}
use skolara.Hostel.Residents.{IsHoused}
use skolara.Hostel.Retries.{try_beds-full}

abbrev room : HostelRoom
room = record {
  id = 1;
  school_id = 7;
  block_name = 1;
  room_number = 101;
  floor = none;
  capacity = 2;
  notes = none;
}

abbrev empty_room : HostelRoom
empty_room = record room { id = 2; room_number = 102 }

abbrev stay : HostelAllocation
stay = record {
  id = 40;
  school_id = 7;
  room_id = 1;
  student_id = 3;
  bed_number = 1;
  vacated_at = none;
  notes = none;
}

abbrev hostel : State
hostel = record {
  rooms = room ∷ empty_room ∷ [];
  allocations = stay ∷ [];
  students = record { id = 4; school_id = 7 } ∷ [];
}

abbrev full : State
full = record hostel {
  allocations = stay ∷ record stay { id = 41; student_id = 5; bed_number = 2 } ∷ [];
}

abbrev arrival : AllocateHostelBedInput
arrival = record { student_id = 4; bed_number = none; notes = none }

abbrev bigger : UpsertHostelRoomInput
bigger = record { block_name = 1; room_number = 103; floor = some 2; capacity = 4; notes = none }

-- Nobody else acts meanwhile.
abbrev alone : ℕ → State → State
alone k s = s

hostel-IsHoused : IsHoused hostel
hostel-IsHoused = record { room_ids = (refl, (refl, tt)); places = refl; fits = ((λ e. refl), tt) }

allocated_bed :
    (allocate listed alone 7 1 41 arrival hostel).1.allocations
    ≡ record stay { id = 41; student_id = 4; bed_number = 2 } ∷ stay ∷ []
unfolding allocate try_beds free_beds beds claim_bed
allocated_bed = refl

allocate-full :
    (allocate listed alone 7 1 42 arrival full).0 ≡ err (conflict "Room ${roomNumber} is full")
unfolding allocate try_beds free_beds beds claim_bed
allocate-full = refl

one_free : free_beds listed 1 2 hostel ≡ 2 ∷ []
unfolding free_beds beds
one_free = refl

none_free : free_beds listed 1 2 full ≡ []
unfolding free_beds beds
none_free = refl

full_tries :
    try_beds listed alone 2 7 42 1 2 arrival full
    ≡ (err (conflict "Room ${roomNumber} is full"), full)
unfolding try_beds free_beds beds
full_tries = refl

try_beds-full_example : is_taken 1 full 2 ≡ true
try_beds-full_example =
    try_beds-full listed 7 42 1 2 arrival alone (λ k t f. (f, λ c h. h)) full refl full_tries 2
      (omega arith) (omega arith)

serve-IsHoused_example : IsHoused (serve listed alone (move_in 7 1 41 arrival) hostel)
serve-IsHoused_example =
    serve-IsHoused listed alone (λ k t v. (v, refl)) (move_in 7 1 41 arrival) hostel (λ bed e. cc)
      hostel-IsHoused
