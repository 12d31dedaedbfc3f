-- ===== src/Meetings.antt =====
-- Parent-teacher meetings: `apps/api/src/meetings/meetings.service.ts` and the types of
-- `packages/types/src/meetings.ts`. Times are time stamps; notifications change no state and are
-- left out.
pub mod Bookings
mod Tests
use skolara.Prelude.{
  ℕ, ◌+◌, String, Bool, true, false, not, ◌&&◌, ◌||◌, List, [], ◌∷◌, Option, none, some, leb, ltb,
  ◌==◌, is_none, holds, any, length,
}
use skolara.Prelude.Action.{
  Action, ok, bad_request, conflict, forbidden, not_found, record_missing, ◌>>=◌, ◌>>◌, pure, raise,
  raise_if, only_if,
}
use skolara.Store.{Prisma, Table, find_or, update_many, delete_many}

pub record MeetingSlot : Type 0 where
  pub id : ℕ
  pub school_id : ℕ
  pub teacher_user_id : ℕ
  pub starts_at : ℕ
  pub ends_at : ℕ
  pub booked_by_parent_user_id : Option ℕ
  pub student_id : Option ℕ
  pub booked_at : Option ℕ
  pub note : Option String

pub record ParentStudentLink : Type 0 where
  pub parent_user_id : ℕ
  pub student_id : ℕ

pub record State : Type 0 where
  pub slots : List MeetingSlot
  pub links : List ParentStudentLink

-- One slot to publish, with the id that the database gives its row.
pub record SlotInput : Type 0 where
  pub id : ℕ
  pub starts_at : ℕ
  pub ends_at : ℕ

pub record BookMeetingSlotInput : Type 0 where
  pub student_id : ℕ
  pub note : Option String

abbrev pub slots_table : Table State MeetingSlot
slots_table = record { get = λ s. s.slots; put = λ s rows. record s { slots = rows } }

abbrev pub links_table : Table State ParentStudentLink
links_table = record { get = λ s. s.links; put = λ s rows. record s { links = rows } }

-- The unique index on (teacherUserId, startsAt).
abbrev pub same_instant : MeetingSlot → MeetingSlot → Bool
same_instant x y = x.teacher_user_id == y.teacher_user_id && x.starts_at == y.starts_at

abbrev pub clashes : MeetingSlot → MeetingSlot → Bool
clashes x y = y.id == x.id || same_instant x y

abbrev pub new_slot : ℕ → ℕ → SlotInput → MeetingSlot
new_slot school_id teacher input = record {
  id = input.id;
  school_id = school_id;
  teacher_user_id = teacher;
  starts_at = input.starts_at;
  ends_at = input.ends_at;
  booked_by_parent_user_id = none;
  student_id = none;
  booked_at = none;
  note = none;
}

-- The `where` and the `data` of a booking.
abbrev pub is_bookable : ℕ → ℕ → ℕ → MeetingSlot → Bool
is_bookable school_id slot_id now m =
    m.id == slot_id
    && (m.school_id == school_id && (is_none m.booked_by_parent_user_id && leb now m.starts_at))

abbrev pub reserve : ℕ → ℕ → BookMeetingSlotInput → MeetingSlot → MeetingSlot
reserve parent now input m = record m {
  booked_by_parent_user_id = some parent;
  student_id = some input.student_id;
  booked_at = some now;
  note = input.note;
}

-- The `where` and the `data` of a cancellation.
abbrev pub is_booked_by : ℕ → ℕ → ℕ → MeetingSlot → Bool
is_booked_by school_id slot_id parent m =
    m.id == slot_id && (m.school_id == school_id && holds m.booked_by_parent_user_id parent)

abbrev pub release : MeetingSlot → MeetingSlot
release m = record m {
  booked_by_parent_user_id = none;
  student_id = none;
  booked_at = none;
  note = none;
}

module _ (db : Prisma) where
  -- `createMany` with `skipDuplicates`: a row that a unique index refuses is passed over.
  pub create_slots :
      (school_id teacher : ℕ) → List SlotInput → List MeetingSlot → ℕ × List MeetingSlot
  create_slots school_id teacher [] rows = (0, rows)
  create_slots school_id teacher (input ∷ inputs) rows =
      elim (db.create clashes (new_slot school_id teacher input) rows) [
        | none ↦ create_slots school_id teacher inputs rows
        | some rows' ↦
            let (n, final) = create_slots school_id teacher inputs rows' in (n + 1, final)
      ]

  -- Answers the number of slots published and the number asked for.
  pub publish : (school_id teacher now : ℕ) → List SlotInput → Action State (ℕ × ℕ)
  publish school_id teacher now inputs = do
    raise_if (any (λ i. ltb i.starts_at now) inputs)
        (bad_request "Slots can't be published in the past")
    (λ s.
        let (n, rows) = create_slots school_id teacher inputs s.slots in
        (ok (n, length inputs), record s { slots = rows }))

  pub book : (school_id slot_id parent now : ℕ) → BookMeetingSlotInput → Action State MeetingSlot
  book school_id slot_id parent now input = do
    _ ←
        find_or db links_table (λ l. l.parent_user_id == parent && l.student_id == input.student_id)
          (forbidden "Not your child's record")
    claimed ←
        update_many db slots_table (is_bookable school_id slot_id now) (reserve parent now input)
    only_if (claimed == 0) (do
      slot ←
          find_or db slots_table (λ m. m.id == slot_id && m.school_id == school_id)
            (not_found "That slot no longer exists")
      raise_if (ltb slot.starts_at now) (bad_request "That slot is in the past")
      raise (conflict "Someone else just booked that slot"))
    find_or db slots_table (λ m. m.id == slot_id) record_missing

  pub cancel_booking : (school_id slot_id parent : ℕ) → Action State (Unit {0})
  cancel_booking school_id slot_id parent = do
    released ← update_many db slots_table (is_booked_by school_id slot_id parent) release
    raise_if (released == 0) (not_found "You don't have a booking for that slot")

  pub withdraw : (school_id slot_id teacher : ℕ) → Action State (Unit {0})
  withdraw school_id slot_id teacher = do
    slot ←
        find_or db slots_table
          (λ m. m.id == slot_id && (m.school_id == school_id && m.teacher_user_id == teacher))
          (not_found "Slot not found")
    raise_if (not (is_none slot.booked_by_parent_user_id))
        (bad_request "That slot is booked — message the parent before withdrawing it")
    delete_many db slots_table (λ m. m.id == slot_id)
