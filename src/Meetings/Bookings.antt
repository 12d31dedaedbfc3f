-- ===== src/Meetings/Bookings.antt =====
-- Slots and their bookings: `publish`, `book`, `cancelBooking` and `withdraw`.
use skolara.Prelude.{
  ℕ, ◌≡◌, refl, Bool, true, false, not, ◌&&◌, List, [], ◌∷◌, some, arith, ◌==◌, is_none, any, All,
  In, inl, inr, Bool-cases, Option-cases, update_by, All-update_by, All-filter_by,
}
use skolara.Store.{
  Prisma, Unique, Unique-update_by, Unique-filter_by, Unique-cons, keyed, eq_of_key, found_row,
  no_clash, no_clash-cons, no_clash-update_by, no_clash-filter_by, In-into-update_by, In-filter_by,
}
use skolara.Meetings.{
  State, MeetingSlot, SlotInput, BookMeetingSlotInput, same_instant, clashes, new_slot, is_bookable,
  reserve, is_booked_by, release, create_slots, publish, book, cancel_booking, withdraw,
}

-- A booking is whole or absent: the parent, the student and the time go together.
abbrev pub IsWhole : MeetingSlot → Type 0
IsWhole m =
    (is_none m.student_id ≡ is_none m.booked_by_parent_user_id)
    × (is_none m.booked_at ≡ is_none m.booked_by_parent_user_id)

pub record IsAgenda (rows : List MeetingSlot) : Type 0 where
  pub slot_ids : Unique MeetingSlot.id rows
  pub instants : no_clash same_instant rows ≡ true
  pub whole : All IsWhole rows

no_instant_clash :
    (m : MeetingSlot) (rows : List MeetingSlot)
    → any (clashes m) rows ≡ false
    → (any (same_instant m) rows ≡ false) × (any (keyed MeetingSlot.id m.id) rows ≡ false)
no_instant_clash m [] h = (refl, refl)
no_instant_clash m (x ∷ rows) h = ground (arith, no_instant_clash m rows)

created-IsAgenda :
    (m : MeetingSlot) (rows : List MeetingSlot)
    → any (clashes m) rows ≡ false
    → IsWhole m
    → IsAgenda rows
    → IsAgenda (m ∷ rows)
created-IsAgenda m rows c w v =
    let (i, k) = no_instant_clash m rows c in
    record {
      slot_ids = Unique-cons MeetingSlot.id m rows k v.slot_ids;
      instants = no_clash-cons same_instant m rows i v.instants;
      whole = (w, v.whole);
    }

-- An update that moves no slot and leaves each booking whole.
updated-IsAgenda :
    (p : MeetingSlot → Bool) (f : MeetingSlot → MeetingSlot) (rows : List MeetingSlot)
    → ((m : MeetingSlot)
        → ((f m).id ≡ m.id)
          × ((f m).teacher_user_id ≡ m.teacher_user_id)
          × ((f m).starts_at ≡ m.starts_at)
          × IsWhole (f m))
    → IsAgenda rows
    → IsAgenda (update_by p f rows)
updated-IsAgenda p f rows h v = record {
  slot_ids = Unique-update_by MeetingSlot.id p f rows (λ m. (h m).0) v.slot_ids;
  instants =
      no_clash-update_by same_instant p f rows (λ x y e. ground (arith, h x, h y)) v.instants;
  whole = All-update_by IsWhole IsWhole p f rows (λ m n w. ground (arith, w, h m)) v.whole;
}

module _ (db : Prisma) where
  create_slots-IsAgenda :
      (school_id teacher : ℕ) (inputs : List SlotInput) (rows : List MeetingSlot)
      → IsAgenda rows
      → IsAgenda (create_slots db school_id teacher inputs rows).1
  unfolding create_slots
  create_slots-IsAgenda school_id teacher [] rows v = v
  create_slots-IsAgenda school_id teacher (input ∷ inputs) rows v =
      let m = new_slot school_id teacher input in
      elim (Bool-cases (any (clashes m) rows)) [
        | inl e ↦ ground (
          arith,
          e,
          db.create_lem clashes m rows,
          create_slots-IsAgenda school_id teacher inputs rows v,
        )
        | inr e ↦ ground (
          arith,
          e,
          db.create_lem clashes m rows,
          create_slots-IsAgenda school_id teacher inputs (m ∷ rows)
              (created-IsAgenda m rows e (refl, refl) v),
        )
      ]

  create_slots-keeps :
      (school_id teacher : ℕ) (inputs : List SlotInput) (rows : List MeetingSlot) (m : MeetingSlot)
      → In m rows
      → In m (create_slots db school_id teacher inputs rows).1
  unfolding create_slots
  create_slots-keeps school_id teacher [] rows m i = i
  create_slots-keeps school_id teacher (input ∷ inputs) rows m i =
      let n = new_slot school_id teacher input in
      elim (Bool-cases (any (clashes n) rows)) [
        | inl e ↦ ground (
          arith,
          e,
          db.create_lem clashes n rows,
          create_slots-keeps school_id teacher inputs rows m i,
        )
        | inr e ↦ ground (
          arith,
          e,
          db.create_lem clashes n rows,
          create_slots-keeps school_id teacher inputs (n ∷ rows) m (inr i),
        )
      ]

-- A request to the service.
pub data Request : Type 0 where
  publish_request : (school_id teacher now : ℕ) → List SlotInput → Request
  book_request : (school_id slot_id parent now : ℕ) → BookMeetingSlotInput → Request
  cancel_request : (school_id slot_id parent : ℕ) → Request
  withdraw_request : (school_id slot_id teacher : ℕ) → Request

-- What the service leaves behind it.
pub serve : Prisma → Request → State → State
serve db (publish_request school_id teacher now inputs) s =
    (publish db school_id teacher now inputs s).1
serve db (book_request school_id slot_id parent now input) s =
    (book db school_id slot_id parent now input s).1
serve db (cancel_request school_id slot_id parent) s =
    (cancel_booking db school_id slot_id parent s).1
serve db (withdraw_request school_id slot_id teacher) s =
    (withdraw db school_id slot_id teacher s).1

-- The request is a cancellation in the name of that parent.
abbrev pub is_cancelled_by : ℕ → Request → Bool
is_cancelled_by parent (cancel_request school_id slot_id by) = by == parent
is_cancelled_by parent _ = false

-- Every request to the meetings service keeps the agenda in order: the ids are unique, no teacher
-- has two slots at one instant, and a slot has a parent, a student and a booking time or none of
-- the three.
pub serve-IsAgenda :
    (db : Prisma) (q : Request) (s : State) → IsAgenda s.slots → IsAgenda (serve db q s).slots
unfolding serve publish book cancel_booking withdraw
serve-IsAgenda db (publish_request school_id teacher now inputs) s v =
    ground (arith, create_slots-IsAgenda db school_id teacher inputs s.slots v)
serve-IsAgenda db (book_request school_id slot_id parent now input) s v =
    let takes = is_bookable school_id slot_id now in
    ground (
      arith,
      db.update_many_lem takes (reserve parent now input) s.slots,
      updated-IsAgenda takes (reserve parent now input) s.slots
          (λ m. (refl, refl, refl, (refl, refl))) v,
    )
serve-IsAgenda db (cancel_request school_id slot_id parent) s v =
    let leaves = is_booked_by school_id slot_id parent in
    ground (
      arith,
      db.update_many_lem leaves release s.slots,
      updated-IsAgenda leaves release s.slots (λ m. (refl, refl, refl, (refl, refl))) v,
    )
serve-IsAgenda db (withdraw_request school_id slot_id teacher) s v =
    let stays = λ (m : MeetingSlot). not (m.id == slot_id) in
    ground (
      arith,
      db.delete_many_lem (λ m. m.id == slot_id) s.slots,
      Unique-filter_by MeetingSlot.id stays s.slots v.slot_ids,
      no_clash-filter_by same_instant stays s.slots v.instants,
      All-filter_by IsWhole IsWhole stays s.slots (λ m e w. w) v.whole,
    )

-- In an agenda that is in order, a slot that a parent has booked stays as it is under every
-- request but a cancellation in that parent's name: another parent cannot take it and the teacher
-- cannot withdraw it.
pub serve-keeps_booking :
    (db : Prisma) (q : Request) (s : State) (m : MeetingSlot) (parent : ℕ)
    → IsAgenda s.slots
    → In m s.slots
    → m.booked_by_parent_user_id ≡ some parent
    → is_cancelled_by parent q ≡ false
    → In m (serve db q s).slots
unfolding serve publish book cancel_booking withdraw
serve-keeps_booking db (publish_request school_id teacher now inputs) s m parent v i b c =
    ground (arith, create_slots-keeps db school_id teacher inputs s.slots m i)
serve-keeps_booking db (book_request school_id slot_id by now input) s m parent v i b c =
    let takes = is_bookable school_id slot_id now in
    ground (
      arith,
      db.update_many_lem takes (reserve by now input) s.slots,
      In-into-update_by takes (reserve by now input) s.slots m i,
    )
serve-keeps_booking db (cancel_request school_id slot_id by) s m parent v i b c =
    let leaves = is_booked_by school_id slot_id by in
    ground (
      arith,
      db.update_many_lem leaves release s.slots,
      In-into-update_by leaves release s.slots m i,
    )
serve-keeps_booking db (withdraw_request school_id slot_id teacher) s m parent v i b c =
    let own = λ (x : MeetingSlot).
      x.id == slot_id && (x.school_id == school_id && x.teacher_user_id == teacher) in
    elim (Option-cases (db.find_first own s.slots)) [
      | inl e ↦ ground (arith, e)
      | inr (x, e) ↦
          let (n, q) = found_row db own s.slots e in
          ground (
            arith,
            e,
            b,
            db.delete_many_lem (λ m. m.id == slot_id) s.slots,
            eq_of_key MeetingSlot.id s.slots x m v.slot_ids n i,
            In-filter_by (λ m. not (m.id == slot_id)) s.slots m i,
          )
    ]
