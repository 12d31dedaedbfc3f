-- ===== src/OfflineQueue.antt =====
-- Registers that wait for a connection: `apps/mobile/lib/offline-queue.ts`. The storage of the
-- device (`AsyncStorage`) holds what was last written, or text that is no JSON; the API's
-- answer to each register is a parameter. A flush awaits every answer, so it is a machine whose
-- steps other operations may come between. Local ids and times are numbers, the ISO text of a
-- date is compared only.
pub mod Flush
pub mod Interleaving
mod Tests
use skolara.Prelude.{
  ℕ, ◌+◌, String, Bool, true, false, not, ◌&&◌, List, [], ◌∷◌, ◌++◌, ltb, leb, length, filter_by,
  ◌==◌, if◌then◌else◌,
}
use skolara.RoleTemplates.Capabilities.{str_eq}

pub data AttendanceStatus : Type 0 where
  present absent late excused : AttendanceStatus

pub record Entry : Type 0 where
  pub student_id : ℕ
  pub status : AttendanceStatus

-- `${classId}:${date}:${Date.now()}`
pub record LocalId : Type 0 where
  pub class_id : ℕ
  pub date : String
  pub at : ℕ

pub record QueuedAttendance : Type 0 where
  pub id : LocalId
  pub queued_at : ℕ
  pub class_id : ℕ
  pub date : String
  pub entries : List Entry

pub record AttendanceInput : Type 0 where
  pub class_id : ℕ
  pub date : String
  pub entries : List Entry

pub record FlushResult : Type 0 where
  pub synced : ℕ
  pub remaining : ℕ
  pub discarded : ℕ

-- What the storage has under the key of the queue: nothing, text that is no JSON, or a queue, since
-- `writeQueue` alone writes the key.
pub data Stored : Type 0 where
  nothing corrupt : Stored
  queue : List QueuedAttendance → Stored

-- How the API answers: with success, with an `ApiError` of a status, or not at all.
pub data Outcome : Type 0 where
  accepted : Outcome
  api_error : (status : ℕ) → Outcome
  unreachable : Outcome

unfoldable pub read_queue : Stored → List QueuedAttendance
read_queue nothing = []
read_queue corrupt = []
read_queue (queue items) = items

unfoldable pub write_queue : List QueuedAttendance → Stored
write_queue items = queue items

unfoldable pub queued_count : Stored → ℕ
unfolding read_queue
queued_count s = length (read_queue s)

abbrev pub is_same_register : AttendanceInput → QueuedAttendance → Bool
is_same_register input item = item.class_id == input.class_id && str_eq item.date input.date

abbrev pub new_entry : (now queued_at : ℕ) → AttendanceInput → QueuedAttendance
new_entry now queued_at input = record {
  id = record { class_id = input.class_id; date = input.date; at = now };
  queued_at = queued_at;
  class_id = input.class_id;
  date = input.date;
  entries = input.entries;
}

unfoldable pub enqueue_attendance : (now queued_at : ℕ) → AttendanceInput → Stored → Stored
unfolding read_queue write_queue
enqueue_attendance now queued_at input s = write_queue (
    filter_by (λ item. not (is_same_register input item)) (read_queue s)
    ++ new_entry now queued_at input ∷ [])

-- A 4xx is for good.
abbrev pub is_permanent : Outcome → Bool
is_permanent (api_error status) = leb 400 status && ltb status 500
is_permanent _ = false

-- The variables of a flush that is under way.
pub record Flight : Type 0 where
  pub still_queued : List QueuedAttendance
  pub synced : ℕ
  pub discarded : ℕ

abbrev pub begin_flush : Flight
begin_flush = record { still_queued = []; synced = 0; discarded = 0 }

-- What the answer for one register does to the variables.
abbrev pub settle : QueuedAttendance → Outcome → Flight → Flight
settle item accepted f = record f { synced = f.synced + 1 }
settle item (api_error status) f =
    if is_permanent (api_error status)
    then record f { discarded = f.discarded + 1 }
    else record f { still_queued = f.still_queued ++ item ∷ [] }
settle item unreachable f = record f { still_queued = f.still_queued ++ item ∷ [] }

module _ (mark : QueuedAttendance → Outcome) where
  -- The loop over the registers that were read.
  unfoldable pub flush_loop : List QueuedAttendance → Flight → Flight
  flush_loop [] f = f
  flush_loop (item ∷ items) f = flush_loop items (settle item (mark item) f)

  abbrev pub end_flush : Flight → FlushResult × Stored
  end_flush f = (
    record { synced = f.synced; remaining = length f.still_queued; discarded = f.discarded },
    write_queue f.still_queued,
  )

  -- A flush that nothing comes between.
  unfoldable pub flush_attendance_queue : Stored → FlushResult × Stored
  unfolding flush_loop read_queue write_queue
  flush_attendance_queue s = elim (read_queue s) [
    | [] ↦ (record { synced = 0; remaining = 0; discarded = 0 }, s)
    | item ∷ items ↦ end_flush (flush_loop (item ∷ items) begin_flush)
  ]
