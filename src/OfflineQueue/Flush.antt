-- ===== src/OfflineQueue/Flush.antt =====
-- What a flush sends, keeps and drops, and that a class has one register a day.
use mathlib.Core.List.{append-nil, append_assoc}
use skolara.Prelude.{
  ℕ, ◌+◌, ◌≡◌, refl, sym, ap, ◌∙◌, Bool, true, false, not, ◌&&◌, ◌||◌, List, [], ◌∷◌, ◌++◌, length,
  filter_by, count_by, any, arith, ◌==◌, if◌then◌else◌, Bool-cases, inl, inr,
}
use skolara.Store.{no_clash, no_clash-filter_by}
use text.Mathlib.TextEquality.{eq_iff}
use skolara.RoleTemplates.Capabilities.{str_eq}
use skolara.OfflineQueue.{
  QueuedAttendance, AttendanceInput, Stored, Outcome, Flight, nothing, corrupt, queue, accepted,
  api_error, unreachable, read_queue, queued_count, write_queue, enqueue_attendance,
  is_same_register, new_entry, is_permanent, settle, flush_loop, flush_attendance_queue,
  begin_flush,
}

abbrev pub is_accepted : Outcome → Bool
is_accepted accepted = true
is_accepted _ = false

-- Neither taken nor refused.
abbrev pub is_retried : Outcome → Bool
is_retried o = not (is_accepted o || is_permanent o)

settle-lem :
    (item : QueuedAttendance) (o : Outcome) (f : Flight)
    → ((settle item o f).synced ≡ f.synced + (if is_accepted o then 1 else 0))
      × ((settle item o f).discarded ≡ f.discarded + (if is_permanent o then 1 else 0))
      × ((settle item o f).still_queued
          ≡ f.still_queued ++ (if is_retried o then item ∷ [] else []))
settle-lem item accepted f = (omega arith, omega arith, sym (append-nil f.still_queued))
settle-lem item (api_error status) f = elim (Bool-cases (is_permanent (api_error status))) [
  | inl e ↦ rw e (omega arith, refl, sym (append-nil f.still_queued))
  | inr e ↦ rw e (omega arith, omega arith, refl)
]
settle-lem item unreachable f = (omega arith, omega arith, refl)

exclusive : (o : Outcome) → (is_accepted o && is_permanent o) ≡ false
exclusive accepted = refl
exclusive (api_error status) = refl
exclusive unreachable = refl

module _ (mark : QueuedAttendance → Outcome) where
  abbrev pub is_taken : QueuedAttendance → Bool
  is_taken item = is_accepted (mark item)

  abbrev pub is_refused : QueuedAttendance → Bool
  is_refused item = is_permanent (mark item)

  abbrev pub is_kept : QueuedAttendance → Bool
  is_kept item = is_retried (mark item)

  kept_first :
      (item : QueuedAttendance) (items : List QueuedAttendance)
      → filter_by is_kept (item ∷ items)
        ≡ (if is_kept item then item ∷ [] else []) ++ filter_by is_kept items
  kept_first item items = elim (Bool-cases (is_kept item)) [ inl e ↦ rw e | inr e ↦ rw e ]

  flush_loop-lem :
      (items : List QueuedAttendance) (f : Flight)
      → ((flush_loop mark items f).synced ≡ f.synced + count_by is_taken items)
        × ((flush_loop mark items f).discarded ≡ f.discarded + count_by is_refused items)
        × ((flush_loop mark items f).still_queued ≡ f.still_queued ++ filter_by is_kept items)
  unfolding flush_loop
  flush_loop-lem [] f = (omega arith, omega arith, sym (append-nil f.still_queued))
  flush_loop-lem (item ∷ items) f =
      let (a, b, c) = settle-lem item (mark item) f in
      let (i, j, k) = flush_loop-lem items (settle item (mark item) f) in
      (
        omega (arith, i, a),
        omega (arith, j, b),
        k
            ∙ ap (λ l. l ++ filter_by is_kept items) c
            ∙ append_assoc f.still_queued _ _
            ∙ ap (λ l. f.still_queued ++ l) (sym (kept_first item items)),
      )

  -- Each register is taken, refused or kept.
  counts_add :
      (items : List QueuedAttendance)
      → count_by is_taken items + length (filter_by is_kept items) + count_by is_refused items
        ≡ length items
  counts_add [] = refl
  counts_add (item ∷ items) = ground (arith, exclusive (mark item), counts_add items)

  -- A flush that nothing comes between reports how many queued registers the API took, kept and
  -- refused with a 4xx, which add up to the length of the queue; what it leaves queued are those
  -- that were neither taken nor refused, in their order.
  pub flush_attendance_queue-lem :
      (s : Stored)
      → ((flush_attendance_queue mark s).0 ≡ record {
        synced = count_by is_taken (read_queue s);
        remaining = length (filter_by is_kept (read_queue s));
        discarded = count_by is_refused (read_queue s);
      })
        × (read_queue (flush_attendance_queue mark s).1 ≡ filter_by is_kept (read_queue s))
        × (count_by is_taken (read_queue s)
              + length (filter_by is_kept (read_queue s))
              + count_by is_refused (read_queue s)
            ≡ queued_count s)
  unfolding flush_attendance_queue queued_count
  flush_attendance_queue-lem nothing = (refl, refl, refl)
  flush_attendance_queue-lem corrupt = (refl, refl, refl)
  flush_attendance_queue-lem (queue []) = (refl, refl, refl)
  flush_attendance_queue-lem (queue (item ∷ items)) =
      let (i, j, k) = flush_loop-lem (item ∷ items) begin_flush in
      (ground (arith, i, j, k), k, counts_add (item ∷ items))

-- Two entries for one class and date.
abbrev pub same_register : QueuedAttendance → QueuedAttendance → Bool
same_register x y = y.class_id == x.class_id && str_eq y.date x.date

-- What a device does to its queue: a register that could not be sent, or a flush, with the API's
-- answers.
pub data Operation : Type 0 where
  parking : (now queued_at : ℕ) → AttendanceInput → Operation
  flushing : (QueuedAttendance → Outcome) → Operation

unfoldable pub serve : Operation → Stored → Stored
serve (parking now queued_at input) s = enqueue_attendance now queued_at input s
serve (flushing mark) s = (flush_attendance_queue mark s).1

pub any-last :
    (p : QueuedAttendance → Bool) (x : QueuedAttendance) (xs : List QueuedAttendance)
    → any p (xs ++ x ∷ []) ≡ (any p xs || p x)
any-last p x [] = ground arith
any-last p x (y ∷ ys) = ground (arith, any-last p x ys)

-- An entry that clashes with none of a list may follow it.
no_clash-last :
    (x : QueuedAttendance) (xs : List QueuedAttendance)
    → any (λ y. same_register x y) xs ≡ false
    → no_clash same_register xs ≡ true
    → no_clash same_register (xs ++ x ∷ []) ≡ true
no_clash-last x [] h n = refl
no_clash-last x (y ∷ ys) h n = ground (
  arith,
  no_clash-last x ys,
  any-last (same_register y) x ys,
  eq_iff x.date y.date,
  eq_iff y.date x.date,
)

none_left :
    (now queued_at : ℕ) (input : AttendanceInput) (xs : List QueuedAttendance)
    → any
        (λ y. same_register (new_entry now queued_at input) y)
        (filter_by (λ item. not (is_same_register input item)) xs)
      ≡ false
none_left now queued_at input [] = refl
none_left now queued_at input (x ∷ xs) = ground (arith, none_left now queued_at input xs)

-- Parking a register and flushing the queue keep at most one queued register for a class and
-- date.
pub serve-one_register :
    (operation : Operation) (s : Stored)
    → no_clash same_register (read_queue s) ≡ true
    → no_clash same_register (read_queue (serve operation s)) ≡ true
unfolding serve enqueue_attendance read_queue write_queue
serve-one_register (parking now queued_at input) s n =
    no_clash-last (new_entry now queued_at input) _ (none_left now queued_at input (read_queue s))
      (no_clash-filter_by same_register _ (read_queue s) n)
serve-one_register (flushing mark) s n =
    rw (flush_attendance_queue-lem mark s).1 (no_clash-filter_by same_register _ (read_queue s) n)
