-- ===== src/Leave/WorkingDays.antt =====
-- The loop of `workingDaysBetween` against a count of days and Sundays.
use skolara.Prelude.{ℕ, zero, suc, ◌+◌, ◌-◌, ◌/◌, ◌≤◌, ◌≡◌, arith, leb, inl, inr, Bool-cases}
use skolara.Leave.{day_of, walk, working_days_between}

-- The Sundays up to a day, that day included.
abbrev pub sundays_through : ℕ → ℕ
sundays_through day = (day + 4) / 7

-- The Sundays before a day.
abbrev pub sundays_before : ℕ → ℕ
sundays_before day = (day + 3) / 7

walk_lem :
    (fuel cursor last : ℕ)
    → last + 1 ≤ cursor + fuel
    → cursor ≤ last + 1
    → walk fuel cursor last + sundays_through last + cursor ≡ last + 1 + sundays_before cursor
unfolding walk
walk_lem zero cursor last h k = ground arith
walk_lem (suc n) cursor last h k = elim (Bool-cases (leb cursor last)) [
  | inr e ↦ ground (arith, e)
  | inl e ↦ ground (arith, e, walk_lem n (cursor + 1) last)
]

-- Where the first day is not after the last, the working days that the loop counts and the
-- Sundays in between, those through the last day less those before the first, are together the
-- days of the range, both ends included.
pub working_days_between_lem :
    (start end : ℕ)
    → day_of start ≤ day_of end
    → working_days_between start end
        + (sundays_through (day_of end) - sundays_before (day_of start))
      ≡ day_of end + 1 - day_of start
unfolding working_days_between
working_days_between_lem start end h =
    ground (arith, walk_lem (day_of end + 1 - day_of start) (day_of start) (day_of end))
