-- ===== src/LiveClasses/Tests.antt =====
-- Runs of the live classes service, and the theorem about it at a concrete input.
use skolara.Prelude.{ℕ, ◌≡◌, refl, In, All, none, some, [], ◌∷◌, false}
use skolara.Prelude.Action.{ok}
use skolara.Store.{listed}
use skolara.LiveClasses.{State, LiveClass, StudentProfile, joinable_class, find_for_student}
use skolara.LiveClasses.Window.{IsInWindow, find_for_student-IsInWindow}

abbrev lesson : LiveClass
lesson = record {
  id = 1;
  school_id = 7;
  class_id = 3;
  subject = "Physics";
  title = "Waves";
  meeting_url = "https://meet";
  starts_at = 1000000;
  ends_at = 2000000;
  host_user_id = 20;
}

abbrev pupil : StudentProfile
pupil = record { id = 6; school_id = 7; class_id = some 3 }

abbrev school : State
school = record { sessions = lesson ∷ []; classes = []; students = pupil ∷ [] }

-- Before the window the link is held back.
told_early :
    (find_for_student listed 7 6 300000 300000 school).0
    ≡ ok (record (joinable_class 300000 lesson) { meeting_url = none; joinable = false } ∷ [])
unfolding find_for_student
told_early = refl

told_in_time :
    (find_for_student listed 7 6 500000 500000 school).0 ≡ ok (joinable_class 500000 lesson ∷ [])
unfolding find_for_student
told_in_time = refl

find_for_student-IsInWindow_example :
    (p : StudentProfile) × In p school.students
    × (p.id ≡ 6)
    × All
        (λ j.
          (class_id : ℕ) × (p.class_id ≡ some class_id)
          × IsInWindow 500000 class_id school.sessions j)
        (joinable_class 500000 lesson ∷ [])
find_for_student-IsInWindow_example =
    find_for_student-IsInWindow listed 7 6 500000 500000 school (joinable_class 500000 lesson ∷ [])
      told_in_time
