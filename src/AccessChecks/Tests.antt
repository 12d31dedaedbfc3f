-- ===== src/AccessChecks/Tests.antt =====
-- Runs of the access checks, and the theorems about them at concrete inputs.
use skolara.Prelude.{◌≡◌, In, refl, some, none, [], ◌∷◌}
use skolara.Prelude.Action.{ok, err, forbidden}
use skolara.Store.{listed}
use skolara.Auth.{parent, teacher, super_admin}
use skolara.Support.{AuthenticatedUser}
use skolara.AccessChecks.{State, StudentProfile, assert_can_access_student, assert_can_teach_class}
use skolara.AccessChecks.Reach.{IsTied, assert_can_access_student-IsTied}

abbrev school : State
school = record {
  students = record { id = 30; user_id = 50; school_id = 7 } ∷ [];
  links = record { parent_user_id = 40; student_id = 30 } ∷ [];
  classes = record { id = 4; school_id = 7 } ∷ [];
  class_teachers = record { class_id = 4; teacher_user_id = 20 } ∷ [];
}

abbrev mother : AuthenticatedUser
mother = record { id = 40; role = parent; school_id = some 7 }

abbrev ayesha : AuthenticatedUser
ayesha = record { id = 20; role = teacher; school_id = some 7 }

other_parent :
    (assert_can_access_student listed (record mother { id = 41 }) 30 school).0
    ≡ err (forbidden "Not your child's record")
unfolding assert_can_access_student
other_parent = refl

-- Without a school the test on the school is left out; only the platform's owner has none.
no_school :
    (assert_can_teach_class listed
      (record { id = 1; role = super_admin; school_id = none })
      4
      school).0
    ≡ ok tt
unfolding assert_can_teach_class
no_school = refl

accessible : (assert_can_access_student listed mother 30 school).0 ≡ ok tt
unfolding assert_can_access_student
accessible = refl

assert_can_access_student-IsTied_example :
    (p : StudentProfile) × In p school.students × (p.id ≡ 30) × IsTied school mother parent p
assert_can_access_student-IsTied_example =
    assert_can_access_student-IsTied listed mother 30 school accessible

assigned : (assert_can_teach_class listed ayesha 4 school).0 ≡ ok tt
unfolding assert_can_teach_class
assigned = refl
