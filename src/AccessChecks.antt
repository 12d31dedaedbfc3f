-- ===== src/AccessChecks.antt =====
-- Who may act for a student or for a class: `apps/api/src/common/student-access.service.ts` and
-- `apps/api/src/common/class-access.service.ts`.
pub mod Reach
mod Tests
use skolara.Prelude.{
  ℕ, Bool, true, false, not, ◌&&◌, ◌||◌, List, [], ◌∷◌, map, Option, none, some, holds, ◌==◌,
  is_none,
}
use skolara.Prelude.Action.{Action, ok, forbidden, not_found, ◌>>=◌, ◌>>◌, pure, raise, raise_if}
use skolara.Store.{Prisma, Table, find_or}
use skolara.Auth.{Role, super_admin, school_admin, teacher, parent, student}
use skolara.Support.{AuthenticatedUser}
use skolara.Meetings.{ParentStudentLink}
use skolara.Timetable.{SchoolClass}

pub record StudentProfile : Type 0 where
  pub id : ℕ
  pub user_id : ℕ
  pub school_id : ℕ

pub record ClassTeacher : Type 0 where
  pub class_id : ℕ
  pub teacher_user_id : ℕ

pub record State : Type 0 where
  pub students : List StudentProfile
  pub links : List ParentStudentLink
  pub classes : List SchoolClass
  pub class_teachers : List ClassTeacher

abbrev pub students_table : Table State StudentProfile
students_table = record { get = λ s. s.students; put = λ s rows. record s { students = rows } }

abbrev pub links_table : Table State ParentStudentLink
links_table = record { get = λ s. s.links; put = λ s rows. record s { links = rows } }

abbrev pub classes_table : Table State SchoolClass
classes_table = record { get = λ s. s.classes; put = λ s rows. record s { classes = rows } }

abbrev pub teachers_table : Table State ClassTeacher
teachers_table = record {
  get = λ s. s.class_teachers;
  put = λ s rows. record s { class_teachers = rows };
}

abbrev pub is_link : (user_id student_id : ℕ) → ParentStudentLink → Bool
is_link user_id student_id l = l.parent_user_id == user_id && l.student_id == student_id

-- `schoolId: user.schoolId ?? undefined`: without a school, Prisma leaves the test out.
abbrev pub in_school_of : Option ℕ → SchoolClass → Bool
in_school_of school_id c = is_none school_id || holds school_id c.school_id

module _ (db : Prisma) where
  -- The checks on the student that was found, by the role of the user.
  unfoldable pub check_student : AuthenticatedUser → Role → StudentProfile → Action State (Unit {0})
  check_student user school_admin s =
      raise_if (not (holds user.school_id s.school_id))
        (forbidden "Not allowed to view this record")
  check_student user teacher s =
      raise_if (not (holds user.school_id s.school_id))
        (forbidden "Not allowed to view this record")
  check_student user student s = raise_if (not (s.user_id == user.id)) (forbidden "Not your record")
  check_student user parent s = do
    _ ← find_or db links_table (is_link user.id s.id) (forbidden "Not your child's record")
    pure tt
  check_student user super_admin s = raise (forbidden "Not allowed to view this record")

  unfoldable pub assert_can_access_student : AuthenticatedUser → ℕ → Action State (Unit {0})
  unfolding check_student
  assert_can_access_student user student_id = do
    found ← find_or db students_table (λ s. s.id == student_id) (not_found "Student not found")
    check_student user user.role found

  unfoldable pub check_teacher : AuthenticatedUser → Role → ℕ → Action State (Unit {0})
  check_teacher user teacher class_id = do
    _ ←
        find_or db teachers_table (λ t. t.class_id == class_id && t.teacher_user_id == user.id)
          (forbidden "You aren't assigned to this class")
    pure tt
  check_teacher user _ class_id = pure tt

  unfoldable pub assert_can_teach_class : AuthenticatedUser → ℕ → Action State (Unit {0})
  unfolding check_teacher
  assert_can_teach_class user class_id = do
    _ ←
        find_or db classes_table (λ c. c.id == class_id && in_school_of user.school_id c)
          (not_found "Class not found")
    check_teacher user user.role class_id

  unfoldable pub class_ids_for_teacher : ℕ → Action State (List ℕ)
  class_ids_for_teacher teacher_user_id s = (
    ok (
        map (λ t. t.class_id)
          (db.find_many (λ t. t.teacher_user_id == teacher_user_id) (λ t. 0) s.class_teachers)),
    s,
  )
