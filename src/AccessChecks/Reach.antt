-- ===== src/AccessChecks/Reach.antt =====
-- What lies behind an access check that passed: `assertCanAccessStudent`, `assertCanTeachClass` and
-- `classIdsForTeacher`.
use skolara.Prelude.{ℕ, ◌≡◌, ◌&&◌, some, arith, ◌==◌, In, inl, inr, Option-cases}
use skolara.Prelude.Action.{ok}
use skolara.Store.{Prisma, found_row}
use skolara.Auth.{Role, super_admin, school_admin, teacher, parent, student}
use skolara.Support.{AuthenticatedUser}
use skolara.Meetings.{ParentStudentLink}
use skolara.Timetable.{SchoolClass}
use skolara.AccessChecks.{
  State, StudentProfile, ClassTeacher, is_link, in_school_of, check_student,
  assert_can_access_student, check_teacher, assert_can_teach_class,
}

-- What ties a user of a role to a student.
abbrev pub IsTied : State → AuthenticatedUser → Role → StudentProfile → Type 0
IsTied s user school_admin p = user.school_id ≡ some p.school_id
IsTied s user teacher p = user.school_id ≡ some p.school_id
IsTied s user student p = p.user_id ≡ user.id
IsTied s user parent p =
    (l : ParentStudentLink) × In l s.links × (l.parent_user_id ≡ user.id) × (l.student_id ≡ p.id)
IsTied s user super_admin p = ⊥

module _ (db : Prisma) where
  check_student-IsTied :
      (user : AuthenticatedUser) (role : Role) (p : StudentProfile) (s : State)
      → (check_student db user role p s).0 ≡ ok tt
      → IsTied s user role p
  unfolding check_student
  check_student-IsTied user school_admin p s e = elim (Option-cases user.school_id) [
    | inl f ↦ ground (arith, e, f)
    | inr (n, f) ↦ ground (arith, e, f)
  ]
  check_student-IsTied user teacher p s e = elim (Option-cases user.school_id) [
    | inl f ↦ ground (arith, e, f)
    | inr (n, f) ↦ ground (arith, e, f)
  ]
  check_student-IsTied user student p s e = ground (arith, e)
  check_student-IsTied user parent p s e =
      elim (Option-cases (db.find_first (is_link user.id p.id) s.links)) [
        | inl f ↦ ground (arith, e, f)
        | inr (l, f) ↦
            let (m, q) = found_row db (is_link user.id p.id) s.links f in
            (l, m, ground (arith, q), ground (arith, q))
      ]
  check_student-IsTied user super_admin p s e = ground (arith, e)

  -- A user who may access a student is tied to one that exists: as staff of the student's school,
  -- as the student, or as a parent who is linked to the student.
  pub assert_can_access_student-IsTied :
      (user : AuthenticatedUser) (student_id : ℕ) (s : State)
      → (assert_can_access_student db user student_id s).0 ≡ ok tt
      → (p : StudentProfile) × In p s.students × (p.id ≡ student_id) × IsTied s user user.role p
  unfolding assert_can_access_student
  assert_can_access_student-IsTied user student_id s e =
      elim (Option-cases (db.find_first (λ p. p.id == student_id) s.students)) [
        | inl f ↦ ground (arith, e, f)
        | inr (p, f) ↦
            let (m, q) = found_row db (λ p. p.id == student_id) s.students f in
            (
              p,
              m,
              ground (arith, q),
              check_student-IsTied user user.role p s (ground (arith, e, f)),
            )
      ]

  -- What ties a user of a role to a class, besides the school: a teacher is assigned to it.
  abbrev pub IsAssigned : State → AuthenticatedUser → Role → ℕ → Type 0
  IsAssigned s user teacher class_id =
      (t : ClassTeacher) × In t s.class_teachers
      × (t.class_id ≡ class_id)
      × (t.teacher_user_id ≡ user.id)
  IsAssigned s user _ class_id = Unit {0}

  check_teacher-IsAssigned :
      (user : AuthenticatedUser) (role : Role) (class_id : ℕ) (s : State)
      → (check_teacher db user role class_id s).0 ≡ ok tt
      → IsAssigned s user role class_id
  unfolding check_teacher
  check_teacher-IsAssigned user teacher class_id s e =
      elim (Option-cases (
        db.find_first (λ t. t.class_id == class_id && t.teacher_user_id == user.id)
          s.class_teachers)) [
            | inl f ↦ ground (arith, e, f)
            | inr (t, f) ↦
                let (m, q) =
                  found_row db
                    (λ (t : ClassTeacher). t.class_id == class_id && t.teacher_user_id == user.id)
                    s.class_teachers f in
                (t, m, ground (arith, q), ground (arith, q))
          ]
  check_teacher-IsAssigned user super_admin class_id s e = tt
  check_teacher-IsAssigned user school_admin class_id s e = tt
  check_teacher-IsAssigned user parent class_id s e = tt
  check_teacher-IsAssigned user student class_id s e = tt

  -- A user of a school who may act for a class finds it in that school, and is assigned to it
  -- where a teacher.
  pub assert_can_teach_class-IsAssigned :
      (user : AuthenticatedUser) (class_id school_id : ℕ) (s : State)
      → user.school_id ≡ some school_id
      → (assert_can_teach_class db user class_id s).0 ≡ ok tt
      → (c : SchoolClass) × In c s.classes
        × (c.id ≡ class_id)
        × (c.school_id ≡ school_id)
        × IsAssigned s user user.role class_id
  unfolding assert_can_teach_class
  assert_can_teach_class-IsAssigned user class_id school_id s o e =
      elim (Option-cases
        (db.find_first (λ c. c.id == class_id && in_school_of user.school_id c) s.classes)) [
          | inl f ↦ ground (arith, e, f)
          | inr (c, f) ↦
              let (m, q) =
                found_row db
                  (λ (c : SchoolClass). c.id == class_id && in_school_of user.school_id c) s.classes
                  f in
              (
                c,
                m,
                ground (arith, q),
                ground (arith, q, o),
                check_teacher-IsAssigned user user.role class_id s (ground (arith, e, f)),
              )
        ]
