-- ===== src/LiveClasses/Window.antt =====
-- The join window: `findForStudent` gives the link of a session only while it may be joined.
use mathlib.Core.Path.{subst}
use skolara.Prelude.{
  ℕ, ◌+◌, ◌≤◌, ◌<◌, ◌≡◌, refl, String, ◌&&◌, List, [], ◌∷◌, some, arith, ◌==◌, In, All, map, inl,
  inr, Option-cases,
}
use skolara.Prelude.Action.{ok}
use skolara.Store.{Prisma, found_row}
use skolara.LiveClasses.{
  State, LiveClass, StudentProfile, JoinableLiveClass, is_ahead, joinable_class, find_for_student,
}

-- The session is one of the student's class, and the link is its link, given only from ten
-- minutes before the start to the end.
pub record IsInWindow (now class_id : ℕ) (sessions : List LiveClass) (j : JoinableLiveClass)
    : Type 0 where
  pub session : LiveClass
  pub stored : In session sessions
  pub of_class : session.class_id ≡ class_id
  pub times : (j.starts_at ≡ session.starts_at) × (j.ends_at ≡ session.ends_at)
  pub link :
      (url : String)
      → j.meeting_url ≡ some url
      → (url ≡ session.meeting_url) × (session.starts_at ≤ now + 600000) × (now < session.ends_at)

All-of_map :
    {A B : Type 0} (P : B → Type 0) (f : A → B) (xs : List A)
    → ((a : A) → In a xs → P (f a))
    → All P (map f xs)
All-of_map P f [] h = tt
All-of_map P f (x ∷ xs) h = (h x (inl refl), All-of_map P f xs (λ a m. h a (inr m)))

module _ (db : Prisma) where
  -- Every session that is answered for a student is a stored one of the student's class, with its
  -- times, and where the link is given it is the session's, the start is no more than ten minutes
  -- ahead and the end has not come.
  pub find_for_student-IsInWindow :
      (school_id student_id asked now : ℕ) (s : State) (told : List JoinableLiveClass)
      → (find_for_student db school_id student_id asked now s).0 ≡ ok told
      → (p : StudentProfile) × In p s.students
        × (p.id ≡ student_id)
        × All
            (λ j.
              (class_id : ℕ) × (p.class_id ≡ some class_id) × IsInWindow now class_id s.sessions j)
            told
  unfolding find_for_student
  find_for_student-IsInWindow school_id student_id asked now s told e =
      let is_it = λ (p : StudentProfile). p.id == student_id && p.school_id == school_id in
      elim (Option-cases (db.find_first is_it s.students)) [
        | inl f ↦ ground (arith, e, f)
        | inr (p, f) ↦
            let (m, q) = found_row db is_it s.students f in
            let Told = λ (j : JoinableLiveClass).
              (class_id : ℕ) × (p.class_id ≡ some class_id)
              × IsInWindow now class_id s.sessions j in
            elim (Option-cases p.class_id) [
              | inl g ↦
                  let none_told : [] ≡ told = ground (arith, e, f, g) in
                  (p, m, ground (arith, q), subst (All Told) none_told tt)
              | inr (class_id, g) ↦
                  let ahead =
                    db.find_many (is_ahead school_id class_id asked) (λ l. l.starts_at)
                      s.sessions in
                  let same : map (joinable_class now) ahead ≡ told = ground (arith, e, f, g) in
                  (
                    p,
                    m,
                    ground (arith, q),
                    subst (All Told) same (
                        All-of_map Told (joinable_class now) ahead (λ l k.
                          let (i, c) =
                            db.find_many_in (is_ahead school_id class_id asked) (λ l. l.starts_at)
                              s.sessions l k in
                          (
                            class_id,
                            g,
                            record {
                              session = l;
                              stored = i;
                              of_class = ground (arith, c);
                              times = (refl, refl);
                              link = λ url u. ground (arith, u);
                            },
                          ))),
                  )
            ]
      ]
