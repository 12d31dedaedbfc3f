-- ===== src/Support/Visibility.antt =====
-- What a school sees of a ticket, and what it can add to one: `findOne` and `addComment`.
use mathlib.Core.Path.{subst}
use skolara.Prelude.{
  ℕ, ◌≡◌, false, List, some, arith, ◌==◌, In, All, All-of_In, inl, inr, Option-cases,
}
use skolara.Prelude.Action.{ok}
use skolara.Store.{Prisma, found_row}
use skolara.Support.{
  State, SupportTicket, SupportTicketComment, AuthenticatedUser, AddSupportCommentInput, is_super,
  is_closed, is_visible, is_shown, new_comment, find_one, assert_visible, add_comment,
}

module _ (db : Prisma) where
  -- What an account that is not a super admin is answered of a ticket is a ticket of its own
  -- school, with comments that are stored for that ticket and are not internal.
  pub find_one-confides :
      (user : AuthenticatedUser) (id : ℕ) (s : State) (t : SupportTicket)
      (comments : List SupportTicketComment)
      → is_super user.role ≡ false
      → (find_one db user id s).0 ≡ ok (t, comments)
      → In t s.tickets
        × (t.id ≡ id)
        × (user.school_id ≡ some t.school_id)
        × All (λ c. In c s.comments × (c.ticket_id ≡ id) × (c.internal ≡ false)) comments
  unfolding find_one
  find_one-confides user id s t comments n e =
      elim (Option-cases (db.find_first (is_visible user id) s.tickets)) [
        | inl f ↦ ground (arith, e, f)
        | inr (x, f) ↦
            let (m, q) = found_row db (is_visible user id) s.tickets f in
            let same : x ≡ t = ground (arith, e, f) in
            let shown : db.find_many (is_shown user id) (λ c. c.created_at) s.comments ≡ comments =
              ground (arith, e, f) in
            let Own = λ (c : SupportTicketComment).
              In c s.comments × (c.ticket_id ≡ id) × (c.internal ≡ false) in
            (
              subst (λ y. In y s.tickets) same m,
              ground (arith, q, same),
              ground (arith, q, n, same),
              subst (All Own) shown (
                  All-of_In Own (db.find_many (is_shown user id) (λ c. c.created_at) s.comments)
                    (λ c k.
                      let (i, p) =
                        db.find_many_in (is_shown user id) (λ c. c.created_at) s.comments c k in
                      (i, ground (arith, p), ground (arith, p, n)))),
            )
      ]

  -- What a school adds to a ticket it sees as well; the ticket is its own and not closed.
  pub add_comment-shown :
      (user : AuthenticatedUser) (ticket_id id now : ℕ) (input : AddSupportCommentInput) (s : State)
      (c : SupportTicketComment)
      → is_super user.role ≡ false
      → (add_comment db user ticket_id id now input s).0 ≡ ok c
      → let after = (add_comment db user ticket_id id now input s).1 in
        In c after.comments
        × (c.internal ≡ false)
        × ((t : SupportTicket) × In t s.tickets
            × (t.id ≡ ticket_id)
            × (user.school_id ≡ some t.school_id)
            × (is_closed t.status ≡ false))
  unfolding add_comment assert_visible
  add_comment-shown user ticket_id id now input s c n e =
      elim (Option-cases (db.find_first (is_visible user ticket_id) s.tickets)) [
        | inl f ↦ ground (arith, e, f)
        | inr (t, f) ↦
            let (m, q) = found_row db (is_visible user ticket_id) s.tickets f in
            let row = new_comment ticket_id user.id id now false input in
            let made = db.create_lem (λ x y. y.id == x.id) row s.comments in
            (
              ground (arith, e, f, n, made),
              ground (arith, e, f, n, made),
              (t, m, ground (arith, q), ground (arith, q, n), ground (arith, e, f)),
            )
      ]
