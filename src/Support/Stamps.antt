-- ===== src/Support/Stamps.antt =====
-- The resolution time of a ticket, through every request to the support service.
use skolara.Prelude.{
  ℕ, ◌≡◌, refl, Bool, true, false, List, [], ◌∷◌, arith, ◌==◌, is_none, update_by, Option-cases,
  if◌then◌else◌, inl, inr,
}
use skolara.Store.{Prisma}
use skolara.Support.{
  State, SupportTicket, AuthenticatedUser, CreateSupportTicketInput, AddSupportCommentInput,
  UpdateSupportTicketInput, is_resolved, new_ticket, edit_ticket, create, add_comment,
  assert_visible, update_ticket,
}

pub data Request : Type 0 where
  raise_ticket : (school_id raised_by id now : ℕ) → CreateSupportTicketInput → Request
  comment_on : AuthenticatedUser → (ticket_id id now : ℕ) → AddSupportCommentInput → Request
  change_ticket : (id now : ℕ) → UpdateSupportTicketInput → Request

-- What the service leaves behind it.
pub serve : Prisma → Request → State → State
serve db (raise_ticket school_id raised_by id now input) s =
    (create db school_id raised_by id now input s).1
serve db (comment_on user ticket_id id now input) s =
    (add_comment db user ticket_id id now input s).1
serve db (change_ticket id now input) s = (update_ticket db id now input s).1

-- A ticket has a resolution time just where it is resolved or closed.
abbrev pub all_stamped : List SupportTicket → Bool
all_stamped [] = true
all_stamped (t ∷ tickets) =
    if is_resolved t.status
    then (if is_none t.resolved_at then false else all_stamped tickets)
    else (if is_none t.resolved_at then all_stamped tickets else false)

all_stamped-update_by :
    (now id : ℕ) (input : UpdateSupportTicketInput) (tickets : List SupportTicket)
    → all_stamped tickets ≡ true
    → all_stamped (update_by (λ t. t.id == id) (edit_ticket now input) tickets) ≡ true
all_stamped-update_by now id input [] h = refl
all_stamped-update_by now id input (t ∷ tickets) h = elim (Option-cases input.status) [
  | inl e ↦ ground (arith, e, all_stamped-update_by now id input tickets)
  | inr (status, e) ↦ ground (arith, e, all_stamped-update_by now id input tickets)
]

-- Where every support ticket has a resolution time just where it is resolved or closed, every
-- ticket has after any request to the support service.
pub serve-all_stamped :
    (db : Prisma) (q : Request) (s : State)
    → all_stamped s.tickets ≡ true
    → all_stamped (serve db q s).tickets ≡ true
unfolding serve create add_comment assert_visible update_ticket
serve-all_stamped db (raise_ticket school_id raised_by id now input) s h = ground (
  arith,
  h,
  db.create_lem (λ x y. y.id == x.id) (new_ticket school_id raised_by id now input) s.tickets,
)
serve-all_stamped db (comment_on user ticket_id id now input) s h = ground (arith, h)
serve-all_stamped db (change_ticket id now input) s h = ground (
  arith,
  h,
  db.update_many_lem (λ t. t.id == id) (edit_ticket now input) s.tickets,
  all_stamped-update_by now id input s.tickets h,
)
