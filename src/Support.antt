-- ===== src/Support.antt =====
-- Support tickets: `apps/api/src/support/support.service.ts` and the types of
-- `packages/types/src/support.ts`. Times are time stamps; notifications change no state and are
-- left out.
pub mod Visibility
pub mod Stamps
mod Tests
use skolara.Prelude.{
  ℕ, String, Bool, true, false, not, ◌&&◌, ◌||◌, List, [], ◌∷◌, Option, none, some, ◌==◌, is_none,
  holds, or_else, if◌then◌else◌,
}
use skolara.Prelude.Action.{
  Action, ok, err, forbidden, not_found, unique_violation, ◌>>=◌, ◌>>◌, pure, raise_if,
}
use skolara.Store.{Prisma, Table, find_or, insert_or, update}
use skolara.Auth.{Role, super_admin, school_admin, teacher, parent, student}

pub data SupportTicketStatus : Type 0 where
  opened in_progress waiting_on_school resolved closed : SupportTicketStatus

pub data SupportTicketPriority : Type 0 where
  low normal high urgent : SupportTicketPriority

pub record SupportTicket : Type 0 where
  pub id : ℕ
  pub school_id : ℕ
  pub raised_by_user_id : ℕ
  pub subject : String
  pub body : String
  pub status : SupportTicketStatus
  pub priority : SupportTicketPriority
  pub resolved_at : Option ℕ
  pub created_at : ℕ

pub record SupportTicketComment : Type 0 where
  pub id : ℕ
  pub ticket_id : ℕ
  pub author_user_id : ℕ
  pub body : String
  pub internal : Bool
  pub created_at : ℕ

pub record AuthenticatedUser : Type 0 where
  pub id : ℕ
  pub role : Role
  pub school_id : Option ℕ

pub record CreateSupportTicketInput : Type 0 where
  pub subject : String
  pub body : String
  pub priority : SupportTicketPriority

pub record AddSupportCommentInput : Type 0 where
  pub body : String
  pub internal : Bool

pub record UpdateSupportTicketInput : Type 0 where
  pub status : Option SupportTicketStatus
  pub priority : Option SupportTicketPriority

pub record State : Type 0 where
  pub tickets : List SupportTicket
  pub comments : List SupportTicketComment

abbrev pub tickets_table : Table State SupportTicket
tickets_table = record { get = λ s. s.tickets; put = λ s rows. record s { tickets = rows } }

abbrev pub comments_table : Table State SupportTicketComment
comments_table = record { get = λ s. s.comments; put = λ s rows. record s { comments = rows } }

abbrev pub is_super : Role → Bool
is_super super_admin = true
is_super _ = false

abbrev pub is_resolved : SupportTicketStatus → Bool
is_resolved resolved = true
is_resolved closed = true
is_resolved _ = false

abbrev pub is_closed : SupportTicketStatus → Bool
is_closed closed = true
is_closed _ = false

abbrev pub new_ticket : (school_id raised_by id now : ℕ) → CreateSupportTicketInput → SupportTicket
new_ticket school_id raised_by id now input = record {
  id = id;
  school_id = school_id;
  raised_by_user_id = raised_by;
  subject = input.subject;
  body = input.body;
  status = opened;
  priority = input.priority;
  resolved_at = none;
  created_at = now;
}

abbrev pub new_comment :
    (ticket_id author id now : ℕ) → Bool → AddSupportCommentInput → SupportTicketComment
new_comment ticket_id author id now internal input = record {
  id = id;
  ticket_id = ticket_id;
  author_user_id = author;
  body = input.body;
  internal = internal;
  created_at = now;
}

-- A school's account is asked for its own tickets; one without a school has none.
abbrev pub is_visible : AuthenticatedUser → ℕ → SupportTicket → Bool
is_visible user id t = t.id == id && (is_super user.role || holds user.school_id t.school_id)

abbrev pub is_shown : AuthenticatedUser → ℕ → SupportTicketComment → Bool
is_shown user id c = c.ticket_id == id && (is_super user.role || not c.internal)

abbrev pub edit_ticket : ℕ → UpdateSupportTicketInput → SupportTicket → SupportTicket
edit_ticket now input t = elim input.status [
  | none ↦ record t { priority = or_else input.priority t.priority }
  | some status ↦ record t {
    status = status;
    priority = or_else input.priority t.priority;
    resolved_at = if is_resolved status then some now else none;
  }
]

module _ (db : Prisma) where
  pub create :
      (school_id raised_by id now : ℕ) → CreateSupportTicketInput → Action State SupportTicket
  create school_id raised_by id now input =
      insert_or db tickets_table (λ x y. y.id == x.id) (new_ticket school_id raised_by id now input)
        unique_violation

  pub find_one : AuthenticatedUser → ℕ → Action State (SupportTicket × List SupportTicketComment)
  find_one user id = do
    ticket ← find_or db tickets_table (is_visible user id) (not_found "Ticket not found")
    (λ s. (ok (ticket, db.find_many (is_shown user id) (λ c. c.created_at) s.comments), s))

  pub assert_visible : AuthenticatedUser → ℕ → Action State SupportTicket
  assert_visible user id = do
    ticket ← find_or db tickets_table (is_visible user id) (not_found "Ticket not found")
    raise_if (is_closed ticket.status) (forbidden "That ticket is closed — raise a new one")
    pure ticket

  pub add_comment :
      AuthenticatedUser
      → (ticket_id id now : ℕ) → AddSupportCommentInput
      → Action State SupportTicketComment
  unfolding assert_visible
  add_comment user ticket_id id now input = do
    _ ← assert_visible user ticket_id
    insert_or db comments_table (λ x y. y.id == x.id)
        (new_comment ticket_id user.id id now (is_super user.role && input.internal) input)
        unique_violation

  pub update_ticket : (id now : ℕ) → UpdateSupportTicketInput → Action State (Unit {0})
  update_ticket id now input = do
    _ ← find_or db tickets_table (λ t. t.id == id) (not_found "Ticket not found")
    update db tickets_table (λ t. t.id == id) (edit_ticket now input)
