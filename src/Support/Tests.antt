-- ===== src/Support/Tests.antt =====
-- Runs of the support service, and the theorems about it at concrete inputs.
use skolara.Prelude.{◌≡◌, refl, In, All, none, some, [], ◌∷◌, true, false}
use skolara.Prelude.Action.{ok, err, not_found}
use skolara.Store.{listed}
use skolara.Auth.{school_admin}
use skolara.Support.{
  State, SupportTicket, SupportTicketComment, AuthenticatedUser, AddSupportCommentInput, opened,
  normal, find_one, add_comment, assert_visible,
}
use skolara.Support.Visibility.{find_one-confides}

abbrev ticket : SupportTicket
ticket = record {
  id = 1;
  school_id = 7;
  raised_by_user_id = 20;
  subject = "Reports";
  body = "They are empty.";
  status = opened;
  priority = normal;
  resolved_at = none;
  created_at = 5;
}

abbrev reply : SupportTicketComment
reply = record {
  id = 2;
  ticket_id = 1;
  author_user_id = 90;
  body = "We are looking.";
  internal = false;
  created_at = 6;
}

abbrev desk : State
desk = record {
  tickets = ticket ∷ [];
  comments = record reply { id = 3; internal = true } ∷ reply ∷ [];
}

abbrev head : AuthenticatedUser
head = record { id = 20; role = school_admin; school_id = some 7 }

-- Another school's admin does not find the ticket.
find_one-stranger :
    (find_one listed (record head { school_id = some 8 }) 1 desk).0
    ≡ err (not_found "Ticket not found")
unfolding find_one
find_one-stranger = refl

found_reply : (find_one listed head 1 desk).0 ≡ ok (ticket, reply ∷ [])
unfolding find_one
found_reply = refl

find_one-confides_example :
    In ticket desk.tickets
    × (ticket.id ≡ 1)
    × (head.school_id ≡ some ticket.school_id)
    × All (λ c. In c desk.comments × (c.ticket_id ≡ 1) × (c.internal ≡ false)) (reply ∷ [])
find_one-confides_example =
    find_one-confides listed head 1 desk ticket (reply ∷ []) refl found_reply

abbrev note : AddSupportCommentInput
note = record { body = "Thanks"; internal = true }

abbrev thanks : SupportTicketComment
thanks = record {
  id = 4;
  ticket_id = 1;
  author_user_id = 20;
  body = "Thanks";
  internal = false;
  created_at = 9;
}

added : (add_comment listed head 1 4 9 note desk).0 ≡ ok thanks
unfolding add_comment assert_visible
added = refl
