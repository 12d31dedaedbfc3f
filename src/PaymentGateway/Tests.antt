-- ===== src/PaymentGateway/Tests.antt =====
-- Runs of the payment gateway, and the theorems about it at concrete inputs.
use skolara.Prelude.{ℕ, ◌+◌, ◌≡◌, refl, true, String, Option, some, [], ◌∷◌, inl, ltb, arith}
use skolara.Prelude.Action.{ok}
use skolara.Store.{listed}
use skolara.Payments.{Invoice, State, unpaid, partially_paid}
use skolara.PaymentGateway.{Numbers, VerifiedWebhookPayment, handle_webhook, write_total}
use skolara.PaymentGateway.Ledger.{IsTallied, with_payment, handle_webhook-IsTallied}
use skolara.PaymentGateway.Overlap.{write_total-overlap}

-- Numbers that are exact but for comparisons of equal amounts, which fail as those of 0.7 + 0.1
-- and 0.8 do.
abbrev short_sums : Numbers ℕ
short_sums = record {
  number = λ a. a;
  add = ◌+◌;
  at_least = λ a d. ltb d a;
  column = λ a. a;
  column_sum = λ a b l. refl;
  sum_above = λ a b d l k. ground (arith, k);
  sum_below = λ a b d l k. ground (arith, k);
}

abbrev fee : Invoice
fee = record {
  id = 1;
  school_id = 7;
  student_id = 3;
  amount_due = 500;
  amount_paid = 0;
  status = unpaid;
}

abbrev books : State
books = record { invoices = fee ∷ []; submissions = []; sequences = []; students = []; links = [] }

abbrev nothing : ℕ → ℕ
nothing id = 0

abbrev part : VerifiedWebhookPayment ℕ
part = record { invoice_id = 1; amount_paid = 200 }

abbrev read_part : String → String → Option (VerifiedWebhookPayment ℕ)
read_part raw_body signature = some part

books-IsTallied : IsTallied nothing books
books-IsTallied = record { invoice_ids = (refl, tt); tallies = ((refl, inl refl, omega arith), tt) }

handled : (handle_webhook short_sums listed read_part "body" "signature" books).0 ≡ ok true
unfolding handle_webhook write_total
handled = refl

-- An invoice that is paid exactly, in a sum that falls short, is left partially paid.
exactly_paid :
    (write_total short_sums listed read_part fee
      (record { invoice_id = 1; amount_paid = 500 })
      books).1.invoices
    ≡ record fee { amount_paid = 500; status = partially_paid } ∷ []
unfolding write_total
exactly_paid = refl

handle_webhook-IsTallied_example :
    IsTallied
      (with_payment nothing 1 200)
      (handle_webhook short_sums listed read_part "body" "signature" books).1
handle_webhook-IsTallied_example =
    handle_webhook-IsTallied short_sums listed read_part nothing "body" "signature" 1 200 books refl
      books-IsTallied ((λ e. omega arith), tt) handled

write_total-overlap_example :
    write_total short_sums listed read_part fee part
      (write_total short_sums listed read_part fee part books).1
    ≡ write_total short_sums listed read_part fee part books
write_total-overlap_example = write_total-overlap short_sums listed read_part fee part part books
