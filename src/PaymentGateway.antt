-- ===== src/PaymentGateway.antt =====
-- Payments through a gateway: `handleWebhook` of
-- `apps/api/src/payment-gateway/payment-gateway.service.ts`, over the invoices of Payments. The
-- gateway's reading of a webhook is a parameter, and so are JavaScript's numbers: the amounts of
-- an invoice are whole numbers of paisa, and are added and compared as doubles.
mod Tests
pub mod Ledger
pub mod Overlap
use skolara.Prelude.{
  ℕ, ◌+◌, ◌<◌, ◌≡◌, String, Bool, true, false, Option, none, some, ◌==◌, if◌then◌else◌,
}
use skolara.Prelude.Action.{Action, ok, err, record_missing}
use skolara.Store.{Prisma, update}
use skolara.Payments.{Invoice, State, paid, partially_paid, invoices_table}

-- The amounts in paisa that a column `Decimal(12, 2)` holds are less than this.
abbrev pub column_limit : ℕ
column_limit = 1000000000000

-- JavaScript's numbers: `Number` of a column, `+`, `>=`, and what a column keeps of a number.
-- The laws are those of sums that a column can hold: a double is much nearer to such a sum than
-- half a paisa, so the column keeps it exactly, and a comparison is right unless both sides are
-- equal. Then it may go either way: 0.7 + 0.1 >= 0.8 is false.
pub record Numbers (N : Type 0) : Type 0 where
  pub number : ℕ → N
  pub add : N → N → N
  pub at_least : N → N → Bool
  pub column : N → ℕ
  pub column_sum : (a b : ℕ) → a + b < column_limit → column (add (number a) (number b)) ≡ a + b
  pub sum_above :
      (a b d : ℕ)
      → a + b < column_limit
      → d < a + b
      → at_least (add (number a) (number b)) (number d) ≡ true
  pub sum_below :
      (a b d : ℕ)
      → d < column_limit
      → a + b < d
      → at_least (add (number a) (number b)) (number d) ≡ false

pub record VerifiedWebhookPayment (N : Type 0) : Type 0 where
  pub invoice_id : ℕ
  pub amount_paid : N

module _ {N : Type 0} (js : Numbers N) where
  -- The `data` of the update, made of the invoice that was read before it.
  abbrev pub set_total : Invoice → N → Invoice → Invoice
  set_total read amount i =
      let total = js.add (js.number read.amount_paid) amount in
      record i {
        amount_paid = js.column total;
        status = if js.at_least total (js.number read.amount_due) then paid else partially_paid;
      }

module _ {N : Type 0} (js : Numbers N) (db : Prisma)
    (parse : String → String → Option (VerifiedWebhookPayment N)) where
  -- What is written, of the invoice that was read before it.
  pub write_total : Invoice → VerifiedWebhookPayment N → Action State (Unit {0})
  write_total invoice payment =
      update db invoices_table (λ i. i.id == invoice.id) (set_total js invoice payment.amount_paid)

  -- Answers whether the webhook was handled.
  pub handle_webhook : (raw_body signature : String) → Action State Bool
  unfolding write_total
  handle_webhook raw_body signature s = elim (parse raw_body signature) [
    | none ↦ (ok false, s)
    | some payment ↦ elim (db.find_first (λ i. i.id == payment.invoice_id) s.invoices) [
      | none ↦ (ok false, s)
      | some invoice ↦
          let (r, s') = write_total invoice payment s in
          elim r [ ok _ ↦ (ok true, s') | err e ↦ (err e, s') ]
    ]
  ]
