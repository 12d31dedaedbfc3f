-- ===== src/PaymentGateway/Overlap.antt =====
-- Two webhooks for one invoice that both read it before either writes.
use skolara.Prelude.{◌≡◌, refl, String, List, [], ◌∷◌, Option, arith, ◌==◌, update_by, count_by}
use skolara.Store.{Prisma}
use skolara.Payments.{Invoice, State}
use skolara.PaymentGateway.{Numbers, VerifiedWebhookPayment, set_total, write_total}

module _ {N : Type 0} (js : Numbers N) where
  twice-update_by :
      (read : Invoice) (a b : N) (invoices : List Invoice)
      → update_by
          (λ i. i.id == read.id)
          (set_total js read b)
          (update_by (λ i. i.id == read.id) (set_total js read a) invoices)
        ≡ update_by (λ i. i.id == read.id) (set_total js read b) invoices
  twice-update_by read a b [] = refl
  twice-update_by read a b (i ∷ invoices) = ground (arith, twice-update_by read a b invoices)

  count-update_by :
      (read : Invoice) (a : N) (invoices : List Invoice)
      → count_by
          (λ i. i.id == read.id)
          (update_by (λ i. i.id == read.id) (set_total js read a) invoices)
        ≡ count_by (λ i. i.id == read.id) invoices
  count-update_by read a [] = refl
  count-update_by read a (i ∷ invoices) = ground (arith, count-update_by read a invoices)

-- Of two webhooks that read one invoice before either writes, the payment that is written first
-- leaves no trace: the second answers and leaves what it would have without the first.
pub write_total-overlap :
    {N : Type 0} (js : Numbers N) (db : Prisma)
    (parse : String → String → Option (VerifiedWebhookPayment N)) (read : Invoice)
    (first second : VerifiedWebhookPayment N) (s : State)
    → write_total js db parse read second (write_total js db parse read first s).1
      ≡ write_total js db parse read second s
unfolding write_total
write_total-overlap js db parse read first second s =
    let is_it = λ (i : Invoice). i.id == read.id in
    let once = update_by is_it (set_total js read first.amount_paid) s.invoices in
    ground (
      arith,
      db.update_many_lem is_it (set_total js read first.amount_paid) s.invoices,
      db.update_many_lem is_it (set_total js read second.amount_paid) s.invoices,
      db.update_many_lem is_it (set_total js read second.amount_paid) once,
      twice-update_by js read first.amount_paid second.amount_paid s.invoices,
      count-update_by js read first.amount_paid s.invoices,
    )
