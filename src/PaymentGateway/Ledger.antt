-- ===== src/PaymentGateway/Ledger.antt =====
-- The ledger of Payments under the webhooks of a gateway.
use skolara.Prelude.{
  ℕ, ◌+◌, ◌≤◌, ◌<◌, ◌≡◌, ◌⊎◌, refl, String, true, List, Option, some, arith, ◌==◌, In, All, All-In,
  All-update_by, update_by, if◌then◌else◌, sum_by, ltb, false, ap, Bool-cases, Option-cases, inl,
  inr,
}
use skolara.Prelude.Action.{ok}
use skolara.Store.{Prisma, Unique, found_row, Unique-update_by, eq_of_key}
use skolara.Payments.{Invoice, PaymentSubmission, State, paid, partially_paid}
use skolara.Payments.Ledger.{credited}
use skolara.PaymentGateway.{
  Numbers, VerifiedWebhookPayment, column_limit, set_total, write_total, handle_webhook,
}

-- What reached the invoices another way than by submissions, with one payment more.
abbrev pub with_payment : (ℕ → ℕ) → (invoice_id amount : ℕ) → ℕ → ℕ
with_payment other invoice_id amount n = if n == invoice_id then other n + amount else other n

-- Once anything is paid, the status says whether it is enough, and either where it is exact.
abbrev pub IsMarked : Invoice → Type 0
IsMarked i =
    (i.amount_paid ≡ 0)
    ⊎ ((i.status ≡ paid) × (i.amount_due ≤ i.amount_paid))
    ⊎ ((i.status ≡ partially_paid) × (i.amount_paid ≤ i.amount_due))

abbrev pub Tallies : (ℕ → ℕ) → List PaymentSubmission → Invoice → Type 0
Tallies other submissions i =
    (i.amount_paid ≡ other i.id + sum_by (credited i.id) submissions)
    × IsMarked i
    × (i.amount_due < column_limit)

pub record IsTallied (other : ℕ → ℕ) (s : State) : Type 0 where
  pub invoice_ids : Unique Invoice.id s.invoices
  pub tallies : All (Tallies other s.submissions) s.invoices

module _ {N : Type 0} (js : Numbers N) where
  -- A sum that reaches an amount is no less, and one that does not is no more.
  enough :
      (a b d : ℕ)
      → d < column_limit
      → js.at_least (js.add (js.number a) (js.number b)) (js.number d) ≡ true
      → d ≤ a + b
  enough a b d l q = elim (Bool-cases (ltb (a + b) d)) [
    | inl k ↦ ground (arith, k, q, js.sum_below a b d l (ground (arith, k)))
    | inr k ↦ ground (arith, k)
  ]

  short :
      (a b d : ℕ)
      → a + b < column_limit
      → js.at_least (js.add (js.number a) (js.number b)) (js.number d) ≡ false
      → a + b ≤ d
  short a b d l q = elim (Bool-cases (ltb d (a + b))) [
    | inl k ↦ ground (arith, k, q, js.sum_above a b d l (ground (arith, k)))
    | inr k ↦ ground (arith, k)
  ]

  set_total-IsMarked :
      (read i : Invoice) (n : ℕ)
      → read.amount_due < column_limit
      → read.amount_paid + n < column_limit
      → i.amount_due ≡ read.amount_due
      → IsMarked (set_total js read (js.number n) i)
  set_total-IsMarked read i n d l e =
      let kept = js.column_sum read.amount_paid n l in
      elim (Bool-cases (
        js.at_least (js.add (js.number read.amount_paid) (js.number n))
          (js.number read.amount_due))) [
            | inl q ↦ inr (
                inl (
                  ground (arith, q),
                  omega (arith, e, kept, enough read.amount_paid n read.amount_due d q),
                ))
            | inr q ↦ inr (
                inr (
                  ground (arith, q),
                  omega (arith, e, kept, short read.amount_paid n read.amount_due l q),
                ))
          ]

  totalled-Tallies :
      (other : ℕ → ℕ) (id n : ℕ) (read : Invoice) (s : State)
      → IsTallied other s
      → In read s.invoices
      → read.id ≡ id
      → read.amount_paid + n < column_limit
      → All
          (Tallies (with_payment other id n) s.submissions)
          (update_by (λ i. i.id == read.id) (set_total js read (js.number n)) s.invoices)
  totalled-Tallies other id n read s v m e l =
      All-update_by (Tallies other s.submissions) (Tallies (with_payment other id n) s.submissions)
        (λ i. i.id == read.id) (set_total js read (js.number n)) s.invoices
        (λ i k h. elim (Bool-cases (i.id == read.id)) [
          | inl t ↦
              let same =
                eq_of_key Invoice.id s.invoices i read v.invoice_ids k m (ground (arith, t)) in
              let due = ap Invoice.amount_due same in
              rw t (
                ground (arith, t, e, same, h.0, js.column_sum read.amount_paid n l),
                set_total-IsMarked read i n (omega (arith, due, h.2)) l due,
                h.2,
              )
          | inr t ↦ ground (arith, t, e, h)
        ])
        v.tallies

module _ {N : Type 0} (js : Numbers N) (db : Prisma)
    (parse : String → String → Option (VerifiedWebhookPayment N)) where
  -- A webhook that is handled, of a whole number of paisa and a total that its column can hold,
  -- is counted on its invoice: where the ids of the invoices are unique, their amounts due fit
  -- the column, and every invoice has been paid what its verified submissions claimed, besides a
  -- given amount that reached it another way, and once anything is paid is marked paid only if
  -- that is enough and partially paid only if it is no more than is due, the same holds after it
  -- of the amounts with the payment added.
  pub handle_webhook-IsTallied :
      (other : ℕ → ℕ) (raw_body signature : String) (id n : ℕ) (s : State)
      → parse raw_body signature ≡ some (record { invoice_id = id; amount_paid = js.number n })
      → IsTallied other s
      → All (λ i. i.id ≡ id → i.amount_paid + n < column_limit) s.invoices
      → (handle_webhook js db parse raw_body signature s).0 ≡ ok true
      → IsTallied (with_payment other id n) (handle_webhook js db parse raw_body signature s).1
  unfolding handle_webhook write_total
  handle_webhook-IsTallied other raw_body signature id n s p v b h =
      elim (Option-cases (db.find_first (λ (i : Invoice). i.id == id) s.invoices)) [
        | inl e ↦ ground (arith, p, h, e)
        | inr (read, e) ↦
            let (m, q) = found_row db (λ (i : Invoice). i.id == id) s.invoices e in
            let same : read.id ≡ id = ground (arith, q) in
            let is_it = λ (i : Invoice). i.id == read.id in
            let f = set_total js read (js.number n) in
            ground (
              arith,
              p,
              h,
              e,
              db.update_many_lem is_it f s.invoices,
              Unique-update_by Invoice.id is_it f s.invoices (λ i. refl) v.invoice_ids,
              totalled-Tallies js other id n read s v m same (
                  All-In (λ i. i.id ≡ id → i.amount_paid + n < column_limit) read s.invoices b m
                    same),
            )
      ]
