-- ===== src/Commerce/Store/Effects.antt =====
-- What the store's writes of a settlement have done to the tables when they are done.
pub use vps_billing_workbuddy.Database.{
  lift-eq-done, pure-eq-done, map_error-eq-done, if_applied-eq-done, throw-eq-done, fresh-eq-done,
  ok_pair, inserted,
}
use vps_billing_workbuddy.Database.{returning-eq-ok, returning-eq-err}
use vps_billing_workbuddy.Prelude.{
  ℕ, ◌≡◌, ◌≢◌, sym, ap, ◌∙◌, ◌⊎◌, inl, inr, Option, none, some, [], ◌∷◌, ◌++◌, arith, if◌then◌else◌,
  ◌==◌, Bool-cases,
}
use vps_billing_workbuddy.Errors.{Error, ok, err, no_rows, no_open_invoice, order_not_found}
use vps_billing_workbuddy.Database.{
  World, done, pure, throw, statement, >>=-eq-done, statement-eq-done, statement-eq-failed,
  statement-eq-no_rows,
}
use vps_billing_workbuddy.Ledger.{Uuid}
use vps_billing_workbuddy.Calendar.{Time}
use vps_billing_workbuddy.Commerce.States.{OrderStatus}
use vps_billing_workbuddy.Commerce.Types.{Order, Payment, Invoice, InvoiceStatus}
use vps_billing_workbuddy.Commerce.Tables.{
  Tables, OutboxEvent, first_where, update_where, count_where,
}
use vps_billing_workbuddy.Rows.Laws.{first_where-count}
use vps_billing_workbuddy.Commerce.Sql
use vps_billing_workbuddy.Commerce.Store.{
  Call, settle_payment, pay_bill, pay_order, record_outbox_event,
}

settle_found :
    (id : Uuid) (at : Time) (w : World Tables) {p : Payment} {t : Tables}
    → Sql.settle_payment id at w.db ≡ ok (p, t)
    → (q : Payment) × (first_where (Sql.is_unsettled id) w.db.payments ≡ some q)
      × (p ≡ Sql.settled_row at q)
      × (t ≡ record w.db {
        payments = update_where (Sql.is_unsettled id) (Sql.settled_row at) w.db.payments;
      })
unfolding Sql.settle_payment
settle_found id at w h =
    returning-eq-ok (first_where (Sql.is_unsettled id) w.db.payments) (Sql.settled_row at) _ h

settle_missed :
    (id : Uuid) (at : Time) (w : World Tables)
    → Sql.settle_payment id at w.db ≡ err no_rows
    → first_where (Sql.is_unsettled id) w.db.payments ≡ none
unfolding Sql.settle_payment
settle_missed id at w h =
    returning-eq-err (first_where (Sql.is_unsettled id) w.db.payments) (Sql.settled_row at) _ h

-- `SettlePayment` either finds no unsettled row and changes nothing, or settles it.
pub settle_payment_lem :
    (id : Uuid) (at : Time) (w : World Tables) {o : Option Payment} {w' : World Tables}
    → settle_payment id at w ≡ done o w'
    → ((o ≡ none) × (w'.db ≡ w.db) × (count_where (Sql.is_unsettled id) w.db.payments ≡ 0))
      ⊎ ((p : Payment) × (first_where (Sql.is_unsettled id) w.db.payments ≡ some p)
          × (o ≡ some (Sql.settled_row at p))
          × (w'.db ≡ record w.db {
            payments = update_where (Sql.is_unsettled id) (Sql.settled_row at) w.db.payments;
          }))
unfolding settle_payment Sql.settle_payment
settle_payment_lem id at w h =
    elim (if_applied-eq-done (statement (Sql.settle_payment id at)) w h) [
      | inl (e, missed) ↦ inl (
        e,
        statement-eq-failed _ w missed,
        first_where-count (Sql.is_unsettled id) w.db.payments
            (settle_missed id at w (statement-eq-no_rows _ w missed)),
      )
      | inr (p, e, won) ↦
          let (q, found, row, tables) = settle_found id at w (statement-eq-done _ w won).0 in
          inr (q, found, e ∙ ap some row, tables)
    ]

abbrev pub paid_order : Time → Order → Order
paid_order at o = record o { status = OrderStatus.paid; paid_at = some at }

abbrev pub paid_invoice : Invoice → Invoice
paid_invoice i = record i { status = InvoiceStatus.paid_status }

pay_order_rows :
    (id : Uuid) (at : Time) (t : Tables) {n : ℕ} {t' : Tables}
    → Sql.pay_order id at t ≡ ok (n, t')
    → (count_where (Sql.is_payable id) t.orders ≡ n)
      × (t' ≡ record t { orders = update_where (Sql.is_payable id) (paid_order at) t.orders })
unfolding Sql.pay_order
pay_order_rows id at t h = ((ok_pair h).0, sym (ok_pair h).1)

mark_invoice_rows :
    (id : Uuid) (at : Time) (t : Tables) {n : ℕ} {t' : Tables}
    → Sql.mark_invoice_paid id at t ≡ ok (n, t')
    → (count_where (Sql.is_order_bill id) t.invoices ≡ n)
      × (t' ≡ record t { invoices = update_where (Sql.is_order_bill id) paid_invoice t.invoices })
unfolding Sql.mark_invoice_paid
mark_invoice_rows id at t h = ((ok_pair h).0, sym (ok_pair h).1)

if_zero-eq-done :
    {A : Type 0} (n : ℕ) (e : Error) (m : Call A) (w : World Tables) {a : A} {w' : World Tables}
    → (if n == 0 then throw e else m) w ≡ done a w'
    → (n ≢ 0) × (m w ≡ done a w')
if_zero-eq-done n e m w h = elim (Bool-cases (n == 0)) [
  | inl zero_rows ↦ throw-eq-done e w (rw zero_rows at h)
  | inr some_rows ↦ (ground arith, rw some_rows at h)
]

pay_bill_lem :
    (id : Uuid) (at : Time) (w : World Tables) {u : Unit {0}} {w' : World Tables}
    → pay_bill id at w ≡ done u w'
    → (count_where (Sql.is_order_bill id) w.db.invoices ≢ 0)
      × (w'.db ≡ record w.db {
        invoices = update_where (Sql.is_order_bill id) paid_invoice w.db.invoices;
      })
pay_bill_lem id at w h =
    let (n, v, marked, rest) = >>=-eq-done _ _ w h in
    let (count, tables) = mark_invoice_rows id at w.db (statement-eq-done _ w marked).0 in
    let (some_row, ended) = if_zero-eq-done n no_open_invoice (pure tt) v rest in
    let same = (pure-eq-done tt v ended).1 in (rw count some_row, ap World.db same ∙ tables)

-- `PayOrder` has moved the pending order to paid and its open invoice with it, and nothing else.
pub pay_order_lem :
    (id : Uuid) (at : Time) (w : World Tables) {u : Unit {0}} {w' : World Tables}
    → pay_order id at w ≡ done u w'
    → (count_where (Sql.is_payable id) w.db.orders ≢ 0)
      × (count_where (Sql.is_order_bill id) w.db.invoices ≢ 0)
      × (w'.db ≡ record w.db {
        orders = update_where (Sql.is_payable id) (paid_order at) w.db.orders;
        invoices = update_where (Sql.is_order_bill id) paid_invoice w.db.invoices;
      })
unfolding pay_order
pay_order_lem id at w h =
    let (n, v, paid, rest) = >>=-eq-done _ _ w h in
    let (count, tables) = pay_order_rows id at w.db (statement-eq-done _ w paid).0 in
    let (some_row, billed) = if_zero-eq-done n order_not_found (pay_bill id at) v rest in
    let (bills, tables') = pay_bill_lem id at v billed in
    (rw count some_row, rw tables at bills, rw tables at tables')

event_rows :
    (e : OutboxEvent) (t : Tables) {u : Unit {0}} {t' : Tables}
    → Sql.create_outbox_event e t ≡ ok (u, t')
    → t' ≡ record t { outbox = t.outbox ++ e ∷ [] }
unfolding Sql.create_outbox_event
event_rows e t h = inserted _ _ _ h

pub record_outbox_event_lem :
    (e : OutboxEvent) (w : World Tables) {u : Unit {0}} {w' : World Tables}
    → record_outbox_event e w ≡ done u w'
    → w'.db ≡ record w.db { outbox = w.db.outbox ++ e ∷ [] }
unfolding record_outbox_event
record_outbox_event_lem e w h = event_rows e w.db (statement-eq-done _ w h).0
