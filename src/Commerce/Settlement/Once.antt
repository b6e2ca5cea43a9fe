-- ===== src/Commerce/Settlement/Once.antt =====
-- What the winner of a payment's transition writes (commerce/service.go `settle`).
use vps_billing_workbuddy.Prelude.{
  ℕ, String, ◌≡◌, ◌≢◌, refl, sym, ap, ◌∙◌, Bool, false, some, List, [], ◌∷◌, ◌++◌, ◌==◌,
}
use mathlib.Core.List.{append_assoc}
use vps_billing_workbuddy.Errors.{ok}
use vps_billing_workbuddy.Database.{World, done, >>=-eq-done}
use vps_billing_workbuddy.Ledger.{
  Uuid, Transaction, Description, verify, account_gateway_clearing, account_revenue,
  account_id_gateway_clearing, account_id_revenue,
}
use vps_billing_workbuddy.Calendar.{Time}
use vps_billing_workbuddy.Commerce.Types.{Order, Payment, Subscription}
use vps_billing_workbuddy.Commerce.Tables.{
  Tables, OutboxEvent, Value, first_where, update_where, count_where,
}
use vps_billing_workbuddy.Commerce.Sql
use vps_billing_workbuddy.Commerce.Store.{post}
use vps_billing_workbuddy.Commerce.Store.Effects.{
  pure-eq-done, pay_order_lem, record_outbox_event_lem, fresh-eq-done, paid_order, paid_invoice,
}
use vps_billing_workbuddy.Commerce.Store.Postings.{with_posting, post_lem, apply_projection_none}
use vps_billing_workbuddy.Commerce.States.{PaymentStatus}
use vps_billing_workbuddy.Commerce.Settlement.Activated.{
  lines_of, AreActivated, order_for_settlement_lem, activated_lem,
}
use vps_billing_workbuddy.Commerce.Settlement.{
  SettleResult, settlement_posting, succeeded_event, settle_applied,
}

-- The posting that is asked of a settlement: the clearing account is debited with the amount of the
-- payment, and revenue credited.
abbrev pub revenue_posting : Uuid → Payment → Transaction
revenue_posting id p = record {
  id = id;
  type = "payment_settlement";
  reference_type = "payment";
  reference_id = p.id;
  description = Description.about "payment " p.payment_no;
  entries =
      record {
        account_type = account_gateway_clearing;
        account_id = account_id_gateway_clearing;
        direction = "debit";
        amount = p.amount;
      }
      ∷ record {
        account_type = account_revenue;
        account_id = account_id_revenue;
        direction = "credit";
        amount = p.amount;
      }
      ∷ [];
}

-- The payment that is asked for: succeeded, and paid now.
abbrev pub paid_now : Time → Payment → Payment
paid_now now p = record p { status = PaymentStatus.succeeded; paid_at = some now }

-- The event that is asked for.
abbrev pub payment_told : Uuid → String → Payment → Time → OutboxEvent
payment_told id gateway p now = record {
  id = id;
  event_type = "payment.succeeded.v1";
  aggregate_type = "payment";
  aggregate_id = p.id;
  payload =
      ("paid_at", Value.rfc3339 now)
      ∷ ("payment_no", Value.number_text p.payment_no)
      ∷ ("order_id", Value.id_text p.order_id)
      ∷ ("gateway", Value.text gateway)
      ∷ ("gateway_payment_id", Value.text p.gateway_payment_id)
      ∷ ("amount_minor", Value.amount p.amount.amount_minor)
      ∷ ("currency", Value.text p.amount.currency)
      ∷ [];
}

-- The tables after a settlement: the payment, its order and the order's open invoice are paid, the
-- posting is in the ledger, and the subscriptions and events are added, the payment's own last.
abbrev pub settled_tables :
    Uuid → Time → Transaction → Payment → List Subscription → List OutboxEvent → Tables → Tables
settled_tables id now posting paid subscriptions events t = with_posting posting (record t {
  payments = update_where (Sql.is_unsettled id) (paid_now now) t.payments;
  orders = update_where (Sql.is_payable paid.order_id) (paid_order now) t.orders;
  invoices = update_where (Sql.is_order_bill paid.order_id) paid_invoice t.invoices;
  subscriptions = t.subscriptions ++ subscriptions;
  outbox = t.outbox ++ events;
})

-- All that a settlement of the payment `paid` has done.
pub record Settles (id : Uuid) (now : Time) (gateway : String) (posting : Transaction)
    (paid : Payment) (t t' : Tables) : Type 0 where
  pub subscriptions : List Subscription
  pub activations : List OutboxEvent
  pub event_id : Uuid
  pub tables :
      t'
      ≡ settled_tables id now posting paid subscriptions
          (activations ++ payment_told event_id gateway paid now ∷ [])
          t
  pub order : Order
  pub ordered : first_where (λ (o : Order). o.id == paid.order_id) t'.orders ≡ some order
  pub activated :
      AreActivated now order.user_id order.id
        (lines_of paid.order_id t.order_items)
        subscriptions
        activations
  pub verified : verify posting ≡ ok tt
  pub payable : count_where (Sql.is_payable paid.order_id) t.orders ≢ 0
  pub billed : count_where (Sql.is_order_bill paid.order_id) t.invoices ≢ 0

module _ (new_uuid : ℕ → Uuid) where
  settlement_post_lem :
      (p : Payment) (id : Uuid) (w : World Tables) {u : Unit {0}} {w' : World Tables}
      → post new_uuid (settlement_posting id p) w ≡ done u w'
      → (verify (settlement_posting id p) ≡ ok tt)
        × (w'.db ≡ with_posting (settlement_posting id p) w.db)
  settlement_post_lem p id w h =
      let (checked, (v, tables, applied)) = post_lem new_uuid (settlement_posting id p) w h in
      (
        checked,
        ap World.db (apply_projection_none new_uuid _ v (refl, (refl, tt)) applied) ∙ tables,
      )

  -- What the winner of the transition has written, on the tables where the payment has moved.
  pub settle_applied_lem :
      (id posting_id : Uuid) (gateway : String) (stored : Payment) (now : Time) (paid : Payment)
      (before : Tables) (w : World Tables) {r : SettleResult} {w' : World Tables}
      → w.db ≡ record before {
        payments = update_where (Sql.is_unsettled id) (Sql.settled_row now) before.payments;
      }
      → settle_applied new_uuid gateway (settlement_posting posting_id stored) now paid w
        ≡ done r w'
      → (r ≡ record { payment = some paid; already_settled = false })
        × Settles id now gateway (settlement_posting posting_id stored) paid before w'.db
  unfolding settle_applied
  settle_applied_lem id posting_id gateway stored now paid before w moved h =
      let (a, v0, paying, h0) = >>=-eq-done _ _ w h in
      let (payable, billed, t0) = pay_order_lem paid.order_id now w paying in
      let (order, v1, reading, h1) = >>=-eq-done _ _ v0 h0 in
      let (t1, lines, (row, there, user, same_id)) =
        order_for_settlement_lem paid.order_id v0 reading in
      let (b, v2, activating, h2) = >>=-eq-done _ _ v1 h1 in
      let added = activated_lem new_uuid order now v1 activating in
      let (c, v3, posting, h3) = >>=-eq-done _ _ v2 h2 in
      let (verified, t3) = settlement_post_lem stored posting_id v2 posting in
      let (event_id, v4, drawing, h4) = >>=-eq-done _ _ v3 h3 in
      let t4 = fresh-eq-done new_uuid v3 drawing in
      let (d, v5, recording, h5) = >>=-eq-done _ _ v4 h4 in
      let t5 = record_outbox_event_lem _ v4 recording in
      let (result, same) = pure-eq-done _ v5 h5 in
      let start = rw moved at t0 in
      let activated = rw (t1 ∙ start) at added.tables in
      let posted = rw activated at t3 in
      let ordered : Order → Bool = λ o. o.id == paid.order_id in
      let ended = ap World.db same ∙ rw (t4 ∙ posted) at t5 in
      (
        sym result,
        record {
          subscriptions = added.subscriptions;
          activations = added.events;
          event_id = event_id;
          tables =
              ended
              ∙ ap
                  (λ z.
                    record (settled_tables id now (settlement_posting posting_id stored) paid
                      added.subscriptions [] before) { outbox = z })
                  (append_assoc before.outbox added.events
                    (succeeded_event event_id gateway paid now ∷ []));
          order = row;
          ordered =
              ap (λ (t : Tables). first_where ordered t.orders) ended
              ∙ (sym (ap (λ (t : Tables). first_where ordered t.orders) start) ∙ there);
          activated = rw start at (rw lines at (rw same_id at (rw user at added.activated)));
          verified = verified;
          payable = rw moved at payable;
          billed = rw moved at billed;
        },
      )
