-- ===== src/Commerce/Settlement.antt =====
-- backend/internal/commerce/service.go: `Settle`, `settle` and `fail`, what a gateway's callback does.
pub mod Atomic
pub mod Activated
pub mod Once
pub mod Deliveries
mod Tests
use vps_billing_workbuddy.Prelude.{
  ℕ, String, Bool, true, false, not, Option, none, some, List, [], ◌∷◌, str_eq, if◌then◌else◌,
}
use vps_billing_workbuddy.Prelude.Int.{◌==ℤ◌}
use vps_billing_workbuddy.Errors.{
  Error, amount_mismatch, currency_mismatch, unsupported_notification, refuse_if,
}
use vps_billing_workbuddy.Database.{
  Action, ◌>>=◌, ◌>>◌, pure, throw, lift, within_transaction, fresh,
}
use vps_billing_workbuddy.Ledger.{
  Uuid, Entry, Transaction, Description, account_gateway_clearing, account_revenue,
  account_id_gateway_clearing, account_id_revenue, direction_debit, direction_credit,
  type_payment_settlement,
}
use vps_billing_workbuddy.Calendar.{Time}
use vps_billing_workbuddy.Commerce.States.{payment_is_settled}
use vps_billing_workbuddy.Commerce.Types.{Order, Payment}
use vps_billing_workbuddy.Commerce.Tables.{OutboxEvent, Value}
use vps_billing_workbuddy.Commerce.Gateway.{Gateways, Gateway, Notification, gateway_named}
use vps_billing_workbuddy.Commerce.Store.{
  Call, find_payment_by_gateway_ref, settle_payment, fail_payment, pay_order, post,
  record_outbox_event, append_gateway_payload,
}
use vps_billing_workbuddy.Commerce.Store.Subscriptions.{order_for_settlement}
use vps_billing_workbuddy.Commerce.Activation.{activate_subscriptions_from_order}

abbrev aggregate_payment : String
aggregate_payment = "payment"

-- `SettleResult`; its order is never set by the source, and left out.
pub record SettleResult : Type 0 where
  pub payment : Option Payment
  pub already_settled : Bool

-- The posting of a settlement: the clearing account is debited, revenue credited.
abbrev pub settlement_posting : Uuid → Payment → Transaction
settlement_posting id p = record {
  id = id;
  type = type_payment_settlement;
  reference_type = "payment";
  reference_id = p.id;
  description = Description.about "payment " p.payment_no;
  entries =
      record {
        account_type = account_gateway_clearing;
        account_id = account_id_gateway_clearing;
        direction = direction_debit;
        amount = p.amount;
      }
      ∷ record {
        account_type = account_revenue;
        account_id = account_id_revenue;
        direction = direction_credit;
        amount = p.amount;
      }
      ∷ [];
}

abbrev payment_payload : String → Payment → List (String × Value)
payment_payload gateway p =
    ("payment_no", Value.number_text p.payment_no)
    ∷ ("order_id", Value.id_text p.order_id)
    ∷ ("gateway", Value.text gateway)
    ∷ ("gateway_payment_id", Value.text p.gateway_payment_id)
    ∷ ("amount_minor", Value.amount p.amount.amount_minor)
    ∷ ("currency", Value.text p.amount.currency)
    ∷ []

abbrev pub succeeded_event : Uuid → String → Payment → Time → OutboxEvent
succeeded_event id gateway p now = record {
  id = id;
  event_type = "payment.succeeded.v1";
  aggregate_type = aggregate_payment;
  aggregate_id = p.id;
  payload = ("paid_at", Value.rfc3339 now) ∷ payment_payload gateway p;
}

abbrev pub failed_event : Uuid → String → Payment → OutboxEvent
failed_event id gateway p = record {
  id = id;
  event_type = "payment.failed.v1";
  aggregate_type = aggregate_payment;
  aggregate_id = p.id;
  payload = payment_payload gateway p;
}

abbrev pub not_applied : SettleResult
not_applied = record { payment = none; already_settled = true }

module _ (new_uuid : ℕ → Uuid) where
  -- What the winner of the conditional transition writes.
  unfoldable pub settle_applied : String → Transaction → Time → Payment → Call SettleResult
  settle_applied gateway posting now paid = do
    pay_order paid.order_id now
    order ← order_for_settlement paid.order_id
    activate_subscriptions_from_order new_uuid order now
    post new_uuid posting
    event_id ← fresh new_uuid
    record_outbox_event (succeeded_event event_id gateway paid now)
    pure (record { payment = some paid; already_settled = false })

  abbrev pub settle_won : String → Transaction → Time → Option Payment → Call SettleResult
  settle_won gateway posting now none = pure not_applied
  settle_won gateway posting now (some paid) = settle_applied gateway posting now paid

  -- The body of the transaction, for the payment as it was read before.
  unfoldable pub settle_body : String → Transaction → Time → Payment → Call SettleResult
  settle_body gateway posting now stored = do
    paid ← settle_payment stored.id now
    settle_won gateway posting now paid

  -- `settle` after the payment was read.
  unfoldable pub settle_stored : String → Notification → Time → Payment → Call SettleResult
  settle_stored gateway n now stored = do
    lift (refuse_if (not (stored.amount.amount_minor ==ℤ n.amount.amount_minor)) amount_mismatch)
    lift (refuse_if (not (str_eq stored.amount.currency n.amount.currency)) currency_mismatch)
    if payment_is_settled stored.status
        then pure (record { payment = some stored; already_settled = true })
        else (do
          posting_id ← fresh new_uuid
          within_transaction
              (settle_body gateway (settlement_posting posting_id stored) now stored))

  unfoldable pub settle_succeeded : String → Notification → Time → Call SettleResult
  settle_succeeded gateway n now = do
    stored ← find_payment_by_gateway_ref gateway n.gateway_payment_id
    settle_stored gateway n now stored

  abbrev fail_won : String → Notification → Payment → Option Payment → Call SettleResult
  fail_won gateway n stored none = pure not_applied
  fail_won gateway n stored (some p) = do
    append_gateway_payload stored.id n.payload
    event_id ← fresh new_uuid
    record_outbox_event (failed_event event_id gateway p)
    pure (record { payment = some p; already_settled = false })

  unfoldable pub fail_body : String → Notification → Time → Payment → Call SettleResult
  fail_body gateway n now stored = do
    failed_payment ← fail_payment stored.id now
    fail_won gateway n stored failed_payment

  -- `fail`
  unfoldable pub settle_failed : String → Notification → Time → Call SettleResult
  settle_failed gateway n now = do
    stored ← find_payment_by_gateway_ref gateway n.gateway_payment_id
    if payment_is_settled stored.status
        then throw unsupported_notification
        else within_transaction (fail_body gateway n now stored)

  -- The switch on the notification's status.
  unfoldable pub settle_notification : String → Notification → Time → Call SettleResult
  settle_notification gateway n now =
      if str_eq n.status "succeeded"
      then settle_succeeded gateway n now
      else if str_eq n.status "failed"
      then settle_failed gateway n now
      else throw unsupported_notification

  -- `Settle`: the signature is verified before anything is looked up.
  unfoldable pub settle : Gateways → String → String → String → Time → Call SettleResult
  settle gateways name body signature now = do
    gateway ← lift (gateway_named gateways name)
    n ← lift (gateway.verify body signature)
    settle_notification name n now
