-- ===== src/Commerce/Store/Subscriptions.antt =====
-- backend/internal/storage/commerce/subscription.go: the subscription surface of the store.
use vps_billing_workbuddy.Prelude.{Bool, Option, List, ◌==◌}
use vps_billing_workbuddy.Prelude.Int.{pos}
use vps_billing_workbuddy.Errors.{
  no_rows, subscription_not_found, order_not_found, invoice_not_found,
}
use vps_billing_workbuddy.Database.{done, failed, ◌>>=◌, pure, map_error, statement}
use vps_billing_workbuddy.Money.{Money, Currency}
use vps_billing_workbuddy.Ledger.{Uuid}
use vps_billing_workbuddy.Calendar.{Time}
use vps_billing_workbuddy.Commerce.States.{SubscriptionStatus}
use vps_billing_workbuddy.Commerce.Types.{Plan, Order, Invoice, InvoiceItem, Subscription}
use vps_billing_workbuddy.Commerce.Tables.{Wallet}
use vps_billing_workbuddy.Commerce.Store.{
  Call, when_no_rows, map_write_error, order_items, create_invoice_items,
}
use vps_billing_workbuddy.Commerce.Sql.Subscriptions as Sql

unfoldable pub create_subscription : Subscription → Call (Unit {0})
create_subscription s = map_error map_write_error (statement (Sql.create_subscription s))

unfoldable pub subscription_by_id : Uuid → Call Subscription
subscription_by_id id =
    map_error (when_no_rows subscription_not_found) (statement (Sql.subscription_by_id id))

unfoldable pub subscription_for_user : Uuid → Uuid → Call Subscription
subscription_for_user id user =
    map_error (when_no_rows subscription_not_found)
      (statement (Sql.subscription_by_id_for_user id user))

unfoldable pub list_subscriptions_for_user : Uuid → Call (List Subscription)
list_subscriptions_for_user user = statement (Sql.list_subscriptions_for_user user)

unfoldable pub subscriptions_past_deadline : Time → Call (List (Subscription × Plan))
subscriptions_past_deadline now = statement (Sql.subscriptions_past_deadline now)

unfoldable pub transition_subscription :
    Uuid → SubscriptionStatus → SubscriptionStatus → Option Time → Option Time → Time → Call Bool
transition_subscription id from to deadline ended_at at = do
  rows ← statement (Sql.transition_subscription id from to deadline ended_at at)
  pure (rows == 1)

unfoldable pub extend_subscription : Uuid → Time → Time → Call Bool
extend_subscription id start end = do
  rows ← statement (Sql.extend_subscription id start end)
  pure (rows == 1)

unfoldable pub set_cancel_at_period_end : Uuid → Uuid → Call Bool
set_cancel_at_period_end id user = do
  rows ← statement (Sql.set_cancel_at_period_end id user)
  pure (rows == 1)

unfoldable pub order_for_settlement : Uuid → Call Order
unfolding order_items
order_for_settlement id = do
  row ← map_error (when_no_rows order_not_found) (statement (Sql.order_by_id_for_settlement id))
  items ← order_items id
  pure (record row { items = items })

unfoldable pub create_subscription_invoice : Invoice → Call (Unit {0})
create_subscription_invoice i =
    map_error map_write_error (statement (Sql.create_subscription_invoice i))

unfoldable pub create_subscription_invoice_items : Uuid → List InvoiceItem → Call (Unit {0})
unfolding create_invoice_items
create_subscription_invoice_items id items = create_invoice_items id items

unfoldable pub open_renewal_invoice_for : Uuid → Call Invoice
open_renewal_invoice_for subscription =
    map_error (when_no_rows invoice_not_found)
      (statement (Sql.open_invoice_for_subscription subscription))

unfoldable pub mark_subscription_invoice_paid : Uuid → Call Bool
mark_subscription_invoice_paid id = do
  rows ← statement (Sql.mark_subscription_invoice_paid id)
  pure (rows == 1)

-- A customer without a wallet has an empty balance.
unfoldable pub balance_of : Currency → Call Wallet → Call Money
balance_of currency m w = elim (m w) [
  | done r w' ↦ done (record { amount_minor = r.balance_minor; currency = r.currency }) w'
  | failed no_rows w' ↦ done (record { amount_minor = pos 0; currency = currency }) w'
  | failed e w' ↦ failed e w'
]

unfoldable pub lock_wallet_for_spend : Uuid → Currency → Call Money
lock_wallet_for_spend user currency =
    balance_of currency (statement (Sql.lock_wallet_for_spend user currency))
