-- ===== src/Commerce/Tables.antt =====
-- The commerce tables (the rows of backend/internal/db/sqlcgen), and how a statement selects and
-- updates rows. A row is the domain's record; an order's lines and an invoice's are rows of their own.
unfoldable pub use vps_billing_workbuddy.Rows.{first_where, all_where, update_where, count_where}
use vps_billing_workbuddy.Prelude.{String, List}
use vps_billing_workbuddy.Prelude.Int.{ℤ}
use vps_billing_workbuddy.Money.{Currency}
use vps_billing_workbuddy.Numbers.{Number}
use vps_billing_workbuddy.Ledger.{Uuid, Entry, Transaction}
use vps_billing_workbuddy.Calendar.{Time}
use vps_billing_workbuddy.Commerce.States.{SubscriptionStatus}
use vps_billing_workbuddy.Commerce.Types.{
  Plan, Order, OrderItem, Payment, Invoice, InvoiceItem, Subscription,
}

-- A value of an event's payload.
pub data Value : Type 0 where
  text : String → Value
  id_text : Uuid → Value
  amount : ℤ → Value
  number_text : Number → Value
  rfc3339 : Time → Value
  status : SubscriptionStatus → Value

pub record OutboxEvent : Type 0 where
  pub id : Uuid
  pub event_type : String
  pub aggregate_type : String
  pub aggregate_id : Uuid
  pub payload : List (String × Value)

pub record Wallet : Type 0 where
  pub id : Uuid
  pub user_id : Uuid
  pub currency : Currency
  pub balance_minor : ℤ

-- A ledger entry with the transaction that it belongs to.
pub record EntryRow : Type 0 where
  pub transaction_id : Uuid
  pub entry : Entry

-- The tables; the payloads are those appended to a payment's row.
pub record Tables : Type 0 where
  pub plans : List Plan
  pub orders : List Order
  pub order_items : List (Uuid × OrderItem)
  pub payments : List Payment
  pub payloads : List (Uuid × List (String × Value))
  pub invoices : List Invoice
  pub invoice_items : List (Uuid × InvoiceItem)
  pub subscriptions : List Subscription
  pub transactions : List Transaction
  pub entries : List EntryRow
  pub wallets : List Wallet
  pub outbox : List OutboxEvent
