-- ===== src/Commerce/Checkout.antt =====
-- backend/internal/commerce/service.go: `CreateOrder` and `StartPayment`, from a request to an
-- order with its invoice, and from an order to a payment at a gateway. The digest of the
-- idempotency key is a parameter.
pub mod Orders
pub mod Payments
mod Tests
use vps_billing_workbuddy.Prelude.{
  ℕ, String, Bool, true, false, not, Option, none, some, List, [], ◌∷◌,
}
use vps_billing_workbuddy.Prelude.Int.{ℤ}
use vps_billing_workbuddy.Errors.{
  Error, Result, ok, err, plan_not_found, order_not_payable, refuse_if,
}
use vps_billing_workbuddy.Database.{
  Action, ◌>>=◌, ◌>>◌, pure, lift, map_error, within_transaction, fresh,
}
use vps_billing_workbuddy.Money.{Money}
use vps_billing_workbuddy.Numbers.{Number, new_number}
use vps_billing_workbuddy.Ledger.{Uuid, Description}
use vps_billing_workbuddy.Calendar.{Time}
use vps_billing_workbuddy.Commerce.States.{OrderStatus, PaymentStatus, order_eq}
use vps_billing_workbuddy.Commerce.Types.{
  InvoiceStatus, Order, OrderItem, Payment, Invoice, InvoiceItem,
}
use vps_billing_workbuddy.Commerce.Orders.{new_order_line, line_total, new_order}
use vps_billing_workbuddy.Commerce.Gateway.{Gateways, Gateway, Intent, gateway_named}
use vps_billing_workbuddy.Commerce.Store.{
  Call, plan_by_id, create_order, create_invoice, create_invoice_items, order_for_user,
  create_payment,
}

pub record OrderLineRequest : Type 0 where
  pub plan_id : Uuid
  pub quantity : ℤ

abbrev pub invoice_item : Uuid → OrderItem → Money → InvoiceItem
invoice_item id line total = record {
  id = id;
  description = line.plan_snapshot.name;
  quantity = line.quantity;
  unit_amount = line.unit_price;
  total = total;
}

abbrev pub order_invoice : Uuid → Number → Order → List InvoiceItem → Invoice
order_invoice id number o items = record {
  id = id;
  invoice_no = number;
  user_id = o.user_id;
  order_id = some o.id;
  subscription_id = none;
  status = InvoiceStatus.open_status;
  amount = o.total;
  due_at = none;
  items = items;
}

-- The order, its invoice and the lines of both, in one transaction.
unfoldable pub record_order : Order → Invoice → Call (Unit {0})
record_order o i =
    within_transaction (do create_order o; create_invoice i; create_invoice_items i.id i.items)

-- The key of a payment: the digest of the order, the gateway and the day.
abbrev pub payment_key : (Uuid → String → ℕ × ℕ × ℕ → ℕ) → Uuid → String → Time → ℕ
payment_key digest order gateway now = digest order gateway (now.year, now.month, now.day)

abbrev pub started_payment : Uuid → Number → Order → String → Intent → ℕ → Payment
started_payment id number o gateway intent key = record {
  id = id;
  payment_no = number;
  order_id = o.id;
  gateway = gateway;
  gateway_payment_id = intent.gateway_payment_id;
  status = PaymentStatus.pending;
  amount = o.total;
  idempotency_key = key;
  paid_at = none;
}

module _ (new_uuid : ℕ → Uuid) where
  -- The loop over the requested lines. Whatever the lookup of a plan fails with, the plan is
  -- reported as not found.
  unfoldable pub order_lines : List OrderLineRequest → Call (List OrderItem)
  order_lines [] = pure []
  order_lines (request ∷ requests) = do
    plan ← map_error (λ e. plan_not_found) (plan_by_id request.plan_id)
    id ← fresh new_uuid
    line ← lift (new_order_line id plan request.quantity)
    lines ← order_lines requests
    pure (line ∷ lines)

  -- `invoiceItemsFor`; the panic on a line that cannot be priced ends the call with its error.
  unfoldable pub invoice_items_for : List OrderItem → Call (List InvoiceItem)
  invoice_items_for [] = pure []
  invoice_items_for (line ∷ lines) = do
    total ← lift (line_total line)
    id ← fresh new_uuid
    items ← invoice_items_for lines
    pure (invoice_item id line total ∷ items)

  -- `CreateOrder`; `order_random` and `invoice_random` are the bytes of the two numbers, and the two
  -- times are those of its two readings of the clock.
  unfoldable pub place_order :
      Option ℕ → Option ℕ → Uuid → List OrderLineRequest → Money → Time → Time → Call Order
  unfolding order_lines invoice_items_for record_order
  place_order order_random invoice_random user requested discount now later = do
    lines ← order_lines requested
    id ← fresh new_uuid
    order ← lift (new_order id order_random user lines discount now)
    number ← lift (new_number "INV" later invoice_random)
    invoice_id ← fresh new_uuid
    items ← invoice_items_for order.items
    record_order order (order_invoice invoice_id number order items)
    pure order

  -- The payment is recorded, pending, with what the gateway answered.
  unfoldable pub record_payment : Number → Order → String → Intent → ℕ → Call (Payment × Intent)
  record_payment number o gateway intent key = do
    id ← fresh new_uuid
    create_payment (started_payment id number o gateway intent key)
    pure (started_payment id number o gateway intent key, intent)

  -- `StartPayment`: the gateway is asked before the payment is recorded.
  unfoldable pub start_payment :
      (Uuid → String → ℕ × ℕ × ℕ → ℕ)
      → Gateways
      → Option ℕ
      → Uuid
      → Uuid
      → String
      → Time
      → Call (Payment × Intent)
  unfolding record_payment
  start_payment digest gateways random user order_id gateway_name now = do
    gateway ← lift (gateway_named gateways gateway_name)
    order ← order_for_user order_id user
    lift (refuse_if (not (order_eq order.status OrderStatus.pending)) order_not_payable)
    number ← lift (new_number "PAY" now random)
    intent ← lift (
        gateway.create_intent (record {
          payment_no = number;
          amount = order.total;
          description = Description.about "order " order.order_no;
        }))
    record_payment number order gateway_name intent (payment_key digest order.id gateway_name now)
