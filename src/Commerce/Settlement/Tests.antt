-- ===== src/Commerce/Settlement/Tests.antt =====
-- Tests of settlements: one payment for one order with one line.
use vps_billing_workbuddy.Prelude.{
  ℕ, ◌+◌, ◌≡◌, ◌≤◌, refl, ◌⊎◌, String, Bool, true, false, none, some, Option, List, [], ◌∷◌, arith,
}
use vps_billing_workbuddy.Prelude.Int.{pos}
use vps_billing_workbuddy.Errors.{ok, err, statement_failed}
use vps_billing_workbuddy.Money.{Money}
use vps_billing_workbuddy.Numbers.{Number}
use vps_billing_workbuddy.Calendar.{Time}
use vps_billing_workbuddy.Ledger.{Uuid}
use vps_billing_workbuddy.Database.{World, Outcome, done, failed, world_after}
use vps_billing_workbuddy.Commerce.States.{OrderStatus, PaymentStatus}
use vps_billing_workbuddy.Commerce.Types.{
  PlanSnapshot, OrderItem, Order, Payment, Invoice, InvoiceStatus,
}
use vps_billing_workbuddy.Commerce.Tables.{Tables}
use vps_billing_workbuddy.Commerce.Gateway.{Gateway, Gateways, Notification}
use vps_billing_workbuddy.Commerce.Sql
use vps_billing_workbuddy.Commerce.Settlement.{SettleResult, settle, settle_stored}
use vps_billing_workbuddy.Commerce.Settlement.Atomic.{settle_atomic}
use vps_billing_workbuddy.Commerce.Settlement.Deliveries.{
  NotApplied, Applied, Delivery, settlements, settle_stored_lem, settled_at_most_once,
}

abbrev usd : ℕ → Money
usd n = record { amount_minor = pos n; currency = "USD" }

abbrev number : String → Number
number prefix = record { prefix = prefix; year = 2025; month = 6; day = 1; suffix = 5 }

abbrev now : Time
now = record { year = 2025; month = 6; day = 1; nanos = 0 }

abbrev snapshot : PlanSnapshot
snapshot = record {
  plan_id = 7;
  slug = "small";
  name = [];
  cpu_cores = "1";
  memory_mb = pos 1024;
  disk_gb = pos 20;
  virtualization = "kvm";
  billing_cycle = "monthly";
  price_minor = pos 1999;
  currency = "USD";
}

abbrev line : OrderItem
line = record {
  id = 11;
  product_id = 3;
  plan_id = 7;
  quantity = pos 1;
  unit_price = usd 1999;
  plan_snapshot = snapshot;
}

abbrev order : Order
order = record {
  id = 21;
  order_no = number "ORD";
  user_id = 9;
  status = OrderStatus.pending;
  subtotal = usd 1999;
  discount = usd 0;
  total = usd 1999;
  items = [];
  paid_at = none;
  created_at = now;
}

abbrev payment : Payment
payment = record {
  id = 31;
  payment_no = number "PAY";
  order_id = 21;
  gateway = "sandbox";
  gateway_payment_id = "ext-1";
  status = PaymentStatus.processing;
  amount = usd 1999;
  idempotency_key = 41;
  paid_at = none;
}

abbrev invoice : Invoice
invoice = record {
  id = 51;
  invoice_no = number "INV";
  user_id = 9;
  order_id = some 21;
  subscription_id = none;
  status = InvoiceStatus.open_status;
  amount = usd 1999;
  due_at = none;
  items = [];
}

abbrev shop : Tables
shop = record {
  plans = [];
  orders = order ∷ [];
  order_items = (21, line) ∷ [];
  payments = payment ∷ [];
  payloads = [];
  invoices = invoice ∷ [];
  invoice_items = [];
  subscriptions = [];
  transactions = [];
  entries = [];
  wallets = [];
  outbox = [];
}

abbrev calm : World Tables
calm = record { db = shop; faults = []; drawn = 0 }

-- The sixth statement of the call fails.
abbrev troubled : World Tables
troubled = record calm { faults = false ∷ false ∷ false ∷ false ∷ false ∷ true ∷ [] }

abbrev new_uuid : ℕ → Uuid
new_uuid n = 1000 + n

abbrev notification : Notification
notification = record {
  gateway_payment_id = "ext-1";
  status = "succeeded";
  amount = usd 1999;
  payload = [];
}

abbrev sandbox : Gateways
sandbox name = some (record {
  create_intent = λ r. err statement_failed;
  verify = λ body signature. ok notification;
})

abbrev delivery : Delivery
delivery = record { gateway = "sandbox"; notification = notification; at = now; stored = payment }

abbrev paid : Payment
paid = record payment { status = PaymentStatus.succeeded; paid_at = some now }

abbrev won : SettleResult
won = record { payment = some paid; already_settled = false }

-- The tables once the callback is done.
abbrev shop_after : World Tables
shop_after = world_after (settle_stored new_uuid "sandbox" notification now payment calm)

settles : settle_stored new_uuid "sandbox" notification now payment calm ≡ done won shop_after
unfolding settle_stored vps_billing_workbuddy.Database.◌>>=◌ vps_billing_workbuddy.Database.lift
    vps_billing_workbuddy.Commerce.States.payment_is_settled vps_billing_workbuddy.Database.fresh
    vps_billing_workbuddy.Database.within_transaction vps_billing_workbuddy.Database.statement
    vps_billing_workbuddy.Commerce.Settlement.settle_body
    vps_billing_workbuddy.Commerce.Store.settle_payment
    vps_billing_workbuddy.Commerce.Store.if_applied
    vps_billing_workbuddy.Commerce.Sql.settle_payment
    vps_billing_workbuddy.Commerce.Tables.first_where
    vps_billing_workbuddy.Commerce.Settlement.settle_applied
    vps_billing_workbuddy.Commerce.Store.pay_order vps_billing_workbuddy.Commerce.Sql.pay_order
    vps_billing_workbuddy.Commerce.Tables.count_where
    vps_billing_workbuddy.Commerce.Sql.mark_invoice_paid vps_billing_workbuddy.Database.pure
    vps_billing_workbuddy.Commerce.Activation.activate_lines
    vps_billing_workbuddy.Commerce.Activation.activate_subscriptions_from_order
    vps_billing_workbuddy.Commerce.Cycle.add_billing_cycle
    vps_billing_workbuddy.Commerce.Sql.Subscriptions.create_subscription
    vps_billing_workbuddy.Commerce.Sql.Subscriptions.order_by_id_for_settlement
    vps_billing_workbuddy.Commerce.Sql.create_ledger_entry
    vps_billing_workbuddy.Commerce.Sql.create_ledger_transaction
    vps_billing_workbuddy.Commerce.Sql.create_outbox_event
    vps_billing_workbuddy.Commerce.Sql.order_items_for_order
    vps_billing_workbuddy.Commerce.Store.Subscriptions.create_subscription
    vps_billing_workbuddy.Commerce.Store.Subscriptions.order_for_settlement
    vps_billing_workbuddy.Commerce.Store.apply_projection
    vps_billing_workbuddy.Commerce.Store.create_ledger_entries
    vps_billing_workbuddy.Commerce.Store.order_items vps_billing_workbuddy.Commerce.Store.post
    vps_billing_workbuddy.Commerce.Store.post_transaction
    vps_billing_workbuddy.Commerce.Store.record_outbox_event
    vps_billing_workbuddy.Commerce.Tables.all_where
    vps_billing_workbuddy.Commerce.Tables.update_where vps_billing_workbuddy.Database.map_error
    vps_billing_workbuddy.Database.throw vps_billing_workbuddy.Ledger.contains
    vps_billing_workbuddy.Ledger.verify vps_billing_workbuddy.Ledger.verify_entries
    vps_billing_workbuddy.Money.is_negative vps_billing_workbuddy.Prelude.Int.◌+ℤ◌
    vps_billing_workbuddy.Prelude.Int64.wrap64 vps_billing_workbuddy.Prelude.Int64.◌+w◌
settles = refl

settle_stored_example :
    NotApplied 31 shop won shop_after.db
    ⊎ ((usd 1999 ≡ usd 1999)
        × ((posting_id : Uuid) × Applied 31 now "sandbox" posting_id payment shop won
              shop_after.db))
settle_stored_example = settle_stored_lem new_uuid "sandbox" notification now payment calm settles

settled_at_most_once_example : settlements new_uuid (delivery ∷ delivery ∷ []) troubled ≤ 1
settled_at_most_once_example =
    settled_at_most_once new_uuid 31 (delivery ∷ delivery ∷ []) troubled (refl, (refl, tt))

abbrev world_failed : World Tables
world_failed = world_after (settle new_uuid sandbox "sandbox" "{}" "sig" now troubled)

fails :
    settle new_uuid sandbox "sandbox" "{}" "sig" now troubled ≡ failed statement_failed world_failed
unfolding settle settle_stored vps_billing_workbuddy.Database.◌>>=◌
    vps_billing_workbuddy.Database.lift vps_billing_workbuddy.Commerce.States.payment_is_settled
    vps_billing_workbuddy.Database.fresh vps_billing_workbuddy.Database.within_transaction
    vps_billing_workbuddy.Database.statement vps_billing_workbuddy.Commerce.Settlement.settle_body
    vps_billing_workbuddy.Commerce.Store.settle_payment
    vps_billing_workbuddy.Commerce.Store.if_applied
    vps_billing_workbuddy.Commerce.Sql.settle_payment
    vps_billing_workbuddy.Commerce.Tables.first_where
    vps_billing_workbuddy.Commerce.Settlement.settle_applied
    vps_billing_workbuddy.Commerce.Store.pay_order vps_billing_workbuddy.Commerce.Sql.pay_order
    vps_billing_workbuddy.Commerce.Tables.count_where
    vps_billing_workbuddy.Commerce.Sql.mark_invoice_paid vps_billing_workbuddy.Database.pure
    vps_billing_workbuddy.Commerce.Activation.activate_lines
    vps_billing_workbuddy.Commerce.Activation.activate_subscriptions_from_order
    vps_billing_workbuddy.Commerce.Cycle.add_billing_cycle
    vps_billing_workbuddy.Commerce.Sql.Subscriptions.create_subscription
    vps_billing_workbuddy.Commerce.Sql.Subscriptions.order_by_id_for_settlement
    vps_billing_workbuddy.Commerce.Sql.create_ledger_entry
    vps_billing_workbuddy.Commerce.Sql.create_ledger_transaction
    vps_billing_workbuddy.Commerce.Sql.create_outbox_event
    vps_billing_workbuddy.Commerce.Sql.order_items_for_order
    vps_billing_workbuddy.Commerce.Store.Subscriptions.create_subscription
    vps_billing_workbuddy.Commerce.Store.Subscriptions.order_for_settlement
    vps_billing_workbuddy.Commerce.Store.apply_projection
    vps_billing_workbuddy.Commerce.Store.create_ledger_entries
    vps_billing_workbuddy.Commerce.Store.order_items vps_billing_workbuddy.Commerce.Store.post
    vps_billing_workbuddy.Commerce.Store.post_transaction
    vps_billing_workbuddy.Commerce.Store.record_outbox_event
    vps_billing_workbuddy.Commerce.Tables.all_where
    vps_billing_workbuddy.Commerce.Tables.update_where vps_billing_workbuddy.Database.map_error
    vps_billing_workbuddy.Database.throw vps_billing_workbuddy.Ledger.contains
    vps_billing_workbuddy.Ledger.verify vps_billing_workbuddy.Ledger.verify_entries
    vps_billing_workbuddy.Money.is_negative vps_billing_workbuddy.Prelude.Int.◌+ℤ◌
    vps_billing_workbuddy.Prelude.Int64.wrap64 vps_billing_workbuddy.Prelude.Int64.◌+w◌
    vps_billing_workbuddy.Commerce.Gateway.gateway_named
    vps_billing_workbuddy.Commerce.Settlement.settle_notification
    vps_billing_workbuddy.Commerce.Settlement.settle_succeeded
    vps_billing_workbuddy.Commerce.Store.find_payment_by_gateway_ref
    vps_billing_workbuddy.Commerce.Sql.payment_by_gateway_ref
fails = refl

settle_atomic_example : world_failed.db ≡ shop
settle_atomic_example =
    settle_atomic new_uuid sandbox "sandbox" "{}" "sig" now troubled statement_failed world_failed
      fails
