-- ===== src/Commerce/Checkout/Tests.antt =====
-- Tests of the checkout: an order of one plan, and a payment for it.
use vps_billing_workbuddy.Prelude.{
  ℕ, ◌+◌, ◌*◌, ◌≡◌, ◌≢◌, ◌++◌, refl, String, Bool, true, false, none, some, List, [], ◌∷◌, arith,
}
use vps_billing_workbuddy.Prelude.Int.{pos, ◌*ℤ◌, ◌+ℤ◌, ◌-ℤ◌}
use vps_billing_workbuddy.Prelude.Int64.{bits64, signed64, wrap64, ◌*w◌, ◌+w◌, ◌-w◌}
use vps_billing_workbuddy.Errors.{ok, err, statement_failed}
use vps_billing_workbuddy.Money.{Money, add, sub, times, is_negative, zero_money}
use vps_billing_workbuddy.Numbers.{new_number}
use vps_billing_workbuddy.Calendar.{Time}
use vps_billing_workbuddy.Ledger.{Uuid}
use vps_billing_workbuddy.Database.{
  World, Outcome, done, failed, ◌>>=◌, lift, pure, fresh, statement, map_error, within_transaction,
  world_after,
}
use vps_billing_workbuddy.Rows.{first_where, all_where, count_where}
use vps_billing_workbuddy.Commerce.States.{OrderStatus, PaymentStatus}
use vps_billing_workbuddy.Commerce.Types.{PlanStatus, Plan, Order, Payment, Invoice, InvoiceStatus}
use vps_billing_workbuddy.Commerce.Orders.{
  new_plan_snapshot, new_order_line, new_order, sum_lines, line_total, price_order, purchaseable,
}
use vps_billing_workbuddy.Commerce.Sql
use vps_billing_workbuddy.Commerce.Store
use vps_billing_workbuddy.Commerce.Tables.{Tables}
use vps_billing_workbuddy.Commerce.Gateway.{Gateway, Gateways, Intent, gateway_named}
use vps_billing_workbuddy.Commerce.Checkout.{
  OrderLineRequest, order_lines, invoice_items_for, record_order, record_payment, place_order,
  start_payment, payment_key,
}
use vps_billing_workbuddy.Commerce.Checkout.Orders.{
  Mirrors, recorded, place_order-Atomic, place_order_lem,
}
use vps_billing_workbuddy.Commerce.Checkout.Payments.{
  has_payment_key, is_order_of, start_payment_lem, start_payment_once,
}

abbrev usd : ℕ → Money
usd n = record { amount_minor = pos n; currency = "USD" }

abbrev now : Time
now = record { year = 2025; month = 6; day = 1; nanos = 0 }

abbrev plan : Plan
plan = record {
  id = 7;
  product_id = 3;
  slug = "small";
  name = [];
  status = PlanStatus.active;
  cpu_cores = "1";
  memory_mb = pos 1024;
  disk_gb = pos 20;
  virtualization = "kvm";
  billing_cycle = "monthly";
  price = usd 1999;
}

abbrev new_uuid : ℕ → Uuid
new_uuid n = n + 100

abbrev catalogue : List Bool → World Tables
catalogue faults = record {
  db = record {
    plans = plan ∷ [];
    orders = [];
    order_items = [];
    payments = [];
    payloads = [];
    invoices = [];
    invoice_items = [];
    subscriptions = [];
    transactions = [];
    entries = [];
    wallets = [];
    outbox = [];
  };
  faults = faults;
  drawn = 0;
}

abbrev request : List OrderLineRequest
request = record { plan_id = 7; quantity = pos 2 } ∷ []

abbrev order : Order
order = record {
  id = 101;
  order_no = record { prefix = "ORD"; year = 2025; month = 6; day = 1; suffix = 5 };
  user_id = 9;
  status = OrderStatus.pending;
  subtotal = usd 3998;
  discount = usd 0;
  total = usd 3998;
  items =
      record {
        id = 100;
        product_id = 3;
        plan_id = 7;
        quantity = pos 2;
        unit_price = usd 1999;
        plan_snapshot = new_plan_snapshot plan;
      }
      ∷ [];
  paid_at = none;
  created_at = now;
}

abbrev placing : World Tables → Outcome Tables Order
placing w = place_order new_uuid (some 5) (some 6) 9 request (usd 0) now now w

abbrev placed : World Tables
placed = world_after (placing (catalogue []))

order_is_placed : placing (catalogue []) ≡ done order placed
unfolding place_order ◌>>=◌ map_error Store.plan_by_id statement Sql.plan_by_id first_where fresh
    lift new_order_line pure new_order sum_lines line_total times add sub invoice_items_for
    order_lines record_order new_plan_snapshot price_order purchaseable Sql.create_invoice
    Sql.create_invoice_item Sql.create_order Sql.create_order_item Store.create_invoice
    Store.create_invoice_items Store.create_order Store.create_order_items within_transaction
    is_negative zero_money new_number ◌*ℤ◌ ◌+ℤ◌ ◌-ℤ◌ bits64 signed64 wrap64 ◌*w◌ ◌+w◌ ◌-w◌
    count_where
order_is_placed = refl

place_order_example :
    (i : Invoice) × (i.status ≡ InvoiceStatus.open_status)
    × (i.order_id ≡ some 101)
    × (i.amount ≡ usd 3998)
    × Mirrors order.items i.items
    × (placed.db ≡ recorded order i (catalogue []).db)
place_order_example =
    place_order_lem new_uuid (some 5) (some 6) 9 request (usd 0) now now (catalogue []) placed order
      order_is_placed

-- The statement that itemises the invoice fails.
abbrev faulty : World Tables
faulty = catalogue (false ∷ false ∷ false ∷ false ∷ false ∷ true ∷ [])

order_is_refused : placing faulty ≡ failed statement_failed (world_after (placing faulty))
unfolding place_order ◌>>=◌ map_error Store.plan_by_id statement Sql.plan_by_id first_where fresh
    lift new_order_line pure new_order sum_lines line_total times add sub invoice_items_for
    order_lines record_order new_plan_snapshot price_order purchaseable Sql.create_invoice
    Sql.create_invoice_item Sql.create_order Sql.create_order_item Store.create_invoice
    Store.create_invoice_items Store.create_order Store.create_order_items within_transaction
    is_negative zero_money new_number ◌*ℤ◌ ◌+ℤ◌ ◌-ℤ◌ bits64 signed64 wrap64 ◌*w◌ ◌+w◌ ◌-w◌
    count_where
order_is_refused = refl

place_order-Atomic_example : (world_after (placing faulty)).db ≡ faulty.db
place_order-Atomic_example =
    place_order-Atomic new_uuid (some 5) (some 6) 9 request (usd 0) now now faulty
      (world_after (placing faulty)) statement_failed order_is_refused

abbrev card : Gateway
card = record {
  create_intent =
      λ r. ok (record { gateway_payment_id = "pi_1"; pay_url = "https://pay"; expires_at = none });
  verify = λ body signature. err statement_failed;
}

abbrev gateways : Gateways
gateways name = some card

abbrev digest : Uuid → String → ℕ × ℕ × ℕ → ℕ
digest order gateway (year, month, day) = order * 10_000 + year + month + day

abbrev intent : Intent
intent = record { gateway_payment_id = "pi_1"; pay_url = "https://pay"; expires_at = none }

-- The tables with the order in them.
abbrev sold : World Tables
sold = record {
  db = record (catalogue []).db {
    orders = record order { items = [] } ∷ [];
    order_items =
        (
          101,
          record {
            id = 100;
            product_id = 3;
            plan_id = 7;
            quantity = pos 2;
            unit_price = usd 1999;
            plan_snapshot = new_plan_snapshot plan;
          },
        )
        ∷ [];
  };
  faults = [];
  drawn = 4;
}

abbrev payment : Payment
payment = record {
  id = 104;
  payment_no = record { prefix = "PAY"; year = 2025; month = 6; day = 1; suffix = 8 };
  order_id = 101;
  gateway = "card";
  gateway_payment_id = "pi_1";
  status = PaymentStatus.pending;
  amount = usd 3998;
  idempotency_key = 1_012_032;
  paid_at = none;
}

abbrev paying : World Tables
paying = record { db = record sold.db { payments = payment ∷ [] }; faults = []; drawn = 5 }

payment_is_started :
    start_payment new_uuid digest gateways (some 8) 9 101 "card" now sold
    ≡ done (payment, intent) paying
unfolding start_payment ◌>>=◌ lift gateway_named Store.order_for_user map_error statement
    record_payment first_where fresh pure Sql.create_payment Sql.order_by_id_for_user
    Sql.order_items_for_order Store.create_payment Store.order_items new_number all_where
    count_where
payment_is_started = refl

start_payment_example :
    (o : Order) × (first_where (is_order_of 101 9) sold.db.orders ≡ some o)
    × (o.status ≡ OrderStatus.pending)
    × (101 ≡ o.id)
    × (usd 3998 ≡ o.total)
    × (payment.status ≡ PaymentStatus.pending)
    × (payment.idempotency_key ≡ payment_key digest o.id "card" now)
    × (count_where (has_payment_key payment.idempotency_key) sold.db.payments ≡ 0)
    × (paying.db ≡ record sold.db { payments = sold.db.payments ++ payment ∷ [] })
start_payment_example =
    start_payment_lem new_uuid digest gateways (some 8) 9 101 "card" now sold paying payment intent
      payment_is_started

start_payment_once_example :
    start_payment new_uuid digest gateways (some 9) 9 101 "card" now paying
    ≢ done (payment, intent) paying
unfolding count_where
start_payment_once_example =
    start_payment_once new_uuid digest gateways (some 8) (some 9) 9 9 101 "card" now now sold paying
      paying paying payment payment intent intent payment_is_started (omega arith) refl refl refl
