-- ===== src/Commerce/Orders/Tests.antt =====
-- Tests of the pricing of an order.
use vps_billing_workbuddy.Prelude.{ℕ, ◌≡◌, ◌≢◌, refl, ◌↔◌, some, [], ◌∷◌, All, arith}
use vps_billing_workbuddy.Prelude.Int.{pos}
use vps_billing_workbuddy.Errors.{ok}
use vps_billing_workbuddy.Money.{Money}
use vps_billing_workbuddy.Calendar.{Time}
use vps_billing_workbuddy.Commerce.Types.{PlanStatus, Plan, OrderItem, Order}
use vps_billing_workbuddy.Commerce.Orders.{new_plan_snapshot, new_order_line, new_order}
use vps_billing_workbuddy.Commerce.Orders.Totals.{
  IsLine, IsDiscount, exact_sum, priced, new_order_line_lem, new_order_iff,
}

abbrev usd : ℕ → Money
usd n = record { amount_minor = pos n; currency = "USD" }

abbrev plan : Plan
plan = record {
  id = 7;
  product_id = 3;
  slug = "small";
  name = [];
  status = PlanStatus.active;
  cpu_cores = "1.5";
  memory_mb = pos 1024;
  disk_gb = pos 20;
  virtualization = "kvm";
  billing_cycle = "monthly";
  price = usd 1999;
}

abbrev line : OrderItem
line = record {
  id = 11;
  product_id = 3;
  plan_id = 7;
  quantity = pos 2;
  unit_price = usd 1999;
  plan_snapshot = new_plan_snapshot plan;
}

abbrev now : Time
now = record { year = 2025; month = 6; day = 1; nanos = 0 }

abbrev order : Order
order = priced 21 5 9 line [] (usd 998) now

new_order_line_example :
    (plan.status ≡ PlanStatus.active)
    × (line.unit_price ≡ plan.price)
    × (line.quantity ≡ pos 2)
    × (line.plan_id ≡ plan.id)
    × (line.plan_snapshot.price_minor ≡ plan.price.amount_minor)
    × (line.plan_snapshot.billing_cycle ≡ plan.billing_cycle)
    × IsLine line
unfolding new_order_line new_plan_snapshot
new_order_line_example = new_order_line_lem 11 plan (pos 2) line refl

new_order_iff_example : (new_order 21 (some 5) 9 (line ∷ []) (usd 998) now ≡ ok order) ↔ (
    (order ≡ priced 21 5 9 line [] (usd 998) now)
    × (line.unit_price.currency ≢ "")
    × All (λ (i : OrderItem). i.unit_price.currency ≡ line.unit_price.currency) (line ∷ [])
    × IsDiscount (usd 998) line.unit_price.currency (exact_sum (line ∷ [])))
new_order_iff_example =
    new_order_iff 21 5 9 line [] (usd 998) now order (ground arith) (omega arith) (omega arith)
