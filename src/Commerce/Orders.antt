-- ===== src/Commerce/Orders.antt =====
-- backend/internal/commerce/types.go: pricing an order. What the code draws at random (`uuid.New`,
-- `rand.Read`, whose failure is `none`) is an argument.
pub mod Totals
mod Tests
use vps_billing_workbuddy.Prelude.{
  ℕ, suc, String, Bool, true, false, not, ◌&&◌, ◌||◌, Option, none, some, List, [], ◌∷◌, ltb, leb,
  ◌==◌, str_eq, codes, if◌then◌else◌,
}
use vps_billing_workbuddy.Prelude.Int.{ℤ, pos, ltb_ℤ}
use vps_billing_workbuddy.Errors.{
  Error, plan_not_purchaseable, invalid_quantity, empty_order, mixed_currencies, invalid_amount,
  invalid_decimal, no_line_currency, number_failed, Result, ok, err, ◌>>=◌, ◌>>◌, refuse_if,
}
use vps_billing_workbuddy.Money.{Money, Currency, zero_money, add, sub, times, is_negative}
use vps_billing_workbuddy.Numbers.{new_number}
use vps_billing_workbuddy.Ledger.{Uuid}
use vps_billing_workbuddy.Calendar.{Time}
use vps_billing_workbuddy.Commerce.States.{OrderStatus}
use vps_billing_workbuddy.Commerce.Types.{PlanStatus, Plan, PlanSnapshot, OrderItem, Order}

abbrev pub max_order_quantity : ℕ
max_order_quantity = 1000

abbrev is_digit : ℕ → Bool
is_digit c = leb b'0' c && leb c b'9'

-- One or two digits, to the end.
fraction : List ℕ → Bool
fraction (c ∷ []) = is_digit c
fraction (c ∷ d ∷ []) = is_digit c && is_digit d
fraction _ = false

-- The rest of `^\d+(\.\d{1,2})?$`, told whether a digit was seen.
decimal_rest : Bool → List ℕ → Bool
decimal_rest seen [] = seen
decimal_rest seen (c ∷ cs) =
    if is_digit c then decimal_rest true cs else (c == b'.' && seen && fraction cs)

-- `ValidateDecimal`
validate_decimal : String → Result (Unit {0})
unfolding decimal_rest fraction
validate_decimal value = refuse_if (not (decimal_rest false (codes value))) invalid_decimal

unfoldable pub purchaseable : Plan → Bool
purchaseable p = elim p.status [
  | PlanStatus.draft ↦ false
  | PlanStatus.active ↦ true
  | PlanStatus.archived ↦ false
]

unfoldable pub new_plan_snapshot : Plan → PlanSnapshot
new_plan_snapshot p = record {
  plan_id = p.id;
  slug = p.slug;
  name = p.name;
  cpu_cores = p.cpu_cores;
  memory_mb = p.memory_mb;
  disk_gb = p.disk_gb;
  virtualization = p.virtualization;
  billing_cycle = p.billing_cycle;
  price_minor = p.price.amount_minor;
  currency = p.price.currency;
}

unfoldable pub new_order_line : Uuid → Plan → ℤ → Result OrderItem
unfolding purchaseable is_negative validate_decimal new_plan_snapshot
new_order_line id plan quantity = do
  refuse_if (not (purchaseable plan)) plan_not_purchaseable
  refuse_if (ltb_ℤ quantity (pos 1) || ltb_ℤ (pos max_order_quantity) quantity) invalid_quantity
  refuse_if (is_negative plan.price) invalid_amount
  validate_decimal plan.cpu_cores
  ok (record {
    id = id;
    product_id = plan.product_id;
    plan_id = plan.id;
    quantity = quantity;
    unit_price = plan.price;
    plan_snapshot = new_plan_snapshot plan;
  })

-- `OrderItem.Total`
unfoldable pub line_total : OrderItem → Result Money
line_total i = times i.unit_price i.quantity

-- The loop over the lines, on the subtotal so far.
unfoldable pub sum_lines : Currency → List OrderItem → Money → Result Money
sum_lines currency [] subtotal = ok subtotal
sum_lines currency (line ∷ lines) subtotal = do
  refuse_if (not (str_eq line.unit_price.currency currency)) mixed_currencies
  total ← line_total line
  sum ← add subtotal total
  sum_lines currency lines sum

-- `NewOrder`, after the first line is read.
unfoldable pub price_order :
    Uuid → Option ℕ → Uuid → List OrderItem → Currency → Money → Time → Result Order
price_order id random user_id lines currency discount now = do
  refuse_if (str_eq currency "") no_line_currency
  subtotal ← sum_lines currency lines (zero_money currency)
  refuse_if (not (str_eq discount.currency currency)) mixed_currencies
  refuse_if (is_negative discount) invalid_amount
  total ← sub subtotal discount
  refuse_if (is_negative total) invalid_amount
  number ← new_number "ORD" now random
  ok (record {
    id = id;
    order_no = number;
    user_id = user_id;
    status = OrderStatus.pending;
    subtotal = subtotal;
    discount = discount;
    total = total;
    items = lines;
    paid_at = none;
    created_at = now;
  })

unfoldable pub new_order : Uuid → Option ℕ → Uuid → List OrderItem → Money → Time → Result Order
unfolding price_order zero_money
new_order id random user_id [] discount now = err empty_order
new_order id random user_id (line ∷ lines) discount now =
    price_order id random user_id (line ∷ lines) line.unit_price.currency discount now
