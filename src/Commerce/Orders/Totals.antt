-- ===== src/Commerce/Orders/Totals.antt =====
-- What an order that is accepted adds up to.
use vps_billing_workbuddy.Prelude.{
  ℕ, ◌+◌, ◌*◌, ◌-◌, ◌≤◌, ◌<◌, ◌≡◌, sym, ◌↔◌, inl, inr, ap, ◌∙◌, ◌≢◌, true, not, none, some, List,
  [], ◌∷◌, All, arith, str_eq, str_eq_iff,
}
use vps_billing_workbuddy.Prelude.Int.{ℤ, pos, ◌≤ℤ◌, pos_part, ◌+ℤ◌, ◌-ℤ◌}
use vps_billing_workbuddy.Prelude.Int64.{◌+w◌, ◌-w◌, wrap64-Fits, two63, Fits}
use vps_billing_workbuddy.Errors.{
  ok, ◌>>=◌, >>=-eq-ok, Result-cases, refuse_if, refuse_if-eq-ok, mixed_currencies,
}
use vps_billing_workbuddy.Money.{Money, Currency, zero_money, add, sub, times, is_negative}
use mathlib.Core.Path.{ap₂}
use native.Mathlib.Nat.{zero-add}
use native.Mathlib.Decide.{dec_le}
use vps_billing_workbuddy.Money.Laws.{times_exact}
use vps_billing_workbuddy.Numbers.{new_number}
use vps_billing_workbuddy.Ledger.{Uuid}
use vps_billing_workbuddy.Calendar.{Time}
use vps_billing_workbuddy.Commerce.States.{OrderStatus}
use vps_billing_workbuddy.Commerce.Types.{PlanStatus, Plan, OrderItem, Order}
use vps_billing_workbuddy.Commerce.Orders.{
  max_order_quantity, new_order_line, line_total, sum_lines, new_order,
}

-- A line as `NewOrderLine` makes it: a quantity of 1 to 1000 at a price that is not negative.
abbrev pub IsLine : OrderItem → Type 0
IsLine i =
    (pos 1 ≤ℤ i.quantity)
    × (i.quantity ≤ℤ pos max_order_quantity)
    × (pos 0 ≤ℤ i.unit_price.amount_minor)

-- A line that `NewOrderLine` makes is of a plan on sale, in the quantity asked for, of 1 to 1000, at
-- the plan's own price, which is not negative, and its snapshot keeps that price and the cycle.
pub new_order_line_lem :
    (id : Uuid) (plan : Plan) (quantity : ℤ) (i : OrderItem)
    → new_order_line id plan quantity ≡ ok i
    → (plan.status ≡ PlanStatus.active)
      × (i.unit_price ≡ plan.price)
      × (i.quantity ≡ quantity)
      × (i.plan_id ≡ plan.id)
      × (i.plan_snapshot.price_minor ≡ plan.price.amount_minor)
      × (i.plan_snapshot.billing_cycle ≡ plan.billing_cycle)
      × IsLine i
unfolding new_order_line
new_order_line_lem id plan quantity i h = ground arith

-- The sum of price times quantity, as a number that does not wrap.
abbrev pub exact_sum : List OrderItem → ℕ
exact_sum [] = 0
exact_sum (i ∷ is) = pos_part i.unit_price.amount_minor * pos_part i.quantity + exact_sum is

nonneg : (a : ℤ) → pos 0 ≤ℤ a → a ≡ pos (pos_part a)
nonneg a h = ground arith

-- A line whose product stays below 2^63 is priced exactly.
pub line_total_exact :
    (i : OrderItem)
    → IsLine i
    → pos_part i.unit_price.amount_minor * pos_part i.quantity < two63
    → line_total i
      ≡ ok (record {
        amount_minor = pos (pos_part i.unit_price.amount_minor * pos_part i.quantity);
        currency = i.unit_price.currency;
      })
unfolding line_total
line_total_exact i h b =
    let price : i.unit_price.amount_minor ≡ pos (pos_part i.unit_price.amount_minor) =
      nonneg i.unit_price.amount_minor h.2 in
    let count : i.quantity ≡ pos (pos_part i.quantity) = nonneg i.quantity (omega arith) in
    ap₂ (λ a q. times (record { amount_minor = a; currency = i.unit_price.currency }) q) price count
    ∙ times_exact (pos_part i.unit_price.amount_minor) (pos_part i.quantity) i.unit_price.currency b

add_exact :
    (a b : ℕ) (c : Currency)
    → a + b < two63
    → add
        (record { amount_minor = pos a; currency = c })
        (record { amount_minor = pos b; currency = c })
      ≡ ok (record { amount_minor = pos (a + b); currency = c })
unfolding add ◌+w◌ ◌+ℤ◌
add_exact a b c h = ground (arith, str_eq_iff c c, wrap64-Fits (pos (a + b)) h)

-- Lines in the order's currency whose sum stays below 2^63 are summed exactly.
sum_lines_exact :
    (c : Currency) (lines : List OrderItem) (a : ℕ)
    → All IsLine lines
    → All (λ i. i.unit_price.currency ≡ c) lines
    → a + exact_sum lines < two63
    → sum_lines c lines (record { amount_minor = pos a; currency = c })
      ≡ ok (record { amount_minor = pos (a + exact_sum lines); currency = c })
unfolding sum_lines
sum_lines_exact c [] a l k h =
    ap (λ n. ok (record { amount_minor = pos n; currency = c })) (omega arith)
sum_lines_exact c (i ∷ is) a l k h =
    let p : ℕ = pos_part i.unit_price.amount_minor * pos_part i.quantity in
    let same : str_eq i.unit_price.currency c ≡ true = (str_eq_iff i.unit_price.currency c).1 k.0 in
    let priced = line_total_exact i l.0 (omega arith) in
    let rest = sum_lines_exact c is (a + p) l.1 k.1 (omega arith) in
    let regroup : a + p + exact_sum is ≡ a + (p + exact_sum is) = omega arith in
    rw (same, priced, k.0, add_exact a p c (omega arith))
      (rest ∙ ap (λ n. ok (record { amount_minor = pos n; currency = c })) regroup)

-- Lines that are summed are in the order's currency.
sum_lines-currency :
    (c : Currency) (lines : List OrderItem) (s r : Money)
    → sum_lines c lines s ≡ ok r
    → All (λ i. i.unit_price.currency ≡ c) lines
unfolding sum_lines
sum_lines-currency c [] s r h = tt
sum_lines-currency c (i ∷ is) s r h =
    let (u, same, rest) =
      >>=-eq-ok (refuse_if (not (str_eq i.unit_price.currency c)) mixed_currencies)
        (λ _. line_total i >>= λ t. add s t >>= λ n. sum_lines c is n) h in
    let (t, priced, rest') =
      >>=-eq-ok (line_total i) (λ t. add s t >>= λ n. sum_lines c is n) rest in
    let (n, added, rest'') = >>=-eq-ok (add s t) (λ n. sum_lines c is n) rest' in
    let eq = refuse_if-eq-ok (not (str_eq i.unit_price.currency c)) mixed_currencies same in
    (ground (arith, str_eq_iff i.unit_price.currency c), sum_lines-currency c is n r rest'')

sub-Fits : (a : ℕ) (d : ℤ) → a < two63 → Fits d → pos 0 ≤ℤ d → Fits (pos a -ℤ d)
unfolding ◌-ℤ◌
sub-Fits a d h f n = ground arith

sub_exact :
    (a : ℕ) (c : Currency) (d : Money)
    → a < two63
    → Fits d.amount_minor
    → pos 0 ≤ℤ d.amount_minor
    → d.currency ≡ c
    → sub (record { amount_minor = pos a; currency = c }) d
      ≡ ok (record { amount_minor = pos a -ℤ d.amount_minor; currency = c })
unfolding sub ◌-w◌ ◌-ℤ◌
sub_exact a c d h f n e = ground (
  arith,
  str_eq_iff c d.currency,
  wrap64-Fits (pos a -ℤ d.amount_minor),
  sub-Fits a d.amount_minor h f n,
)

sub_small : (a : ℕ) (d : ℤ) → pos 0 ≤ℤ d → pos_part d ≤ a → pos a -ℤ d ≡ pos (a - pos_part d)
unfolding ◌-ℤ◌
sub_small a d n h = ground arith

ok-injective : {a b : Order} → ok a ≡ ok b → a ≡ b
ok-injective h = cc

-- The discount is in the order's currency and takes no more than the lines cost.
abbrev pub IsDiscount : Money → Currency → ℕ → Type 0
IsDiscount d c cost =
    (d.currency ≡ c) × (pos 0 ≤ℤ d.amount_minor) × (pos_part d.amount_minor ≤ cost)

module _ (id : Uuid) (suffix : ℕ) (user : Uuid) (first : OrderItem) (rest : List OrderItem)
    (d : Money) (now : Time) where
  abbrev lines : List OrderItem
  lines = first ∷ rest

  abbrev currency : Currency
  currency = first.unit_price.currency

  -- The order that the lines make: pending, its subtotal their exact sum, its total that less the
  -- discount, all in the currency of the first line.
  abbrev pub priced : Order
  priced = record {
    id = id;
    order_no = record {
      prefix = "ORD";
      year = now.year;
      month = now.month;
      day = now.day;
      suffix = suffix;
    };
    user_id = user;
    status = OrderStatus.pending;
    subtotal = record { amount_minor = pos (exact_sum lines); currency = currency };
    discount = d;
    total = record {
      amount_minor = pos (exact_sum lines - pos_part d.amount_minor);
      currency = currency;
    };
    items = lines;
    paid_at = none;
    created_at = now;
  }

  summed_exactly :
      All IsLine lines
      → exact_sum lines < two63
      → All (λ i. i.unit_price.currency ≡ currency) lines
      → sum_lines currency lines (zero_money currency)
        ≡ ok (record { amount_minor = pos (exact_sum lines); currency = currency })
  unfolding zero_money
  summed_exactly l b same =
      sum_lines_exact currency lines 0 l same (omega arith)
      ∙ ap (λ n. ok (record { amount_minor = pos n; currency = currency }))
          (zero-add (exact_sum lines))

  new_order_accepts :
      All IsLine lines
      → exact_sum lines < two63
      → Fits d.amount_minor
      → currency ≢ ""
      → All (λ i. i.unit_price.currency ≡ currency) lines
      → IsDiscount d currency (exact_sum lines)
      → new_order id (some suffix) user lines d now ≡ ok priced
  unfolding new_order new_number is_negative
  new_order_accepts l b f named same less =
      let cost : ℕ = exact_sum lines in
      let summed = summed_exactly l b same in
      let rest = sub_exact cost currency d b f less.1 less.0 in
      let less' : pos cost -ℤ d.amount_minor ≡ pos (cost - pos_part d.amount_minor) =
        sub_small cost d.amount_minor less.1 less.2 in
      ground (arith, str_eq_iff currency "", str_eq_iff d.currency currency)

  passes :
      (o : Order)
      → new_order id (some suffix) user lines d now ≡ ok o
      → (currency ≢ "")
        × (d.currency ≡ currency)
        × (pos 0 ≤ℤ d.amount_minor)
        × All (λ i. i.unit_price.currency ≡ currency) lines
  unfolding new_order is_negative
  passes o h = elim (Result-cases (sum_lines currency lines (zero_money currency))) [
    | inl (e, failed) ↦ ground arith
    | inr (r, summed) ↦
        let same = sum_lines-currency currency lines (zero_money currency) r summed in
        (
          ground (arith, str_eq_iff currency ""),
          ground (arith, str_eq_iff d.currency currency),
          ground arith,
          same,
        )
  ]

  sub_large :
      pos 0 ≤ℤ d.amount_minor
      → ¬ (pos_part d.amount_minor ≤ exact_sum lines)
      → is_negative
          (record { amount_minor = pos (exact_sum lines) -ℤ d.amount_minor; currency = currency })
        ≡ true
  unfolding ◌-ℤ◌ is_negative
  sub_large n l = ground arith

  covers :
      (o : Order)
      → exact_sum lines < two63
      → Fits d.amount_minor
      → sum_lines currency lines (zero_money currency)
        ≡ ok (record { amount_minor = pos (exact_sum lines); currency = currency })
      → sub (record { amount_minor = pos (exact_sum lines); currency = currency }) d
        ≡ ok
            (record { amount_minor = pos (exact_sum lines) -ℤ d.amount_minor; currency = currency })
      → pos 0 ≤ℤ d.amount_minor
      → new_order id (some suffix) user lines d now ≡ ok o
      → pos_part d.amount_minor ≤ exact_sum lines
  unfolding new_order
  covers o b f summed less n h = elim (dec_le (pos_part d.amount_minor) (exact_sum lines)) [
    | yes p ↦ p
    | no p ↦ let neg = sub_large n p in ground arith
  ]

  -- Lines of 1 to 1000 units at prices that are not negative, whose exact sum stays below 2^63, make
  -- an order exactly when they are all in one named currency and the discount is in it, is not
  -- negative and is no more than the sum. The order is then pending, its subtotal is the exact sum
  -- and its total the sum less the discount.
  pub new_order_iff :
      (o : Order)
      → All IsLine lines
      → exact_sum lines < two63
      → Fits d.amount_minor
      → (new_order id (some suffix) user lines d now ≡ ok o) ↔ (
          (o ≡ priced)
          × (currency ≢ "")
          × All (λ i. i.unit_price.currency ≡ currency) lines
          × IsDiscount d currency (exact_sum lines))
  new_order_iff o l b f = (
    λ h.
        let (named, in_currency, not_negative, same) = passes o h in
        let covered =
          covers o b f (summed_exactly l b same)
            (sub_exact (exact_sum lines) currency d b f not_negative in_currency) not_negative h in
        let made = new_order_accepts l b f named same (in_currency, not_negative, covered) in
        (ok-injective (sym h ∙ made), named, same, (in_currency, not_negative, covered)),
    λ (e, named, same, less). new_order_accepts l b f named same less ∙ ap ok (sym e),
  )
