-- ===== src/Commerce/Sql.antt =====
-- backend/internal/db/sqlcgen/commerce.sql.go: each statement on the tables. An INSERT states the
-- uniqueness that the code relies on as an arbiter; any other refusal is a fault of the schedule.
pub mod Subscriptions
pub use vps_billing_workbuddy.Database.{one_row, insert_unless, returning}
use vps_billing_workbuddy.Prelude.{
  ℕ, suc, String, Bool, true, false, not, ◌&&◌, ◌||◌, Option, none, some, List, [], ◌∷◌, ◌++◌, ◌==◌,
  str_eq, if◌then◌else◌,
}
use vps_billing_workbuddy.Prelude.Int.{ℤ, pos, ◌+ℤ◌, ◌-ℤ◌, ◌==ℤ◌}
use vps_billing_workbuddy.Prelude.Int64.{wrap64}
use vps_billing_workbuddy.Errors.{
  Error, Result, ok, err, no_rows, unique_violation, statement_failed,
}
use vps_billing_workbuddy.Money.{Currency}
use vps_billing_workbuddy.Numbers.{number_eq}
use vps_billing_workbuddy.Ledger.{Uuid, uuid_nil, Entry, Transaction, direction_credit}
use vps_billing_workbuddy.Calendar.{Time}
use vps_billing_workbuddy.Commerce.States.{OrderStatus, PaymentStatus, order_eq, payment_eq}
use vps_billing_workbuddy.Commerce.Types.{
  Plan, Order, OrderItem, Payment, Invoice, InvoiceItem, InvoiceStatus,
}
use vps_billing_workbuddy.Commerce.Tables.{
  Tables, Wallet, EntryRow, OutboxEvent, Value, first_where, all_where, update_where, count_where,
}

abbrev pub option_eq : Option Uuid → Option Uuid → Bool
option_eq (some a) (some b) = a == b
option_eq _ _ = false

abbrev pub invoice_is_open : InvoiceStatus → Bool
invoice_is_open InvoiceStatus.open_status = true
invoice_is_open _ = false

unfoldable pub plan_by_id : Uuid → Tables → Result (Plan × Tables)
plan_by_id id t = one_row (first_where (λ (p : Plan). p.id == id) t.plans) t

-- `CreateOrder`, with UNIQUE on the identifier and on the number.
unfoldable pub create_order : Order → Tables → Result (Unit {0} × Tables)
create_order o t =
    insert_unless
      (count_where (λ (r : Order). r.id == o.id || number_eq r.order_no o.order_no) t.orders)
      "orders_order_no_key" (record t { orders = t.orders ++ record o { items = [] } ∷ [] })

unfoldable pub create_order_item : Uuid → OrderItem → Tables → Result (Unit {0} × Tables)
create_order_item order_id i t =
    insert_unless (count_where (λ (r : Uuid × OrderItem). r.1.id == i.id) t.order_items)
      "order_items_pkey" (record t { order_items = t.order_items ++ (order_id, i) ∷ [] })

unfoldable pub order_by_id_for_user : Uuid → Uuid → Tables → Result (Order × Tables)
order_by_id_for_user id user t =
    one_row (first_where (λ (o : Order). o.id == id && o.user_id == user) t.orders) t

unfoldable pub order_items_for_order : Uuid → Tables → Result (List (Uuid × OrderItem) × Tables)
order_items_for_order id t = ok (all_where (λ (r : Uuid × OrderItem). r.0 == id) t.order_items, t)

-- The rows that `PayOrder` matches: the pending order.
abbrev pub is_payable : Uuid → Order → Bool
is_payable id o = o.id == id && order_eq o.status OrderStatus.pending

unfoldable pub pay_order : Uuid → Time → Tables → Result (ℕ × Tables)
pay_order id at t = ok (
  count_where (is_payable id) t.orders,
  record t {
    orders =
        update_where (is_payable id)
          (λ (o : Order). record o { status = OrderStatus.paid; paid_at = some at }) t.orders;
  },
)

-- The rows that `MarkInvoicePaid` matches: the open invoices of the order.
abbrev pub is_order_bill : Uuid → Invoice → Bool
is_order_bill order i = option_eq i.order_id (some order) && invoice_is_open i.status

unfoldable pub mark_invoice_paid : Uuid → Time → Tables → Result (ℕ × Tables)
mark_invoice_paid order at t = ok (
  count_where (is_order_bill order) t.invoices,
  record t {
    invoices =
        update_where (is_order_bill order)
          (λ (i : Invoice). record i { status = InvoiceStatus.paid_status }) t.invoices;
  },
)

unfoldable pub create_invoice : Invoice → Tables → Result (Unit {0} × Tables)
create_invoice i t =
    insert_unless
      (count_where (λ (r : Invoice). r.id == i.id || number_eq r.invoice_no i.invoice_no)
        t.invoices)
      "invoices_invoice_no_key" (record t { invoices = t.invoices ++ record i { items = [] } ∷ [] })

unfoldable pub create_invoice_item : Uuid → InvoiceItem → Tables → Result (Unit {0} × Tables)
create_invoice_item invoice_id i t =
    insert_unless (count_where (λ (r : Uuid × InvoiceItem). r.1.id == i.id) t.invoice_items)
      "invoice_items_pkey" (record t { invoice_items = t.invoice_items ++ (invoice_id, i) ∷ [] })

-- `CreatePayment`: the constraints in the order of their indexes.
unfoldable pub create_payment : Payment → Tables → Result (Unit {0} × Tables)
create_payment p t =
    if not (
      count_where (λ (r : Payment). r.id == p.id || number_eq r.payment_no p.payment_no) t.payments
      == 0)
    then err (unique_violation "payments_payment_no_key")
    else if not
        (count_where (λ (r : Payment). r.idempotency_key == p.idempotency_key) t.payments == 0)
    then err (unique_violation "payments_idempotency_key_key")
    else insert_unless
        (count_where
          (λ (r : Payment).
            not (str_eq p.gateway_payment_id "")
            && str_eq r.gateway p.gateway
            && str_eq r.gateway_payment_id p.gateway_payment_id)
          t.payments)
        "ux_payments_gateway_external" (record t { payments = t.payments ++ p ∷ [] })

-- A gateway reference that is not stored is NULL, which equals nothing.
abbrev pub has_gateway_ref : String → String → Payment → Bool
has_gateway_ref gateway reference p =
    not (str_eq reference "") && str_eq p.gateway gateway && str_eq p.gateway_payment_id reference

unfoldable pub payment_by_gateway_ref : String → String → Tables → Result (Payment × Tables)
payment_by_gateway_ref gateway reference t =
    one_row (first_where (has_gateway_ref gateway reference) t.payments) t

-- The rows that `SettlePayment` and `FailPayment` match: the payment, pending or processing.
abbrev pub is_unsettled : Uuid → Payment → Bool
is_unsettled id p =
    p.id == id
    && (payment_eq p.status PaymentStatus.pending || payment_eq p.status PaymentStatus.processing)

abbrev pub settled_row : Time → Payment → Payment
settled_row at p = record p { status = PaymentStatus.succeeded; paid_at = some at }

abbrev pub failed_row : Payment → Payment
failed_row p = record p { status = PaymentStatus.failed }

unfoldable pub settle_payment : Uuid → Time → Tables → Result (Payment × Tables)
settle_payment id at t =
    returning (first_where (is_unsettled id) t.payments) (settled_row at)
      (record t { payments = update_where (is_unsettled id) (settled_row at) t.payments })

unfoldable pub fail_payment : Uuid → Time → Tables → Result (Payment × Tables)
fail_payment id at t =
    returning (first_where (is_unsettled id) t.payments) failed_row
      (record t { payments = update_where (is_unsettled id) failed_row t.payments })

unfoldable pub append_payment_payload :
    Uuid → List (String × Value) → Tables → Result (Unit {0} × Tables)
append_payment_payload id payload t =
    ok (tt, record t { payloads = t.payloads ++ (id, payload) ∷ [] })

unfoldable pub create_outbox_event : OutboxEvent → Tables → Result (Unit {0} × Tables)
create_outbox_event e t =
    insert_unless (count_where (λ (r : OutboxEvent). r.id == e.id) t.outbox) "outbox_events_pkey"
      (record t { outbox = t.outbox ++ e ∷ [] })

-- The transactions that the unique index on the reference counts as the same fact.
abbrev pub is_same_fact : Transaction → Transaction → Bool
is_same_fact a b =
    str_eq a.type b.type
    && str_eq a.reference_type b.reference_type
    && a.reference_id == b.reference_id

-- `CreateLedgerTransaction`; the reference is NULL where the identifier is nil.
unfoldable pub create_ledger_transaction : Transaction → Tables → Result (Unit {0} × Tables)
create_ledger_transaction x t =
    insert_unless
      (count_where
        (λ (r : Transaction).
          r.id == x.id || (not (x.reference_id == uuid_nil) && is_same_fact x r))
        t.transactions)
      "ux_ledger_transactions_reference"
      (record t { transactions = t.transactions ++ record x { entries = [] } ∷ [] })

-- `CreateLedgerEntry`; the row's own identifier is never read.
unfoldable pub create_ledger_entry : Uuid → Entry → Tables → Result (Unit {0} × Tables)
create_ledger_entry transaction_id e t = ok (
  tt,
  record t { entries = t.entries ++ record { transaction_id = transaction_id; entry = e } ∷ [] },
)

abbrev is_of_account : String → Uuid → Currency → Entry → Bool
is_of_account account_type account_id currency e =
    str_eq e.account_type account_type
    && e.account_id == account_id
    && str_eq e.amount.currency currency

-- CASE WHEN direction = 'credit' THEN amount_minor ELSE - amount_minor END
abbrev credit_minus_debit : Entry → ℤ
credit_minus_debit e =
    if str_eq e.direction direction_credit
    then e.amount.amount_minor
    else pos 0 -ℤ e.amount.amount_minor

unfoldable pub sum_account : String → Uuid → Currency → List EntryRow → ℤ
sum_account account_type account_id currency [] = pos 0
sum_account account_type account_id currency (r ∷ rs) =
    (if is_of_account account_type account_id currency r.entry
      then credit_minus_debit r.entry
      else pos 0)
    +ℤ sum_account account_type account_id currency rs

-- A value that a bigint column cannot hold fails the statement.
abbrev pub bigint : {A : Type 0} → ℤ → Result A → Result A
bigint n r = if wrap64 n ==ℤ n then r else err statement_failed

unfoldable pub sum_ledger_account : String → Uuid → Currency → Tables → Result (ℤ × Tables)
unfolding sum_account
sum_ledger_account account_type account_id currency t =
    let total = sum_account account_type account_id currency t.entries in
    bigint total (ok (total, t))

abbrev pub is_wallet_of : Uuid → Currency → Wallet → Bool
is_wallet_of user currency w = w.user_id == user && str_eq w.currency currency

abbrev pub credited : ℤ → Wallet → Wallet
credited delta w = record w { balance_minor = w.balance_minor +ℤ delta }

-- INSERT … ON CONFLICT (user_id, currency) DO UPDATE, on the wallet that was found.
abbrev pub upsert : Option Wallet → Uuid → Uuid → Currency → ℤ → Tables → Result (Unit {0} × Tables)
upsert none id user currency delta t = ok (
  tt,
  record t {
    wallets =
        t.wallets
        ++ record { id = id; user_id = user; currency = currency; balance_minor = delta } ∷ [];
  },
)
upsert (some w) id user currency delta t = bigint (w.balance_minor +ℤ delta) (
    ok (
      tt,
      record t { wallets = update_where (is_wallet_of user currency) (credited delta) t.wallets },
    ))

unfoldable pub upsert_wallet_balance :
    Uuid → Uuid → Currency → ℤ → Tables → Result (Unit {0} × Tables)
upsert_wallet_balance id user currency delta t =
    upsert (first_where (is_wallet_of user currency) t.wallets) id user currency delta t
