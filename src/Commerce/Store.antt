-- ===== src/Commerce/Store.antt =====
-- backend/internal/storage/commerce: the store over the statements. A read maps "no row" to the
-- domain's error, a write maps a uniqueness violation to the domain's conflict.
pub mod Subscriptions
pub mod Effects
pub mod Postings
pub use vps_billing_workbuddy.Database.{when_no_rows}
unfoldable pub use vps_billing_workbuddy.Database.{if_applied}
use vps_billing_workbuddy.Prelude.{
  ℕ, suc, String, Bool, true, false, not, ◌&&◌, ◌||◌, Option, none, some, List, [], ◌∷◌, map, ◌==◌,
  leb, ltb, str_eq, if◌then◌else◌,
}
use vps_billing_workbuddy.Prelude.Int.{ℤ, pos, ltb_ℤ}
use vps_billing_workbuddy.Errors.{
  Error, Result, ok, err, no_rows, unique_violation, statement_failed, plan_not_found,
  order_not_found, payment_not_found, payment_already_started, conflict, no_open_invoice,
  invalid_quantity,
}
use vps_billing_workbuddy.Database.{
  World, Outcome, done, failed, Action, ◌>>=◌, ◌>>◌, pure, throw, lift, map_error, statement, fresh,
}
use vps_billing_workbuddy.Money.{Money, Currency}
use vps_billing_workbuddy.Ledger.{Uuid, Entry, Transaction, account_user_wallet, signed, verify}
use vps_billing_workbuddy.Calendar.{Time}
use vps_billing_workbuddy.Commerce.Types.{Plan, Order, OrderItem, Payment, Invoice, InvoiceItem}
use vps_billing_workbuddy.Commerce.Tables.{Tables, OutboxEvent, Value}
use vps_billing_workbuddy.Commerce.Orders.{max_order_quantity}
use vps_billing_workbuddy.Commerce.Sql

-- A call on the commerce tables.
abbrev pub Call : Type 0 → Type 0
Call A = Action Tables A

abbrev violation : String → Error
violation constraint =
    if str_eq constraint "payments_idempotency_key_key" then payment_already_started else conflict

-- `mapWriteError`
abbrev pub map_write_error : Error → Error
map_write_error (unique_violation constraint) = violation constraint
map_write_error other = other

unfoldable pub plan_by_id : Uuid → Call Plan
plan_by_id id = map_error (when_no_rows plan_not_found) (statement (Sql.plan_by_id id))

-- `quantityColumn`
abbrev quantity_column : ℤ → Result ℤ
quantity_column q =
    if ltb_ℤ q (pos 1) || ltb_ℤ (pos max_order_quantity) q then err invalid_quantity else ok q

unfoldable pub create_order_items : Uuid → List OrderItem → Call (Unit {0})
create_order_items id [] = pure tt
create_order_items id (i ∷ is) = do
  lift (quantity_column i.quantity)
  map_error map_write_error (statement (Sql.create_order_item id i))
  create_order_items id is

unfoldable pub create_order : Order → Call (Unit {0})
unfolding create_order_items
create_order o = do
  map_error map_write_error (statement (Sql.create_order o))
  create_order_items o.id o.items

-- `toOrderItem`: the price is in the snapshot's currency.
abbrev pub to_order_item : OrderItem → OrderItem
to_order_item i = record i {
  unit_price = record {
    amount_minor = i.unit_price.amount_minor;
    currency = i.plan_snapshot.currency;
  };
}

unfoldable pub order_items : Uuid → Call (List OrderItem)
order_items id = do
  rows ← statement (Sql.order_items_for_order id)
  pure (map (λ (r : Uuid × OrderItem). to_order_item r.1) rows)

unfoldable pub order_for_user : Uuid → Uuid → Call Order
unfolding order_items
order_for_user id user = do
  row ← map_error (when_no_rows order_not_found) (statement (Sql.order_by_id_for_user id user))
  items ← order_items id
  pure (record row { items = items })

abbrev pay_bill : Uuid → Time → Call (Unit {0})
pay_bill id at = do
  bills ← statement (Sql.mark_invoice_paid id at)
  if bills == 0 then throw no_open_invoice else pure tt

unfoldable pub pay_order : Uuid → Time → Call (Unit {0})
pay_order id at = do
  orders ← statement (Sql.pay_order id at)
  if orders == 0 then throw order_not_found else pay_bill id at

unfoldable pub create_invoice : Invoice → Call (Unit {0})
create_invoice i = map_error map_write_error (statement (Sql.create_invoice i))

unfoldable pub create_invoice_items : Uuid → List InvoiceItem → Call (Unit {0})
create_invoice_items id [] = pure tt
create_invoice_items id (i ∷ is) = do
  lift (quantity_column i.quantity)
  map_error map_write_error (statement (Sql.create_invoice_item id i))
  create_invoice_items id is

unfoldable pub create_payment : Payment → Call (Unit {0})
create_payment p = map_error map_write_error (statement (Sql.create_payment p))

unfoldable pub find_payment_by_gateway_ref : String → String → Call Payment
find_payment_by_gateway_ref gateway reference =
    map_error (when_no_rows payment_not_found)
      (statement (Sql.payment_by_gateway_ref gateway reference))

unfoldable pub settle_payment : Uuid → Time → Call (Option Payment)
settle_payment id at = if_applied (statement (Sql.settle_payment id at))

unfoldable pub fail_payment : Uuid → Time → Call (Option Payment)
fail_payment id at = if_applied (statement (Sql.fail_payment id at))

unfoldable pub append_gateway_payload : Uuid → List (String × Value) → Call (Unit {0})
append_gateway_payload id payload = statement (Sql.append_payment_payload id payload)

unfoldable pub record_outbox_event : OutboxEvent → Call (Unit {0})
record_outbox_event e = statement (Sql.create_outbox_event e)

-- `ledgerStore.PostTransaction`
unfoldable pub create_ledger_entries : Uuid → List Entry → Call (Unit {0})
create_ledger_entries id [] = pure tt
create_ledger_entries id (e ∷ es) = do
  statement (Sql.create_ledger_entry id e)
  create_ledger_entries id es

unfoldable pub post_transaction : Transaction → Call (Unit {0})
unfolding create_ledger_entries
post_transaction x = do
  statement (Sql.create_ledger_transaction x)
  create_ledger_entries x.id x.entries

unfoldable pub sum_account : String → Uuid → Currency → Call ℤ
sum_account account_type account_id currency =
    statement (Sql.sum_ledger_account account_type account_id currency)

module _ (new_uuid : ℕ → Uuid) where
  abbrev pub move_wallet : Entry → Call (Unit {0})
  move_wallet e = do
    id ← fresh new_uuid
    statement (Sql.upsert_wallet_balance id e.account_id e.amount.currency (signed e))

  -- `walletProjection.Apply`
  unfoldable pub apply_projection : List Entry → Call (Unit {0})
  apply_projection [] = pure tt
  apply_projection (e ∷ es) = do
    if str_eq e.account_type account_user_wallet then move_wallet e else pure tt
    apply_projection es

  -- `Poster.Post` (ledger/poster.go), with the poster that `Store.Poster` builds: the ledger's
  -- statements, and the wallet projection alone.
  unfoldable pub post : Transaction → Call (Unit {0})
  unfolding post_transaction apply_projection
  post x = do lift (verify x); post_transaction x; apply_projection x.entries

-- `Poster.Balance`
unfoldable pub balance : String → Uuid → Currency → Call Money
unfolding sum_account
balance account_type account_id currency = do
  total ← sum_account account_type account_id currency
  pure (record { amount_minor = total; currency = currency })
