-- ===== src/Commerce/Renewal/Tests.antt =====
-- Tests of renewals: a subscription whose period has ended, its open bill, and a wallet.
use vps_billing_workbuddy.Prelude.{
  ℕ, ◌+◌, ◌≡◌, ◌≤◌, refl, ◌⊎◌, true, false, none, some, List, [], ◌∷◌, arith,
}
use vps_billing_workbuddy.Prelude.Int.{ℤ, pos, ◌≤ℤ◌, ◌-ℤ◌}
use vps_billing_workbuddy.Money.{Money}
use vps_billing_workbuddy.Calendar.{Time}
use vps_billing_workbuddy.Ledger.{Uuid}
use vps_billing_workbuddy.Database.{World, done, world_after}
use vps_billing_workbuddy.Commerce.States.{SubscriptionStatus}
use vps_billing_workbuddy.Commerce.Types.{Invoice, InvoiceStatus, Subscription}
use vps_billing_workbuddy.Commerce.Tables.{Tables, Wallet, count_where}
use vps_billing_workbuddy.Commerce.Sql.Subscriptions as Sql
use vps_billing_workbuddy.Commerce.Renewal.{pay_renewal_invoice}
use vps_billing_workbuddy.Commerce.Renewal.Unpaid.{pay_renewal_invoice_lem}
use vps_billing_workbuddy.Commerce.Renewal.Wallet.{held, paid_from_wallet}

abbrev usd : ℕ → Money
usd n = record { amount_minor = pos n; currency = "USD" }

abbrev june : Time
june = record { year = 2025; month = 6; day = 1; nanos = 0 }

abbrev subscription : Subscription
subscription = record {
  id = 61;
  user_id = 9;
  plan_id = 7;
  status = SubscriptionStatus.active;
  billing_cycle = "monthly";
  price = usd 1999;
  started_at = none;
  current_period_start = record june { month = 5 };
  current_period_end = june;
  next_due_at = june;
  grace_until = none;
  cancel_at_period_end = false;
  ended_at = none;
  version = 1;
}

abbrev bill : Invoice
bill = record {
  id = 51;
  invoice_no = record { prefix = "INV"; year = 2025; month = 6; day = 1; suffix = 5 };
  user_id = 9;
  order_id = none;
  subscription_id = some 61;
  status = InvoiceStatus.open_status;
  amount = usd 1999;
  due_at = some june;
  items = [];
}

abbrev holding : ℕ → World Tables
holding n = record {
  db = record {
    plans = [];
    orders = [];
    order_items = [];
    payments = [];
    payloads = [];
    invoices = bill ∷ [];
    invoice_items = [];
    subscriptions = subscription ∷ [];
    transactions = [];
    entries = [];
    wallets = record { id = 71; user_id = 9; currency = "USD"; balance_minor = pos n } ∷ [];
    outbox = [];
  };
  faults = [];
  drawn = 0;
}

abbrev new_uuid : ℕ → Uuid
new_uuid n = 1000 + n

one_bill : count_where (Sql.is_open_bill 51) (bill ∷ []) ≤ 1
unfolding count_where
one_bill = omega arith

-- A wallet that is one cent short.
pay_renewal_invoice_example :
    (pay_renewal_invoice new_uuid subscription bill (holding 1998)
      ≡ done true (world_after (pay_renewal_invoice new_uuid subscription bill (holding 1998))))
    ⊎ ((world_after (pay_renewal_invoice new_uuid subscription bill (holding 1998))).db
        ≡ (holding 1998).db)
pay_renewal_invoice_example =
    pay_renewal_invoice_lem new_uuid subscription bill (holding 1998) one_bill

abbrev after_payment : World Tables
after_payment = world_after (pay_renewal_invoice new_uuid subscription bill (holding 2500))

pays : pay_renewal_invoice new_uuid subscription bill (holding 2500) ≡ done true after_payment
unfolding pay_renewal_invoice vps_billing_workbuddy.Database.◌>>=◌
    vps_billing_workbuddy.Database.lift vps_billing_workbuddy.Database.fresh
    vps_billing_workbuddy.Database.within_transaction vps_billing_workbuddy.Database.statement
    vps_billing_workbuddy.Commerce.Tables.first_where
    vps_billing_workbuddy.Commerce.Tables.count_where vps_billing_workbuddy.Database.pure
    vps_billing_workbuddy.Commerce.Cycle.add_billing_cycle
    vps_billing_workbuddy.Commerce.Sql.create_ledger_entry
    vps_billing_workbuddy.Commerce.Sql.create_ledger_transaction
    vps_billing_workbuddy.Commerce.Sql.create_outbox_event
    vps_billing_workbuddy.Commerce.Store.apply_projection
    vps_billing_workbuddy.Commerce.Store.create_ledger_entries
    vps_billing_workbuddy.Commerce.Store.post vps_billing_workbuddy.Commerce.Store.post_transaction
    vps_billing_workbuddy.Commerce.Store.record_outbox_event
    vps_billing_workbuddy.Commerce.Tables.update_where vps_billing_workbuddy.Database.map_error
    vps_billing_workbuddy.Database.throw vps_billing_workbuddy.Ledger.contains
    vps_billing_workbuddy.Ledger.verify vps_billing_workbuddy.Ledger.verify_entries
    vps_billing_workbuddy.Ledger.signed vps_billing_workbuddy.Money.is_negative
    vps_billing_workbuddy.Prelude.Int.◌+ℤ◌ vps_billing_workbuddy.Prelude.Int.◌-ℤ◌
    vps_billing_workbuddy.Prelude.Int64.wrap64 vps_billing_workbuddy.Prelude.Int64.◌+w◌
    vps_billing_workbuddy.Prelude.Int64.◌-w◌ vps_billing_workbuddy.Commerce.Renewal.unless_lost
    vps_billing_workbuddy.Commerce.Renewal.renewal_body
    vps_billing_workbuddy.Commerce.Renewal.charge
    vps_billing_workbuddy.Commerce.Store.Subscriptions.mark_subscription_invoice_paid
    vps_billing_workbuddy.Commerce.Sql.Subscriptions.mark_subscription_invoice_paid
    vps_billing_workbuddy.Commerce.Store.Subscriptions.lock_wallet_for_spend
    vps_billing_workbuddy.Commerce.Store.Subscriptions.balance_of
    vps_billing_workbuddy.Commerce.Sql.Subscriptions.lock_wallet_for_spend
    vps_billing_workbuddy.Commerce.Store.Subscriptions.extend_subscription
    vps_billing_workbuddy.Commerce.Sql.Subscriptions.extend_subscription
    vps_billing_workbuddy.Commerce.Sql.upsert_wallet_balance
pays = refl

paid_from_wallet_example :
    (pos 1999 ≤ℤ held 9 "USD" (holding 2500).db)
    × (pos 0 ≤ℤ pos 1999)
    × (held 9 "USD" after_payment.db ≡ held 9 "USD" (holding 2500).db -ℤ pos 1999)
    × (pos 0 ≤ℤ held 9 "USD" after_payment.db)
paid_from_wallet_example =
    paid_from_wallet new_uuid subscription bill (holding 2500) after_payment (omega arith) pays
