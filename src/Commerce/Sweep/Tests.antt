-- ===== src/Commerce/Sweep/Tests.antt =====
-- Tests of the sweep: a cancellation that was asked for, of a plan that is on sale.
use vps_billing_workbuddy.Prelude.{ℕ, ◌+◌, ◌≡◌, refl, true, none, some, [], ◌∷◌}
use vps_billing_workbuddy.Prelude.Int.{pos}
use vps_billing_workbuddy.Calendar.{Time}
use vps_billing_workbuddy.Ledger.{Uuid}
use vps_billing_workbuddy.Database.{World, done, world_after}
use vps_billing_workbuddy.Commerce.States.{SubscriptionStatus}
use vps_billing_workbuddy.Commerce.Types.{Plan, PlanStatus, Subscription}
use vps_billing_workbuddy.Commerce.Tables.{Tables, count_where}
use vps_billing_workbuddy.Commerce.Renewal.{SweepSubscription}
use vps_billing_workbuddy.Commerce.Sweep.{SweepResult, sweep_one, sweep}
use vps_billing_workbuddy.Commerce.Sweep.Counts.{counted, counted-sweep}

abbrev june : Time
june = record { year = 2025; month = 6; day = 1; nanos = 0 }

abbrev now : Time
now = record { year = 2025; month = 6; day = 2; nanos = 0 }

abbrev subscription : Subscription
subscription = record {
  id = 61;
  user_id = 9;
  plan_id = 7;
  status = SubscriptionStatus.active;
  billing_cycle = "monthly";
  price = record { amount_minor = pos 1999; currency = "USD" };
  started_at = none;
  current_period_start = record june { month = 5 };
  current_period_end = june;
  next_due_at = june;
  grace_until = none;
  cancel_at_period_end = true;
  ended_at = none;
  version = 1;
}

abbrev row : SweepSubscription
row = record { subscription = subscription; plan_name = []; plan_slug = "small" }

abbrev calm : World Tables
calm = record {
  db = record {
    plans = [];
    orders = [];
    order_items = [];
    payments = [];
    payloads = [];
    invoices = [];
    invoice_items = [];
    subscriptions = subscription ∷ [];
    transactions = [];
    entries = [];
    wallets = [];
    outbox = [];
  };
  faults = [];
  drawn = 0;
}

abbrev new_uuid : ℕ → Uuid
new_uuid n = 1000 + n

abbrev swept : World Tables
swept = world_after (sweep_one new_uuid now row (some 5) calm)

abbrev plan : Plan
plan = record {
  id = 7;
  product_id = 3;
  slug = "small";
  name = [];
  status = PlanStatus.active;
  cpu_cores = "1";
  memory_mb = pos 1024;
  disk_gb = pos 20;
  virtualization = "kvm";
  billing_cycle = "monthly";
  price = record { amount_minor = pos 1999; currency = "USD" };
}

abbrev shop : World Tables
shop = record calm { db = record calm.db { plans = plan ∷ [] } }

abbrev report : SweepResult
report = record {
  scanned = 1;
  renewed_count = 0;
  cancelled_count = 1;
  past_due_count = 0;
  suspended_count = 0;
  expired_count = 0;
  skipped_count = 0;
}

abbrev shop_swept : World Tables
shop_swept = world_after (sweep new_uuid now (λ n. some n) shop)

sweeps : sweep new_uuid now (λ n. some n) shop ≡ done report shop_swept
unfolding sweep sweep_one vps_billing_workbuddy.Commerce.Sweep.sweep_rows
    vps_billing_workbuddy.Commerce.Sweep.count_outcome
    vps_billing_workbuddy.Commerce.Store.Subscriptions.subscriptions_past_deadline
    vps_billing_workbuddy.Commerce.Sql.Subscriptions.subscriptions_past_deadline
    vps_billing_workbuddy.Commerce.Tables.first_where
    vps_billing_workbuddy.Commerce.Tables.all_where vps_billing_workbuddy.Commerce.Sweep.move
    vps_billing_workbuddy.Commerce.Renewal.transition_live
    vps_billing_workbuddy.Commerce.Renewal.transition_event
    vps_billing_workbuddy.Commerce.Store.Subscriptions.transition_subscription
    vps_billing_workbuddy.Commerce.Sql.Subscriptions.transition_subscription
    vps_billing_workbuddy.Commerce.Store.record_outbox_event
    vps_billing_workbuddy.Commerce.Sql.create_outbox_event
    vps_billing_workbuddy.Commerce.Tables.count_where
    vps_billing_workbuddy.Commerce.Tables.update_where vps_billing_workbuddy.Database.◌>>=◌
    vps_billing_workbuddy.Database.pure vps_billing_workbuddy.Database.fresh
    vps_billing_workbuddy.Database.statement vps_billing_workbuddy.Calendar.after
    vps_billing_workbuddy.Calendar.before
sweeps = refl

counted-sweep_example : counted report ≡ 1
counted-sweep_example = counted-sweep new_uuid now (λ n. some n) shop report shop_swept sweeps
