-- ===== src/Commerce/Activation.antt =====
-- backend/internal/commerce/subscription_service.go: the subscriptions that a settled order activates.
use vps_billing_workbuddy.Prelude.{ℕ, String, false, none, some, List, [], ◌∷◌}
use vps_billing_workbuddy.Database.{◌>>=◌, ◌>>◌, pure, lift, fresh}
use vps_billing_workbuddy.Ledger.{Uuid}
use vps_billing_workbuddy.Calendar.{Time}
use vps_billing_workbuddy.Commerce.States.{SubscriptionStatus}
use vps_billing_workbuddy.Commerce.Types.{Order, OrderItem, Subscription}
use vps_billing_workbuddy.Commerce.Tables.{OutboxEvent, Value}
use vps_billing_workbuddy.Commerce.Cycle.{add_billing_cycle}
use vps_billing_workbuddy.Commerce.Store.{Call, record_outbox_event}
use vps_billing_workbuddy.Commerce.Store.Subscriptions.{create_subscription}

abbrev pub aggregate_subscription : String
aggregate_subscription = "subscription"

-- The subscription that a line of an order starts, and the event that records it.
abbrev pub subscription_of : Uuid → Order → OrderItem → Time → Time → Subscription
subscription_of id order line now period_end = record {
  id = id;
  user_id = order.user_id;
  plan_id = line.plan_id;
  status = SubscriptionStatus.active;
  billing_cycle = line.plan_snapshot.billing_cycle;
  price = line.unit_price;
  started_at = some now;
  current_period_start = now;
  current_period_end = period_end;
  next_due_at = period_end;
  grace_until = none;
  cancel_at_period_end = false;
  ended_at = none;
  version = 1;
}

abbrev pub activated_event : Uuid → Order → Subscription → OutboxEvent
activated_event id order s = record {
  id = id;
  event_type = "subscription.activated.v1";
  aggregate_type = aggregate_subscription;
  aggregate_id = s.id;
  payload =
      ("subscription_id", Value.id_text s.id)
      ∷ ("user_id", Value.id_text s.user_id)
      ∷ ("plan_id", Value.id_text s.plan_id)
      ∷ ("billing_cycle", Value.text s.billing_cycle)
      ∷ ("order_id", Value.id_text order.id)
      ∷ ("current_period_end", Value.rfc3339 s.current_period_end)
      ∷ [];
}

module _ (new_uuid : ℕ → Uuid) where
  abbrev pub activate_line : Order → OrderItem → Time → Call (Unit {0})
  activate_line order line now = do
    period_end ← lift (add_billing_cycle line.plan_snapshot.billing_cycle now)
    id ← fresh new_uuid
    let s = subscription_of id order line now period_end
    create_subscription s
    event_id ← fresh new_uuid
    record_outbox_event (activated_event event_id order s)

  unfoldable pub activate_lines : Order → List OrderItem → Time → Call (Unit {0})
  activate_lines order [] now = pure tt
  activate_lines order (line ∷ lines) now = do
    activate_line order line now
    activate_lines order lines now

  unfoldable pub activate_subscriptions_from_order : Order → Time → Call (Unit {0})
  unfolding activate_lines
  activate_subscriptions_from_order order now = activate_lines order order.items now
