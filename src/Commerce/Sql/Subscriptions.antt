-- ===== src/Commerce/Sql/Subscriptions.antt =====
-- backend/internal/db/sqlcgen/subscription.sql.go: each statement on the tables.
use vps_billing_workbuddy.Prelude.{
  ℕ, ◌+◌, Bool, true, false, not, ◌&&◌, ◌||◌, Option, none, some, List, [], ◌∷◌, ◌++◌, ◌==◌,
  if◌then◌else◌,
}
use vps_billing_workbuddy.Errors.{Result, ok}
use vps_billing_workbuddy.Money.{Currency}
use vps_billing_workbuddy.Numbers.{number_eq}
use vps_billing_workbuddy.Ledger.{Uuid}
use vps_billing_workbuddy.Calendar.{Time, after}
use vps_billing_workbuddy.Commerce.States.{SubscriptionStatus, subscription_eq}
use vps_billing_workbuddy.Commerce.Types.{Plan, Order, Invoice, InvoiceStatus, Subscription}
use vps_billing_workbuddy.Commerce.Tables.{
  Tables, Wallet, first_where, all_where, update_where, count_where,
}
use vps_billing_workbuddy.Commerce.Sql.{
  one_row, insert_unless, option_eq, invoice_is_open, is_wallet_of,
}

unfoldable pub create_subscription : Subscription → Tables → Result (Unit {0} × Tables)
create_subscription s t =
    insert_unless (count_where (λ (r : Subscription). r.id == s.id) t.subscriptions)
      "subscriptions_pkey" (record t { subscriptions = t.subscriptions ++ s ∷ [] })

-- The partial unique index on open renewal invoices: an open invoice of the subscription.
abbrev pub is_open_renewal : Uuid → Invoice → Bool
is_open_renewal subscription i =
    option_eq i.subscription_id (some subscription) && invoice_is_open i.status

abbrev collides : Invoice → Invoice → Bool
collides i r =
    r.id == i.id
    || number_eq r.invoice_no i.invoice_no
    || (option_eq r.subscription_id i.subscription_id
        && invoice_is_open r.status
        && invoice_is_open i.status)

unfoldable pub create_subscription_invoice : Invoice → Tables → Result (Unit {0} × Tables)
create_subscription_invoice i t =
    insert_unless (count_where (collides i) t.invoices) "ux_invoices_open_renewal"
      (record t { invoices = t.invoices ++ record i { items = [] } ∷ [] })

abbrev pub in_status : List SubscriptionStatus → SubscriptionStatus → Bool
in_status [] s = false
in_status (x ∷ xs) s = subscription_eq s x || in_status xs s

-- The rows that `ExtendSubscription` matches, and the row that it makes.
abbrev pub is_extendable : Uuid → Subscription → Bool
is_extendable id s =
    s.id == id
    && in_status
        (SubscriptionStatus.active ∷ SubscriptionStatus.past_due ∷ SubscriptionStatus.suspended
          ∷ [])
        s.status

abbrev pub extended_row : Time → Time → Subscription → Subscription
extended_row start end s = record s {
  status = SubscriptionStatus.active;
  current_period_start = start;
  current_period_end = end;
  next_due_at = end;
  grace_until = none;
  version = s.version + 1;
}

unfoldable pub extend_subscription : Uuid → Time → Time → Tables → Result (ℕ × Tables)
extend_subscription id start end t = ok (
  count_where (is_extendable id) t.subscriptions,
  record t {
    subscriptions = update_where (is_extendable id) (extended_row start end) t.subscriptions;
  },
)

unfoldable pub list_subscriptions_for_user : Uuid → Tables → Result (List Subscription × Tables)
list_subscriptions_for_user user t =
    ok (all_where (λ (s : Subscription). s.user_id == user) t.subscriptions, t)

unfoldable pub lock_wallet_for_spend : Uuid → Currency → Tables → Result (Wallet × Tables)
lock_wallet_for_spend user currency t =
    one_row (first_where (is_wallet_of user currency) t.wallets) t

abbrev pub is_open_bill : Uuid → Invoice → Bool
is_open_bill id i = i.id == id && invoice_is_open i.status

abbrev pub paid_bill : Invoice → Invoice
paid_bill i = record i { status = InvoiceStatus.paid_status }

unfoldable pub mark_subscription_invoice_paid : Uuid → Tables → Result (ℕ × Tables)
mark_subscription_invoice_paid id t = ok (
  count_where (is_open_bill id) t.invoices,
  record t { invoices = update_where (is_open_bill id) paid_bill t.invoices },
)

unfoldable pub open_invoice_for_subscription : Uuid → Tables → Result (Invoice × Tables)
open_invoice_for_subscription subscription t =
    one_row (first_where (is_open_renewal subscription) t.invoices) t

unfoldable pub order_by_id_for_settlement : Uuid → Tables → Result (Order × Tables)
order_by_id_for_settlement id t = one_row (first_where (λ (o : Order). o.id == id) t.orders) t

abbrev is_cancellable : Uuid → Uuid → Subscription → Bool
is_cancellable id user s =
    s.id == id
    && s.user_id == user
    && in_status (SubscriptionStatus.active ∷ SubscriptionStatus.past_due ∷ []) s.status

unfoldable pub set_cancel_at_period_end : Uuid → Uuid → Tables → Result (ℕ × Tables)
set_cancel_at_period_end id user t = ok (
  count_where (is_cancellable id user) t.subscriptions,
  record t {
    subscriptions =
        update_where (is_cancellable id user)
          (λ (s : Subscription). record s { cancel_at_period_end = true; version = s.version + 1 })
          t.subscriptions;
  },
)

unfoldable pub subscription_by_id : Uuid → Tables → Result (Subscription × Tables)
subscription_by_id id t = one_row (first_where (λ (s : Subscription). s.id == id) t.subscriptions) t

unfoldable pub subscription_by_id_for_user : Uuid → Uuid → Tables → Result (Subscription × Tables)
subscription_by_id_for_user id user t =
    one_row (first_where (λ (s : Subscription). s.id == id && s.user_id == user) t.subscriptions) t

-- `a <= b` on instants; a NULL instant is not.
abbrev pub not_after : Time → Time → Bool
not_after a b = not (after a b)

abbrev expired_by : Option Time → Time → Bool
expired_by none now = false
expired_by (some t) now = not_after t now

abbrev pub is_past_deadline : Time → Subscription → Bool
is_past_deadline now s =
    (in_status (SubscriptionStatus.active ∷ SubscriptionStatus.past_due ∷ []) s.status
      && not_after s.current_period_end now)
    || (subscription_eq s.status SubscriptionStatus.suspended && expired_by s.grace_until now)

-- The plan of each row, which the JOIN reads; a row without one is not listed.
abbrev with_plan : List Plan → List Subscription → List (Subscription × Plan)
with_plan plans [] = []
with_plan plans (s ∷ ss) =
    let rest = with_plan plans ss in
    elim (first_where (λ (p : Plan). p.id == s.plan_id) plans) [
      | none ↦ rest
      | some p ↦ (s, p) ∷ rest
    ]

unfoldable pub subscriptions_past_deadline :
    Time → Tables → Result (List (Subscription × Plan) × Tables)
subscriptions_past_deadline now t =
    ok (with_plan t.plans (all_where (is_past_deadline now) t.subscriptions), t)

-- The rows that `TransitionSubscription` matches: seen in `from`, and for the targets bound to the
-- calendar the period has ended.
abbrev pub is_movable : Uuid → SubscriptionStatus → SubscriptionStatus → Time → Subscription → Bool
is_movable id from to at s =
    s.id == id
    && subscription_eq s.status from
    && (not (in_status (SubscriptionStatus.past_due ∷ SubscriptionStatus.cancelled ∷ []) to)
        || not_after s.current_period_end at)

abbrev pub moved_row : SubscriptionStatus → Option Time → Option Time → Subscription → Subscription
moved_row to deadline ended_at s = record s {
  status = to;
  grace_until = deadline;
  ended_at = ended_at;
  cancel_at_period_end =
      if subscription_eq to SubscriptionStatus.cancelled then false else s.cancel_at_period_end;
  version = s.version + 1;
}

unfoldable pub transition_subscription :
    Uuid
    → SubscriptionStatus
    → SubscriptionStatus
    → Option Time
    → Option Time
    → Time
    → Tables
    → Result (ℕ × Tables)
transition_subscription id from to deadline ended_at at t = ok (
  count_where (is_movable id from to at) t.subscriptions,
  record t {
    subscriptions =
        update_where (is_movable id from to at) (moved_row to deadline ended_at) t.subscriptions;
  },
)
