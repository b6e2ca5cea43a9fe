-- ===== src/Commerce/Renewal.antt =====
-- backend/internal/commerce/subscription_service.go: renewals paid from the wallet, the moves of a
-- subscription, and what its owner and an administrator ask for.
pub mod Unpaid
pub mod Wallet
pub mod Periods
pub mod Opening
mod Tests
use vps_billing_workbuddy.Prelude.{
  ℕ, String, Bool, true, false, not, ◌&&◌, ◌||◌, Option, none, some, List, [], ◌∷◌, if◌then◌else◌,
}
use vps_billing_workbuddy.Prelude.Int.{pos, ltb_ℤ}
use vps_billing_workbuddy.Errors.{
  Error, balance_short, extension_lost, no_event_type, conflict, subscription_not_live,
  invoice_not_found, nothing_due, insufficient_balance, refuse_if,
}
use vps_billing_workbuddy.Database.{
  World, Outcome, done, failed, Action, ◌>>=◌, ◌>>◌, pure, throw, lift, within_transaction, fresh,
}
use vps_billing_workbuddy.Numbers.{Number, new_number}
use vps_billing_workbuddy.Money.{Money}
use vps_billing_workbuddy.Ledger.{
  Uuid, Entry, Transaction, Description, account_user_wallet, account_revenue, account_id_revenue,
  direction_debit, direction_credit, type_payment_settlement,
}
use vps_billing_workbuddy.Calendar.{Time, before, after, add_duration}
use vps_billing_workbuddy.Commerce.States.{
  SubscriptionStatus, subscription_eq, subscription_is_live,
}
use vps_billing_workbuddy.Commerce.Types.{
  Names, Plan, Invoice, InvoiceItem, InvoiceStatus, Subscription,
}
use vps_billing_workbuddy.Commerce.Tables.{Tables, OutboxEvent, Value}
use vps_billing_workbuddy.Commerce.Cycle.{add_billing_cycle, grace_past_due, subscription_deadline}
use vps_billing_workbuddy.Commerce.Store.{Call, plan_by_id, post, record_outbox_event}
use vps_billing_workbuddy.Commerce.Store.Subscriptions.{
  subscription_by_id, subscription_for_user, transition_subscription, extend_subscription,
  set_cancel_at_period_end, create_subscription_invoice, create_subscription_invoice_items,
  open_renewal_invoice_for, mark_subscription_invoice_paid, lock_wallet_for_spend,
}
use vps_billing_workbuddy.Commerce.Activation.{aggregate_subscription}

-- A subscription with the words of its plan.
pub record SweepSubscription : Type 0 where
  pub subscription : Subscription
  pub plan_name : Names
  pub plan_slug : String

-- The map `transitionEvent`; a status that is missing has no event type.
unfoldable pub transition_event : SubscriptionStatus → Option String
transition_event SubscriptionStatus.past_due = some "subscription.past_due.v1"
transition_event SubscriptionStatus.suspended = some "subscription.suspended.v1"
transition_event SubscriptionStatus.expired = some "subscription.expired.v1"
transition_event SubscriptionStatus.cancelled = some "subscription.cancelled.v1"
transition_event SubscriptionStatus.terminated = some "subscription.terminated.v1"
transition_event _ = none

abbrev pub moved_event : Uuid → String → Subscription → SubscriptionStatus → Time → OutboxEvent
moved_event id event_type s to now = record {
  id = id;
  event_type = event_type;
  aggregate_type = aggregate_subscription;
  aggregate_id = s.id;
  payload =
      ("subscription_id", Value.id_text s.id)
      ∷ ("user_id", Value.id_text s.user_id)
      ∷ ("from", Value.status s.status)
      ∷ ("to", Value.status to)
      ∷ ("at", Value.rfc3339 now)
      ∷ [];
}

-- The debit of the customer's wallet, and the credit of revenue.
abbrev pub renewal_posting : Uuid → Uuid → Invoice → Transaction
renewal_posting id user i = record {
  id = id;
  type = type_payment_settlement;
  reference_type = "invoice";
  reference_id = i.id;
  description = Description.about "renewal invoice " i.invoice_no;
  entries =
      record {
        account_type = account_user_wallet;
        account_id = user;
        direction = direction_debit;
        amount = i.amount;
      }
      ∷ record {
        account_type = account_revenue;
        account_id = account_id_revenue;
        direction = direction_credit;
        amount = i.amount;
      }
      ∷ [];
}

abbrev pub renewed_event : Uuid → Subscription → Invoice → Time → OutboxEvent
renewed_event id s i period_end = record {
  id = id;
  event_type = "subscription.renewed.v1";
  aggregate_type = aggregate_subscription;
  aggregate_id = s.id;
  payload =
      ("subscription_id", Value.id_text s.id)
      ∷ ("user_id", Value.id_text s.user_id)
      ∷ ("invoice_id", Value.id_text i.id)
      ∷ ("amount_minor", Value.amount i.amount.amount_minor)
      ∷ ("currency", Value.text i.amount.currency)
      ∷ ("current_period_end", Value.rfc3339 period_end)
      ∷ [];
}

abbrev pub renewal_invoice : Uuid → Uuid → Number → SweepSubscription → Time → Invoice
renewal_invoice id item_id number row period_end = record {
  id = id;
  invoice_no = number;
  user_id = row.subscription.user_id;
  order_id = none;
  subscription_id = some row.subscription.id;
  status = InvoiceStatus.open_status;
  amount = row.subscription.price;
  due_at = some period_end;
  items =
      record {
        id = item_id;
        description = row.plan_name;
        quantity = pos 1;
        unit_amount = row.subscription.price;
        total = row.subscription.price;
      }
      ∷ [];
}

-- A conflict means that another sweep has opened the bill: it is read back.
unfoldable pub or_existing : Call Invoice → Call Invoice → Call Invoice
or_existing opened existing w = elim (opened w) [
  | done i w' ↦ done i w'
  | failed conflict w' ↦ existing w'
  | failed e w' ↦ failed e w'
]

-- A short balance and a lost extension are answers: it was not paid.
unfoldable pub unless_lost : Call Bool → Call Bool
unless_lost m w = elim (m w) [
  | done paid w' ↦ done paid w'
  | failed balance_short w' ↦ done false w'
  | failed extension_lost w' ↦ done false w'
  | failed e w' ↦ failed e w'
]

module _ (new_uuid : ℕ → Uuid) where
  abbrev record_move : Option String → Subscription → SubscriptionStatus → Time → Call Bool
  record_move none s to now = throw no_event_type
  record_move (some event_type) s to now = do
    event_id ← fresh new_uuid
    record_outbox_event (moved_event event_id event_type s to now)
    pure true

  -- `transitionLive`: the conditional move, and its event.
  unfoldable pub transition_live :
      Subscription → SubscriptionStatus → Option Time → Option Time → Time → Call Bool
  unfolding transition_event
  transition_live s to deadline ended_at now = do
    applied ← transition_subscription s.id s.status to deadline ended_at now
    if applied then record_move (transition_event to) s to now else pure false

  abbrev open_bill : Invoice → Call Invoice
  open_bill i = do
    create_subscription_invoice i
    create_subscription_invoice_items i.id i.items
    pure i

  -- `openRenewalInvoice`; `random` is what the invoice number draws.
  unfoldable pub open_renewal_invoice : SweepSubscription → Option ℕ → Time → Time → Call Invoice
  unfolding or_existing
  open_renewal_invoice row random period_end now = do
    number ← lift (new_number "INV" now random)
    id ← fresh new_uuid
    item_id ← fresh new_uuid
    or_existing (within_transaction (open_bill (renewal_invoice id item_id number row period_end)))
        (open_renewal_invoice_for row.subscription.id)

  abbrev record_renewal : Subscription → Invoice → Time → Call Bool
  record_renewal s i period_end = do
    event_id ← fresh new_uuid
    record_outbox_event (renewed_event event_id s i period_end)
    pure true

  -- What the winner of the invoice's gate does.
  unfoldable pub charge : Subscription → Invoice → Call Bool
  charge s i = do
    balance ← lock_wallet_for_spend s.user_id i.amount.currency
    lift (refuse_if (ltb_ℤ balance.amount_minor i.amount.amount_minor) balance_short)
    posting_id ← fresh new_uuid
    post new_uuid (renewal_posting posting_id s.user_id i)
    period_end ← lift (add_billing_cycle s.billing_cycle s.current_period_end)
    extended ← extend_subscription s.id s.current_period_end period_end
    if extended then record_renewal s i period_end else throw extension_lost

  unfoldable pub renewal_body : Subscription → Invoice → Call Bool
  renewal_body s i = do
    applied ← mark_subscription_invoice_paid i.id
    if applied then charge s i else pure false

  -- `payRenewalInvoice`
  unfoldable pub pay_renewal_invoice : Subscription → Invoice → Call Bool
  pay_renewal_invoice s i = unless_lost (within_transaction (renewal_body s i))

-- `RequestCancellation`
unfoldable pub request_cancellation : Uuid → Uuid → Call (Unit {0})
request_cancellation user id = do
  s ← subscription_for_user id user
  lift (refuse_if (not (subscription_is_live s.status)) subscription_not_live)
  applied ← set_cancel_at_period_end id user
  lift (refuse_if (not applied) subscription_not_live)
