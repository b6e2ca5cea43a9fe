-- ===== src/Commerce/Sweep.antt =====
-- backend/internal/commerce/subscription_service.go: the sweep over the subscriptions that are past a
-- deadline, `RenewNow` and `Terminate`. What a number draws (`rand.Read`) is an argument.
pub mod Moves
pub mod Counts
mod Tests
use vps_billing_workbuddy.Prelude.{
  ℕ, ◌+◌, String, Bool, true, false, not, ◌&&◌, ◌||◌, Option, none, some, List, [], ◌∷◌,
  if◌then◌else◌, map, length,
}
use vps_billing_workbuddy.Errors.{
  Error, subscription_not_live, invoice_not_found, nothing_due, insufficient_balance, refuse_if,
}
use vps_billing_workbuddy.Database.{
  World, Outcome, done, failed, Action, ◌>>=◌, ◌>>◌, pure, throw, lift,
}
use vps_billing_workbuddy.Ledger.{Uuid}
use vps_billing_workbuddy.Calendar.{Time, before, after, add_duration}
use vps_billing_workbuddy.Commerce.States.{
  SubscriptionStatus, subscription_eq, subscription_is_live,
}
use vps_billing_workbuddy.Commerce.Types.{Plan, Invoice, Subscription}
use vps_billing_workbuddy.Commerce.Cycle.{grace_past_due, subscription_deadline}
use vps_billing_workbuddy.Commerce.Store.{Call, plan_by_id}
use vps_billing_workbuddy.Commerce.Store.Subscriptions.{
  subscription_by_id, subscription_for_user, subscriptions_past_deadline, open_renewal_invoice_for,
}
use vps_billing_workbuddy.Commerce.Renewal.{
  SweepSubscription, transition_live, open_renewal_invoice, pay_renewal_invoice,
}

pub data SweepOutcome : Type 0 where
  skipped renewed cancelled past_due suspended expired : SweepOutcome

pub record SweepResult : Type 0 where
  pub scanned : ℕ
  pub renewed_count : ℕ
  pub cancelled_count : ℕ
  pub past_due_count : ℕ
  pub suspended_count : ℕ
  pub expired_count : ℕ
  pub skipped_count : ℕ

-- The switch on the outcome.
unfoldable pub count_outcome : SweepOutcome → SweepResult → SweepResult
count_outcome SweepOutcome.renewed r = record r { renewed_count = r.renewed_count + 1 }
count_outcome SweepOutcome.cancelled r = record r { cancelled_count = r.cancelled_count + 1 }
count_outcome SweepOutcome.past_due r = record r { past_due_count = r.past_due_count + 1 }
count_outcome SweepOutcome.suspended r = record r { suspended_count = r.suspended_count + 1 }
count_outcome SweepOutcome.expired r = record r { expired_count = r.expired_count + 1 }
count_outcome SweepOutcome.skipped r = record r { skipped_count = r.skipped_count + 1 }

abbrev pub to_sweep : Subscription × Plan → SweepSubscription
to_sweep (s, p) = record { subscription = s; plan_name = p.name; plan_slug = p.slug }

abbrev pub is_in : SubscriptionStatus → Subscription → Bool
is_in status s = subscription_eq s.status status

-- `row.GraceUntil != nil && now.After(*row.GraceUntil)`
abbrev pub is_over : Option Time → Time → Bool
is_over none now = false
is_over (some until) now = after now until

-- A failed plan lookup leaves the invoice's words empty.
unfoldable pub with_words : Subscription → Call SweepSubscription
with_words s w = elim (plan_by_id s.plan_id w) [
  | done p w' ↦ done (record { subscription = s; plan_name = p.name; plan_slug = p.slug }) w'
  | failed e w' ↦ done (record { subscription = s; plan_name = []; plan_slug = "" }) w'
]

-- No open bill means that nothing is due.
unfoldable pub due_bill : Call Invoice → Call Invoice
due_bill m w = elim (m w) [
  | done i w' ↦ done i w'
  | failed invoice_not_found w' ↦ failed nothing_due w'
  | failed e w' ↦ failed e w'
]

module _ (new_uuid : ℕ → Uuid) (now : Time) where
  -- A conditional move: a lost race is a skip.
  unfoldable pub move :
      SubscriptionStatus
      → Option Time
      → Option Time
      → SweepOutcome
      → Subscription
      → Call SweepOutcome
  move to deadline ended_at outcome s = do
    applied ← transition_live new_uuid s to deadline ended_at now
    pure (if applied then outcome else SweepOutcome.skipped)

  -- The regressions of an unpaid subscription: past due, suspended, expired.
  unfoldable pub regress : Subscription → Call SweepOutcome
  regress s =
      if is_in SubscriptionStatus.active s
      then move SubscriptionStatus.past_due
          (some (subscription_deadline SubscriptionStatus.past_due s.current_period_end)) none
          SweepOutcome.past_due s
      else if is_in SubscriptionStatus.past_due s
          && after now (add_duration s.current_period_end grace_past_due)
      then move SubscriptionStatus.suspended
          (some (subscription_deadline SubscriptionStatus.suspended now)) none
          SweepOutcome.suspended s
      else if is_in SubscriptionStatus.suspended s && is_over s.grace_until now
      then move SubscriptionStatus.expired none (some now) SweepOutcome.expired s
      else pure SweepOutcome.skipped

  -- The bill of the period that has ended, and the attempt to pay it.
  unfoldable pub renew : SweepSubscription → Option ℕ → Call SweepOutcome
  renew row random = do
    invoice ← open_renewal_invoice new_uuid row random row.subscription.current_period_end now
    paid ← pay_renewal_invoice new_uuid row.subscription invoice
    if paid then pure SweepOutcome.renewed else regress row.subscription

  unfoldable pub sweep_one : SweepSubscription → Option ℕ → Call SweepOutcome
  sweep_one row random =
      if row.subscription.cancel_at_period_end
        && (is_in SubscriptionStatus.active row.subscription
            || is_in SubscriptionStatus.past_due row.subscription)
      then move SubscriptionStatus.cancelled none (some now) SweepOutcome.cancelled row.subscription
      else renew row random

  -- The loop of `Sweep`, with what each bill's number draws; the counts of a sweep that is broken
  -- off by an error are left out.
  unfoldable pub sweep_rows :
      List SweepSubscription → (ℕ → Option ℕ) → SweepResult → Call SweepResult
  sweep_rows [] random r = pure r
  sweep_rows (row ∷ rows) random r = do
    outcome ← sweep_one row (random 0)
    sweep_rows rows (λ n. random (n + 1)) (count_outcome outcome r)

  -- `RenewNow`, after the subscription was read.
  unfoldable pub due_invoice : Subscription → Option ℕ → Call Invoice
  due_invoice s random =
      if not (before now s.next_due_at)
      then (do
        row ← with_words s
        open_renewal_invoice new_uuid row random s.current_period_end now)
      else due_bill (open_renewal_invoice_for s.id)

  unfoldable pub renew_now : Uuid → Uuid → Option ℕ → Call Subscription
  renew_now user id random = do
    s ← subscription_for_user id user
    lift (refuse_if (not (subscription_is_live s.status)) subscription_not_live)
    invoice ← due_invoice s random
    paid ← pay_renewal_invoice new_uuid s invoice
    lift (refuse_if (not paid) insufficient_balance)
    subscription_for_user id user

  unfoldable pub terminate : Uuid → Call (Unit {0})
  terminate id = do
    s ← subscription_by_id id
    lift (refuse_if (not (subscription_is_live s.status)) subscription_not_live)
    applied ← transition_live new_uuid s SubscriptionStatus.terminated none (some now) now
    lift (refuse_if (not applied) subscription_not_live)

  abbrev pub swept : ℕ → SweepResult
  swept n = record {
    scanned = n;
    renewed_count = 0;
    cancelled_count = 0;
    past_due_count = 0;
    suspended_count = 0;
    expired_count = 0;
    skipped_count = 0;
  }

  -- `Sweep`
  unfoldable pub sweep : (ℕ → Option ℕ) → Call SweepResult
  unfolding sweep_rows
  sweep random = do
    rows ← subscriptions_past_deadline now
    sweep_rows (map to_sweep rows) random (swept (length rows))
