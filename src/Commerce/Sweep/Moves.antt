-- ===== src/Commerce/Sweep/Moves.antt =====
-- The sweep's moves against the subscription machine (commerce/subscription_service.go `sweepOne`).
use vps_billing_workbuddy.Prelude.{◌≡◌, none, some, true}
use vps_billing_workbuddy.Calendar.{Time, after, add_duration}
use vps_billing_workbuddy.Commerce.States.{SubscriptionStatus, subscription_can_transition}
use vps_billing_workbuddy.Commerce.Types.{Subscription}
use vps_billing_workbuddy.Commerce.Tables.{Tables}
use vps_billing_workbuddy.Commerce.Cycle.{grace_past_due, expiry_after_suspension}
use vps_billing_workbuddy.Commerce.Renewal.Periods.{Same, IsMoved, IsRenewed}
use vps_billing_workbuddy.Commerce.Sweep.{SweepOutcome, is_over}

-- What the sweep reports of a subscription at a time, with the tables before and after: a move of the
-- machine that is due, which the row has made, a renewal that the row has had, or no change.
pub IsDue : Subscription → Time → Tables → SweepOutcome → Tables → Type 0
IsDue s now t SweepOutcome.skipped t' = Same t t'
IsDue s now t SweepOutcome.renewed t' = IsRenewed s t t'
IsDue s now t SweepOutcome.cancelled t' =
    (subscription_can_transition s.status SubscriptionStatus.cancelled ≡ true)
    × (s.cancel_at_period_end ≡ true)
    × IsMoved s.id s.status SubscriptionStatus.cancelled none (some now) t t'
IsDue s now t SweepOutcome.past_due t' =
    (subscription_can_transition s.status SubscriptionStatus.past_due ≡ true)
    × IsMoved s.id s.status SubscriptionStatus.past_due
        (some (add_duration s.current_period_end grace_past_due)) none t t'
IsDue s now t SweepOutcome.suspended t' =
    (subscription_can_transition s.status SubscriptionStatus.suspended ≡ true)
    × (after now (add_duration s.current_period_end grace_past_due) ≡ true)
    × IsMoved s.id s.status SubscriptionStatus.suspended
        (some (add_duration now expiry_after_suspension)) none t t'
IsDue s now t SweepOutcome.expired t' =
    (subscription_can_transition s.status SubscriptionStatus.expired ≡ true)
    × (is_over s.grace_until now ≡ true)
    × IsMoved s.id s.status SubscriptionStatus.expired none (some now) t t'
