-- ===== src/Commerce/Cycle.antt =====
-- backend/internal/commerce/subscription.go: `AddBillingCycle`, `SubscriptionDeadline` and the sweep's
-- windows. Period boundaries are in UTC, so the location is left out.
pub mod Laws
mod Tests
use vps_billing_workbuddy.Prelude.{
  ℕ, ◌+◌, ◌-◌, ◌*◌, ◌/◌, ◌%◌, String, Bool, ltb, str_eq, if◌then◌else◌,
}
use vps_billing_workbuddy.Errors.{Result, ok, err, unknown_billing_cycle, ◌>>=◌}
use vps_billing_workbuddy.Commerce.States.{SubscriptionStatus}
use vps_billing_workbuddy.Calendar.{Time, add_duration, days_in_month, day_nanos}

-- `72 * time.Hour`
abbrev pub grace_past_due : ℕ
grace_past_due = 3 * day_nanos

-- `14 * 24 * time.Hour`
abbrev pub expiry_after_suspension : ℕ
expiry_after_suspension = 14 * day_nanos

-- The switch on the cycle.
cycle_months : String → Result ℕ
cycle_months cycle =
    if str_eq cycle "monthly"
    then ok 1
    else if str_eq cycle "quarterly"
    then ok 3
    else if str_eq cycle "semiannually"
    then ok 6
    else if str_eq cycle "annually"
    then ok 12
    else err unknown_billing_cycle

-- The date `months` later, its day clamped to the last of the month. `time.Date(year, month + 1, 0)`
-- is the day before the first of the next month, whose `Day` is the month's length.
pub add_months : ℕ → Time → Time
add_months months from =
    let total = from.month - 1 + months in
    let year = from.year + total / 12 in
    let month = total % 12 + 1 in
    let last_day = days_in_month year month in
    record {
      year = year;
      month = month;
      day = if ltb last_day from.day then last_day else from.day;
      nanos = from.nanos;
    }

unfoldable pub add_billing_cycle : String → Time → Result Time
unfolding cycle_months add_months
add_billing_cycle cycle from = do months ← cycle_months cycle; ok (add_months months from)

-- `SubscriptionDeadline`; Go's zero time is the first of January of year 1.
unfoldable pub subscription_deadline : SubscriptionStatus → Time → Time
subscription_deadline SubscriptionStatus.past_due at = add_duration at grace_past_due
subscription_deadline SubscriptionStatus.suspended at = add_duration at expiry_after_suspension
subscription_deadline _ at = record { year = 1; month = 1; day = 1; nanos = 0 }
