-- ===== src/Commerce/Cycle/Tests.antt =====
-- Tests of the billing cycles.
use vps_billing_workbuddy.Prelude.{ℕ, ◌≡◌, refl, ◌↔◌, arith}
use vps_billing_workbuddy.Errors.{ok}
use vps_billing_workbuddy.Calendar.{Time, IsDate, days_in_month}
use vps_billing_workbuddy.Commerce.Cycle.{add_months, add_billing_cycle}
use vps_billing_workbuddy.Commerce.Cycle.Laws.{IsCycle, IsMonthsLater, add_billing_cycle_iff}

abbrev last_of_january : Time
last_of_january = record { year = 2023; month = 1; day = 31; nanos = 7 }

abbrev last_of_february : Time
last_of_february = record { year = 2023; month = 2; day = 28; nanos = 7 }

january-IsDate : IsDate last_of_january
unfolding days_in_month
january-IsDate = record {
  year_from = omega arith;
  month_from = omega arith;
  month_to = omega arith;
  day_from = omega arith;
  day_to = omega arith;
  nanos_to = omega arith;
}

clamped : add_billing_cycle "monthly" last_of_january ≡ ok last_of_february
unfolding add_billing_cycle days_in_month
clamped = refl

-- The anniversary on the 31st is lost after a February.
drifted :
    add_billing_cycle "monthly" last_of_february
    ≡ ok (record { year = 2023; month = 3; day = 28; nanos = 7 })
unfolding add_billing_cycle days_in_month
drifted = refl

add_billing_cycle_iff_example :
    (add_billing_cycle "monthly" last_of_january ≡ ok last_of_february) ↔ (
      (n : ℕ) × IsCycle "monthly" n
      × (last_of_february ≡ add_months n last_of_january)
      × IsMonthsLater n last_of_january last_of_february)
add_billing_cycle_iff_example =
    add_billing_cycle_iff "monthly" last_of_january last_of_february january-IsDate
