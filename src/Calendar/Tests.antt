-- ===== src/Calendar/Tests.antt =====
-- Tests of the calendar.
use vps_billing_workbuddy.Prelude.{◌+◌, ◌*◌, ◌≡◌, arith}
use vps_billing_workbuddy.Calendar.{Time, IsDate, day_nanos, days_in_month, instant, add_duration}
use vps_billing_workbuddy.Calendar.Laws.{add_duration_lem}

abbrev leap_day_eve : Time
leap_day_eve = record { year = 2024; month = 2; day = 28; nanos = 5 }

leap_day_eve-IsDate : IsDate leap_day_eve
unfolding days_in_month
leap_day_eve-IsDate = record {
  year_from = omega arith;
  month_from = omega arith;
  month_to = omega arith;
  day_from = omega arith;
  day_to = omega arith;
  nanos_to = omega arith;
}

-- Three days after the eve of a leap day.
add_duration_example :
    IsDate (add_duration leap_day_eve (3 * day_nanos))
    × (instant (add_duration leap_day_eve (3 * day_nanos)) ≡ instant leap_day_eve + 3 * day_nanos)
add_duration_example = add_duration_lem leap_day_eve (3 * day_nanos) leap_day_eve-IsDate
