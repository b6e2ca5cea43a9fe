-- ===== src/Calendar.antt =====
-- Go's `time.Time` in UTC, as far as the source uses it: a civil date and the nanosecond of the day.
-- `Date` fields out of range never arise: `AddBillingCycle` clamps the day before it builds a date.
pub mod Laws
mod Tests
use vps_billing_workbuddy.Prelude.{
  ℕ, zero, suc, ◌+◌, ◌-◌, ◌*◌, ◌/◌, ◌%◌, ◌≤◌, ◌<◌, Bool, true, false, not, ◌&&◌, ◌||◌, ltb, leb,
  ◌==◌, if◌then◌else◌,
}

pub record Time : Type 0 where
  pub year : ℕ
  pub month : ℕ  -- 1 to 12
  pub day : ℕ
  pub nanos : ℕ  -- since midnight

abbrev pub day_nanos : ℕ
day_nanos = 86_400_000_000_000

abbrev pub is_leap : ℕ → Bool
is_leap y = y % 4 == 0 && (not (y % 100 == 0) || y % 400 == 0)

-- The days of a month, from 1.
unfoldable pub days_in_month : ℕ → ℕ → ℕ
days_in_month y m =
    if m == 2
    then if is_leap y then 29 else 28
    else if m == 4 || m == 6 || m == 9 || m == 11
    then 30
    else 31

pub record IsDate (t : Time) : Type 0 where
  pub year_from : 1 ≤ t.year
  pub month_from : 1 ≤ t.month
  pub month_to : t.month ≤ 12
  pub day_from : 1 ≤ t.day
  pub day_to : t.day ≤ days_in_month t.year t.month
  pub nanos_to : t.nanos < day_nanos

-- The days before the first of January of a year, from year 1.
unfoldable pub days_before_year : ℕ → ℕ
days_before_year y = 365 * (y - 1) + (y - 1) / 4 - (y - 1) / 100 + (y - 1) / 400

-- The days of a year before the first of a month.
unfoldable pub days_before_month : ℕ → ℕ → ℕ
days_before_month y zero = 0
days_before_month y (suc zero) = 0
days_before_month y (suc (suc m)) = days_before_month y (suc m) + days_in_month y (suc m)

unfoldable pub day_number : Time → ℕ
day_number t = days_before_year t.year + days_before_month t.year t.month + t.day

-- The instant as nanoseconds, by which times are compared.
unfoldable pub instant : Time → ℕ
unfolding day_number days_before_year days_before_month days_in_month
instant t = day_number t * day_nanos + t.nanos

-- `t.Before(u)`, `t.After(u)`
unfoldable pub before : Time → Time → Bool
unfolding instant
before t u = ltb (instant t) (instant u)

unfoldable pub after : Time → Time → Bool
unfolding instant
after t u = ltb (instant u) (instant t)

unfoldable pub next_day : Time → Time
unfolding days_in_month
next_day t =
    if ltb t.day (days_in_month t.year t.month)
    then record t { day = t.day + 1 }
    else if ltb t.month 12
    then record t { month = t.month + 1; day = 1 }
    else record t { year = t.year + 1; month = 1; day = 1 }

unfoldable pub add_days : ℕ → Time → Time
add_days zero t = t
add_days (suc n) t = add_days n (next_day t)

-- `t.Add(d)` for a duration of `d` nanoseconds that is not negative.
unfoldable pub add_duration : Time → ℕ → Time
unfolding add_days next_day
add_duration t d =
    let total = t.nanos + d in add_days (total / day_nanos) (record t { nanos = total % day_nanos })
