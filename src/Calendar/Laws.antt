-- ===== src/Calendar/Laws.antt =====
-- The calendar of Go's `time.Time`, against its day numbers and instants.
use vps_billing_workbuddy.Prelude.{
  ℕ, zero, suc, ◌+◌, ◌/◌, ◌%◌, ◌≤◌, ◌<◌, ◌≡◌, refl, ◌∙◌, ltb, if◌then◌else◌, arith,
}
use vps_billing_workbuddy.Calendar.{
  Time, day_nanos, is_leap, days_in_month, IsDate, days_before_year, days_before_month, day_number,
  instant, next_day, add_days, add_duration,
}

days_before_year-suc :
    (y : ℕ)
    → 1 ≤ y
    → days_before_year (y + 1) ≡ days_before_year y + (if is_leap y then 366 else 365)
unfolding days_before_year
days_before_year-suc y h = ground arith

year_days : (y : ℕ) → days_before_month y 12 + days_in_month y 12 ≡ (if is_leap y then 366 else 365)
unfolding days_before_month days_in_month
year_days y = ground arith

days_before_month-suc :
    (y m : ℕ) → 1 ≤ m → days_before_month y (m + 1) ≡ days_before_month y m + days_in_month y m
unfolding days_before_month
days_before_month-suc y zero h = absurd (omega arith)
days_before_month-suc y (suc m) h = ground arith

pub days_in_month_bounds : (y m : ℕ) → (28 ≤ days_in_month y m) × (days_in_month y m ≤ 31)
unfolding days_in_month
days_in_month_bounds y m = ground arith

next_day-IsDate : (t : Time) → IsDate t → IsDate (next_day t)
unfolding next_day
next_day-IsDate t h =
    ground (arith, days_in_month_bounds t.year (t.month + 1), days_in_month_bounds (t.year + 1) 1)

first_month : (y : ℕ) → days_before_month y 1 ≡ 0
unfolding days_before_month
first_month y = refl

day_number-next_day : (t : Time) → IsDate t → day_number (next_day t) ≡ day_number t + 1
unfolding next_day day_number
day_number-next_day t h = ground (
  arith,
  days_before_month-suc t.year t.month,
  days_before_year-suc t.year,
  year_days t.year,
  first_month (t.year + 1),
)

next_day-nanos : (t : Time) → (next_day t).nanos ≡ t.nanos
unfolding next_day
next_day-nanos t = ground arith

pub record DaysLater (n : ℕ) (t u : Time) : Type 0 where
  pub dated : IsDate u
  pub number : day_number u ≡ day_number t + n
  pub clock : u.nanos ≡ t.nanos

pub add_days-DaysLater : (n : ℕ) (t : Time) → IsDate t → DaysLater n t (add_days n t)
unfolding add_days
add_days-DaysLater zero t h = record { dated = h; number = omega arith; clock = refl }
add_days-DaysLater (suc n) t h =
    let later = add_days-DaysLater n (next_day t) (next_day-IsDate t h) in
    record {
      dated = later.dated;
      number = omega (arith, later.number, day_number-next_day t h);
      clock = later.clock ∙ next_day-nanos t;
    }

at_clock : (t : Time) (n : ℕ) → n < day_nanos → IsDate t → IsDate (record t { nanos = n })
at_clock t n small h = ground arith

day_number-at_clock : (t : Time) (n : ℕ) → day_number (record t { nanos = n }) ≡ day_number t
unfolding day_number
day_number-at_clock t n = refl

-- Adding a duration to a date gives the date that many nanoseconds later.
pub add_duration_lem :
    (t : Time) (d : ℕ)
    → IsDate t
    → IsDate (add_duration t d) × (instant (add_duration t d) ≡ instant t + d)
unfolding add_duration instant
add_duration_lem t d h =
    let start = record t { nanos = (t.nanos + d) % day_nanos } in
    let later =
      add_days-DaysLater ((t.nanos + d) / day_nanos) start
        (at_clock t ((t.nanos + d) % day_nanos) (omega arith) h) in
    (
      later.dated,
      omega (arith, later.number, later.clock, day_number-at_clock t ((t.nanos + d) % day_nanos)),
    )

-- The days before a month of a year, from the first of January of year 1.
unfoldable pub month_start : ℕ → ℕ → ℕ
month_start y m = days_before_year y + days_before_month y m

pub month_start-suc :
    (y m : ℕ)
    → 1 ≤ y
    → 1 ≤ m
    → m ≤ 12
    → (if ltb m 12 then month_start y (m + 1) else month_start (y + 1) 1)
      ≡ month_start y m + days_in_month y m
unfolding month_start
month_start-suc y m h k l =
    ground
      (arith, days_before_month-suc y m, days_before_year-suc y, year_days y, first_month (y + 1))

pub day_number-month_start : (t : Time) → day_number t ≡ month_start t.year t.month + t.day
unfolding day_number month_start
day_number-month_start t = refl

pub instant_lt :
    (t u : Time) → day_number t < day_number u → t.nanos < day_nanos → instant t < instant u
unfolding instant
instant_lt t u h k = omega arith
