-- ===== src/Commerce/Cycle/Laws.antt =====
-- Billing cycles (commerce/subscription.go `AddBillingCycle`) against the calendar.
use vps_billing_workbuddy.Prelude.{
  ℕ, zero, suc, ◌+◌, ◌-◌, ◌*◌, ◌/◌, ◌%◌, ◌≤◌, ◌<◌, ◌≡◌, refl, ◌⊎◌, inl, inr, String, str_eq_iff,
  arith, ◌↔◌,
}
use vps_billing_workbuddy.Errors.{ok, >>=-eq-ok}
use vps_billing_workbuddy.Calendar.{Time, IsDate, days_in_month, day_number, instant}
use vps_billing_workbuddy.Calendar.Laws.{
  days_in_month_bounds, month_start, month_start-suc, day_number-month_start, instant_lt,
}
use vps_billing_workbuddy.Commerce.Cycle.{cycle_months, add_months, add_billing_cycle}

-- Months are counted from January of year 0.
abbrev month_index : Time → ℕ
month_index t = 12 * t.year + (t.month - 1)

-- The first day of the month `k` months after month `m` of year `y`.
start_after : ℕ → ℕ → ℕ → ℕ
start_after y m k = month_start (y + (m - 1 + k) / 12) ((m - 1 + k) % 12 + 1)

start_after-suc :
    (y m k : ℕ)
    → 1 ≤ y
    → start_after y m (suc k)
      ≡ start_after y m k + days_in_month (y + (m - 1 + k) / 12) ((m - 1 + k) % 12 + 1)
unfolding start_after
start_after-suc y m k h =
    ground (arith, month_start-suc (y + (m - 1 + k) / 12) ((m - 1 + k) % 12 + 1))

start_after_bounds :
    (y m k : ℕ)
    → 1 ≤ y
    → (start_after y m 0 + 28 * k ≤ start_after y m k)
      × (start_after y m k ≤ start_after y m 0 + 31 * k)
start_after_bounds y m zero h = omega arith
start_after_bounds y m (suc k) h = omega (
  arith,
  start_after_bounds y m k h,
  start_after-suc y m k h,
  days_in_month_bounds (y + (m - 1 + k) / 12) ((m - 1 + k) % 12 + 1),
)

start_after_month :
    (y m k : ℕ)
    → 1 ≤ y
    → 1 ≤ m
    → m ≤ 12
    → start_after y m 0 + days_in_month y m ≤ start_after y m (suc k)
start_after_month y m zero h p q =
    let same_year : y + (m - 1 + 0) / 12 ≡ y = omega arith in
    let same_month : (m - 1 + 0) % 12 + 1 ≡ m = omega arith in
    let step = start_after-suc y m zero h in
    let length_eq : days_in_month (y + (m - 1 + 0) / 12) ((m - 1 + 0) % 12 + 1)
        ≡ days_in_month y m =
      cc in
    omega arith
start_after_month y m (suc k) h p q =
    omega (arith, start_after_month y m k h p q, start_after-suc y m (suc k) h)

add_months-IsDate : (k : ℕ) (t : Time) → IsDate t → IsDate (add_months k t)
unfolding add_months
add_months-IsDate k t h =
    let y = t.year + (t.month - 1 + k) / 12 in
    let m = (t.month - 1 + k) % 12 + 1 in ground (arith, days_in_month_bounds y m)

start_after_zero : (y m : ℕ) → 1 ≤ m → m ≤ 12 → start_after y m 0 ≡ month_start y m
unfolding start_after
start_after_zero y m p q =
    let same_year : y + (m - 1 + 0) / 12 ≡ y = omega arith in
    let same_month : (m - 1 + 0) % 12 + 1 ≡ m = omega arith in cc

month_start-add_months :
    (k : ℕ) (t : Time)
    → month_start (add_months k t).year (add_months k t).month ≡ start_after t.year t.month k
unfolding add_months start_after
month_start-add_months k t = refl

add_months-day :
    (k : ℕ) (t : Time) → IsDate t → (1 ≤ (add_months k t).day) × ((add_months k t).day ≤ t.day)
unfolding add_months
add_months-day k t h =
    ground
      (arith, days_in_month_bounds (t.year + (t.month - 1 + k) / 12) ((t.month - 1 + k) % 12 + 1))

-- One month or more later by the calendar is later in days, and by 31 days a month at most.
add_months-day_number :
    (k : ℕ) (t : Time)
    → IsDate t
    → (day_number t < day_number (add_months (suc k) t))
      × (day_number (add_months (suc k) t) ≤ day_number t + 31 * suc k)
add_months-day_number k t h =
    let u = add_months (suc k) t in
    omega (
      arith,
      day_number-month_start t,
      day_number-month_start u,
      month_start-add_months (suc k) t,
      start_after_zero t.year t.month h.month_from h.month_to,
      start_after_month t.year t.month k h.year_from h.month_from h.month_to,
      start_after_bounds t.year t.month (suc k) h.year_from,
      add_months-day (suc k) t h,
    )

add_months-nanos : (k : ℕ) (t : Time) → (add_months k t).nanos ≡ t.nanos
unfolding add_months
add_months-nanos k t = refl

-- The cycles on sale and their months.
abbrev pub IsCycle : String → ℕ → Type 0
IsCycle c n =
    ((c ≡ "monthly") × (n ≡ 1))
    ⊎ ((c ≡ "quarterly") × (n ≡ 3))
    ⊎ ((c ≡ "semiannually") × (n ≡ 6))
    ⊎ ((c ≡ "annually") × (n ≡ 12))

cycle_months-IsCycle : (c : String) (n : ℕ) → cycle_months c ≡ ok n → IsCycle c n
unfolding cycle_months
cycle_months-IsCycle c n h = ground (
  arith,
  str_eq_iff c "monthly",
  str_eq_iff c "quarterly",
  str_eq_iff c "semiannually",
  str_eq_iff c "annually",
)

IsCycle-cycle_months : (c : String) (n : ℕ) → IsCycle c n → cycle_months c ≡ ok n
unfolding cycle_months
IsCycle-cycle_months c n (inl (e, k)) = rw (e, k) refl
IsCycle-cycle_months c n (inr (inl (e, k))) = rw (e, k) refl
IsCycle-cycle_months c n (inr (inr (inl (e, k)))) = rw (e, k) refl
IsCycle-cycle_months c n (inr (inr (inr (e, k)))) = rw (e, k) refl

-- `u` is the boundary `n` months after `t`: the months are exact, the day is kept or clamped to the
-- last of a shorter month, the clock is kept, and it is later, by at most 31 days a month.
pub record IsMonthsLater (n : ℕ) (t u : Time) : Type 0 where
  pub dated : IsDate u
  pub months : month_index u ≡ month_index t + n
  pub kept_day : (u.day ≡ t.day) ⊎ ((u.day ≡ days_in_month u.year u.month) × (u.day < t.day))
  pub clock : u.nanos ≡ t.nanos
  pub later : instant t < instant u
  pub bounded : day_number u ≤ day_number t + 31 * n

add_months-kept_day :
    (k : ℕ) (t : Time)
    → ((add_months k t).day ≡ t.day)
      ⊎ (((add_months k t).day ≡ days_in_month (add_months k t).year (add_months k t).month)
          × ((add_months k t).day < t.day))
unfolding add_months
add_months-kept_day k t = ground arith

add_months-month_index :
    (k : ℕ) (t : Time) → IsDate t → month_index (add_months k t) ≡ month_index t + k
unfolding add_months
add_months-month_index k t h = omega arith

add_months-IsMonthsLater :
    (k : ℕ) (t : Time) → IsDate t → IsMonthsLater (suc k) t (add_months (suc k) t)
add_months-IsMonthsLater k t h =
    let days = add_months-day_number k t h in
    record {
      dated = add_months-IsDate (suc k) t h;
      months = add_months-month_index (suc k) t h;
      kept_day = add_months-kept_day (suc k) t;
      clock = add_months-nanos (suc k) t;
      later = instant_lt t (add_months (suc k) t) days.0 h.nanos_to;
      bounded = days.1;
    }

cycle_later :
    (n : ℕ) (t : Time) → IsDate t → (k : ℕ) → n ≡ suc k → IsMonthsLater n t (add_months n t)
cycle_later n t h k e = rw e (add_months-IsMonthsLater k t h)

IsCycle-pos : (c : String) (n : ℕ) → IsCycle c n → n ≡ suc (n - 1)
IsCycle-pos c n h = ground arith

-- `AddBillingCycle` succeeds exactly on the four cycles on sale, and from a date it then gives the
-- boundary that many calendar months later: a date, later than the given one by at most 31 days a
-- month, on the same day or on the last day of a shorter month, at the same time of day.
pub add_billing_cycle_iff :
    (c : String) (t u : Time)
    → IsDate t
    → (add_billing_cycle c t ≡ ok u)
      ↔ ((n : ℕ) × IsCycle c n × (u ≡ add_months n t) × IsMonthsLater n t u)
unfolding add_billing_cycle
add_billing_cycle_iff c t u h = (
  λ e.
      let (n, known, same) = >>=-eq-ok (cycle_months c) (λ n. ok (add_months n t)) e in
      let cyc = cycle_months-IsCycle c n known in
      let same' : u ≡ add_months n t = cc in
      (n, cyc, same', rw same' (cycle_later n t h (n - 1) (IsCycle-pos c n cyc))),
  λ (n, cyc, same, _). rw (IsCycle-cycle_months c n cyc, same) refl,
)
