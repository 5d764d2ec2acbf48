-- ===== src/Calendar/Months.antt =====
-- The months of the calendar follow one another without a gap.
use finance.Prelude.{ℕ, ◌+◌, ◌-◌, ◌*◌, ◌/◌, ◌≤◌, ◌≡◌, arith}
use finance.Calendar.{Date, ms_per_day, days_before, calendar_month_bounds, to_utc_date}

days_before_suc :
    (s : ℕ)
    → (days_before s + 28 ≤ days_before (s + 1)) × (days_before (s + 1) ≤ days_before s + 31)
days_before_suc s = omega arith

days_before_epoch : (s : ℕ) → 12 * 1970 ≤ s + 2 → 719468 ≤ days_before s
days_before_epoch s h = omega arith

-- The day after the last day of a month is the first day of the next month, which `year'` and
-- `month'` name, from 1970 on.
pub next_month_start :
    (year month year' month' : ℕ)
    → year' * 12 + month' ≡ year * 12 + month + 1
    → 1970 ≤ year
    → 1 ≤ month
    → ((calendar_month_bounds year month).end + ms_per_day
        ≡ (calendar_month_bounds year' month').start)
      × ((calendar_month_bounds year month).start ≤ (calendar_month_bounds year month).end)
unfolding calendar_month_bounds
next_month_start year month year' month' e y m =
    let s = year * 12 + month - 3 in
    let e' : year' * 12 + month' - 3 ≡ s + 1 = omega arith in
    let e'' : year * 12 + (month + 1) - 3 ≡ s + 1 = omega arith in
    rw (e', e'') (omega (arith, days_before_suc s, days_before_epoch s))

-- A month starts on a whole day.
pub month_start_whole :
    (year month : ℕ)
    → (calendar_month_bounds year month).start
      ≡ (calendar_month_bounds year month).start / ms_per_day * ms_per_day
unfolding calendar_month_bounds
month_start_whole year month = omega arith

pub to_utc_date_whole : (d : Date) → to_utc_date d ≡ to_utc_date d / ms_per_day * ms_per_day
unfolding to_utc_date
to_utc_date_whole d = omega arith
