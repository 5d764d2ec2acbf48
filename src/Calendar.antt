-- ===== src/Calendar.antt =====
-- Dates as the code uses them: `Date.UTC`, and `calendarMonthBounds` and `toUTCDate` of
-- server/services/statementPeriodMonthSliceService.ts.
pub mod Months
use finance.Prelude.{ℕ, ◌+◌, ◌-◌, ◌*◌, ◌/◌, ◌%◌, ◌≡◌, refl}

-- Milliseconds since 1 January 1970, which is the earliest date of the model.
abbrev pub Date : Type 0
Date = ℕ

abbrev pub ms_per_day : ℕ
ms_per_day = 86400000

-- Days from 1 March of the year 0 to the first of a month, which is given by the months since then.
abbrev days_before : ℕ → ℕ
days_before s = 365 * (s / 12) + s / 12 / 4 - s / 12 / 100 + s / 12 / 400 + (153 * (s % 12) + 2) / 5

-- `new Date(Date.UTC(year, month - 1, 1))`, where a month outside 1 to 12 runs into other years.
unfoldable pub utc_month_start : ℕ → ℕ → Date
utc_month_start year month = ms_per_day * (days_before (year * 12 + month - 3) - 719468)

pub record MonthBounds : Type 0 where
  pub start : Date
  pub end : Date

-- The first and the last day of a month; day 0 of the next month is the last day of this one.
unfoldable pub calendar_month_bounds : ℕ → ℕ → MonthBounds
unfolding utc_month_start
calendar_month_bounds year month = record {
  start = utc_month_start year month;
  end = utc_month_start year (month + 1) - ms_per_day;
}

-- `Date.UTC` of a date's year, month and day: the start of its day.
unfoldable pub to_utc_date : Date → Date
to_utc_date d = d / ms_per_day * ms_per_day

starts_of_months :
    (utc_month_start 1970 1 ≡ 0)
    × (utc_month_start 2024 3 ≡ 19783 * ms_per_day)
    × (utc_month_start 2025 1 ≡ 20089 * ms_per_day)
    × (utc_month_start 2024 13 ≡ 20089 * ms_per_day)
unfolding utc_month_start
starts_of_months = (refl, refl, refl, refl)
