-- ===== src/Statement/MonthSlice.antt =====
-- server/services/statementPeriodMonthSliceService.ts: the part of a statement period that falls in
-- one calendar month.
pub mod Loop
pub mod Laws
pub mod Joins
use finance.Prelude.{
  ℕ, suc, ◌≤◌, ◌<◌, Bool, true, false, ◌&&◌, ◌||◌, List, [], ◌∷◌, ltb, leb, ◌==◌, if◌then◌else◌,
  sort_by,
}
use finance.Prelude.Int.{ℤ, pos, ◌+ℤ◌, ◌-ℤ◌, neg, abs}
use finance.Calendar.{Date, MonthBounds, calendar_month_bounds, to_utc_date}
use finance.Statement.{StatementCoverageStatus, complete, partial, Direction, is_credit}

pub record StatementPeriodSliceTransaction : Type 0 where
  pub date : Date
  pub amount_minor : ℤ
  pub direction : Direction

pub record StatementPeriodSliceSource : Type 0 where
  pub period_start : Date
  pub period_end : Date
  pub coverage_status : StatementCoverageStatus
  pub opening_balance_minor : ℤ
  pub income_minor : ℤ
  pub expense_minor : ℤ
  pub closing_balance_minor : ℤ
  pub transaction_count : ℤ

pub record StatementPeriodMonthSlice : Type 0 where
  pub period_start : Date
  pub period_end : Date
  pub coverage_status : StatementCoverageStatus
  pub opening_balance_minor : ℤ
  pub income_minor : ℤ
  pub expense_minor : ℤ
  pub closing_balance_minor : ℤ
  pub transaction_count : ℤ
  pub source_period_start : Date
  pub source_period_end : Date
  pub source_coverage_status : StatementCoverageStatus
  pub derived_from_multi_month_source : Bool

unfoldable pub statement_period_fully_covers_month : Date → Date → ℕ → ℕ → Bool
statement_period_fully_covers_month period_start period_end year month =
    let bounds = calendar_month_bounds year month in
    leb (to_utc_date period_start) bounds.start && leb bounds.end (to_utc_date period_end)

-- The variables of the loop.
pub record Running : Type 0 where
  pub opening : ℤ
  pub income : ℤ
  pub expense : ℤ
  pub transaction_count : ℕ

-- What the loop reads: the first and the last day of the source period and of the month.
pub record Window : Type 0 where
  pub source_start_date : Date
  pub source_end_date : Date
  pub month_start_date : Date
  pub month_end_date : Date

-- One round of the loop; a `continue` leaves the variables as they are.
unfoldable pub slice_step : Window → StatementPeriodSliceTransaction → Running → Running
slice_step w tx r =
    let tx_date = to_utc_date tx.date in
    let amount = abs tx.amount_minor in
    let delta = if is_credit tx.direction then amount else neg amount in
    if ltb tx_date w.source_start_date || ltb w.source_end_date tx_date
    then r
    else if ltb tx_date w.month_start_date
    then record r { opening = r.opening +ℤ delta }
    else if ltb w.month_end_date tx_date
    then r
    else if is_credit tx.direction
    then record r { income = r.income +ℤ amount; transaction_count = suc r.transaction_count }
    else record r { expense = r.expense +ℤ amount; transaction_count = suc r.transaction_count }

unfoldable pub slice_loop : Window → List StatementPeriodSliceTransaction → Running → Running
slice_loop w [] r = r
slice_loop w (tx ∷ txs) r = slice_loop w txs (slice_step w tx r)

abbrev pub by_date : StatementPeriodSliceTransaction → StatementPeriodSliceTransaction → Bool
by_date a b = leb a.date b.date

-- The source period is the month itself.
unfoldable pub is_exact_month : StatementPeriodSliceSource → ℕ → ℕ → Bool
is_exact_month source year month =
    let bounds = calendar_month_bounds year month in
    (to_utc_date source.period_start == bounds.start)
    && (to_utc_date source.period_end == bounds.end)

-- The result of the first branch: the totals of the source.
unfoldable pub exact_slice : StatementPeriodSliceSource → ℕ → ℕ → StatementPeriodMonthSlice
exact_slice source year month =
    let bounds = calendar_month_bounds year month in
    record {
      period_start = bounds.start;
      period_end = bounds.end;
      coverage_status = source.coverage_status;
      opening_balance_minor = source.opening_balance_minor;
      income_minor = source.income_minor;
      expense_minor = source.expense_minor;
      closing_balance_minor = source.closing_balance_minor;
      transaction_count = source.transaction_count;
      source_period_start = source.period_start;
      source_period_end = source.period_end;
      source_coverage_status = source.coverage_status;
      derived_from_multi_month_source = false;
    }

abbrev pub window_of : StatementPeriodSliceSource → ℕ → ℕ → Window
window_of source year month =
    let bounds = calendar_month_bounds year month in
    record {
      source_start_date = to_utc_date source.period_start;
      source_end_date = to_utc_date source.period_end;
      month_start_date = bounds.start;
      month_end_date = bounds.end;
    }

abbrev pub loop_start : StatementPeriodSliceSource → Running
loop_start source = record {
  opening = source.opening_balance_minor;
  income = pos 0;
  expense = pos 0;
  transaction_count = 0;
}

-- The result of the second branch: the totals that the loop finds in the transactions.
unfoldable pub derived_slice :
    StatementPeriodSliceSource
    → ℕ
    → ℕ
    → List StatementPeriodSliceTransaction
    → StatementPeriodMonthSlice
derived_slice source year month transactions =
    let bounds = calendar_month_bounds year month in
    let end =
      slice_loop (window_of source year month) (sort_by by_date transactions) (loop_start source) in
    record {
      period_start = bounds.start;
      period_end = bounds.end;
      coverage_status =
          if statement_period_fully_covers_month source.period_start source.period_end year month
          then complete
          else partial;
      opening_balance_minor = end.opening;
      income_minor = end.income;
      expense_minor = end.expense;
      closing_balance_minor = end.opening +ℤ end.income -ℤ end.expense;
      transaction_count = pos end.transaction_count;
      source_period_start = source.period_start;
      source_period_end = source.period_end;
      source_coverage_status = source.coverage_status;
      derived_from_multi_month_source = true;
    }

unfoldable pub build_statement_period_month_slice :
    StatementPeriodSliceSource
    → ℕ
    → ℕ
    → List StatementPeriodSliceTransaction
    → StatementPeriodMonthSlice
unfolding is_exact_month exact_slice derived_slice
build_statement_period_month_slice source year month transactions =
    if is_exact_month source year month
    then exact_slice source year month
    else derived_slice source year month transactions
