-- ===== src/Examples/Statements.antt =====
-- A statement over January and February 2024, cut into its two months.
use finance.Prelude.{ℕ, ◌*◌, ◌+◌, ◌≡◌, refl, List, [], ◌∷◌, true, arith}
use finance.Prelude.Int.{pos, negsuc, ◌+ℤ◌, ◌-ℤ◌, abs}
use finance.Prelude.Sums.{sum, count}
use finance.Calendar.{ms_per_day, calendar_month_bounds, to_utc_date}
use finance.Statement.{complete, credit, debit}
use finance.Statement.MonthSlice.{
  StatementPeriodSliceSource, StatementPeriodSliceTransaction, build_statement_period_month_slice,
  window_of, slice_loop, slice_step,
}
use finance.Statement.MonthSlice.Loop.{before_delta, income_of, expense_of, is_within}
use finance.Statement.MonthSlice.Joins.{slices_join, derived_totals}

-- Noon of a day of 2024, from 0.
abbrev noon : ℕ → ℕ
noon d = (19723 + d) * ms_per_day + 43200000

abbrev two_months : StatementPeriodSliceSource
two_months = record {
  period_start = 19723 * ms_per_day;
  period_end = (19723 + 59) * ms_per_day;
  coverage_status = complete;
  opening_balance_minor = pos 10000;
  income_minor = pos 700;
  expense_minor = pos 450;
  closing_balance_minor = pos 10250;
  transaction_count = pos 4;
}

abbrev four_transactions : List StatementPeriodSliceTransaction
four_transactions =
    record { date = noon 40; amount_minor = negsuc 199; direction = debit }
    ∷ record { date = noon 3; amount_minor = pos 500; direction = credit }
    ∷ record { date = noon 30; amount_minor = negsuc 249; direction = debit }
    ∷ record { date = noon 31; amount_minor = pos 200; direction = credit }
    ∷ []

january_closes :
    (build_statement_period_month_slice two_months 2024 1 four_transactions).closing_balance_minor
    ≡ pos 10250
unfolding build_statement_period_month_slice slice_loop slice_step calendar_month_bounds to_utc_date
    abs ◌+ℤ◌ ◌-ℤ◌
january_closes = refl

january_derived :
    (build_statement_period_month_slice two_months 2024 1
      four_transactions).derived_from_multi_month_source
    ≡ true
unfolding build_statement_period_month_slice calendar_month_bounds to_utc_date
january_derived = refl

february_derived :
    (build_statement_period_month_slice two_months 2024 2
      four_transactions).derived_from_multi_month_source
    ≡ true
unfolding build_statement_period_month_slice calendar_month_bounds to_utc_date
february_derived = refl

slices_join_example :
    (build_statement_period_month_slice two_months 2024 1 four_transactions).closing_balance_minor
    ≡ (build_statement_period_month_slice two_months 2024 2 four_transactions).opening_balance_minor
slices_join_example =
    slices_join two_months 2024 1 2024 2 four_transactions (omega arith) (omega arith) (omega arith)
      january_derived february_derived

derived_totals_example :
    let s = build_statement_period_month_slice two_months 2024 1 four_transactions in
    let w = window_of two_months 2024 1 in
    (s.opening_balance_minor ≡ pos 10000 +ℤ sum (before_delta w) four_transactions)
    × (s.income_minor ≡ sum (income_of w) four_transactions)
    × (s.expense_minor ≡ sum (expense_of w) four_transactions)
    × (s.transaction_count ≡ pos (count (is_within w) four_transactions))
derived_totals_example = derived_totals two_months 2024 1 four_transactions january_derived
