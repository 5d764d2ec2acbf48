-- ===== src/Statement/MonthSlice/Joins.antt =====
-- The slices of two months in a row join: one closes at the balance at which the next one opens.
use finance.Prelude.{ℕ, ◌+◌, ◌≤◌, ◌≡◌, refl, arith, List, inl, inr, Bool-cases, ◌*◌, ◌/◌, true}
use finance.Prelude.Int.{pos, ◌+ℤ◌, ◌-ℤ◌, int_laws}
use finance.Prelude.Sums.{sum, sum_regroup, count}
use finance.Calendar.{ms_per_day}
use finance.Calendar.Months.{next_month_start, to_utc_date_whole, month_start_whole}
use finance.Statement.MonthSlice.{
  StatementPeriodSliceTransaction, StatementPeriodSliceSource, Window,
  build_statement_period_month_slice, derived_slice, window_of, is_exact_month,
}
use finance.Statement.MonthSlice.Loop.{before_delta, income_of, expense_of, is_within}
use finance.Statement.MonthSlice.Laws.{derived_slice_sums}

module _ (w w' : Window) (same_start : w'.source_start_date ≡ w.source_start_date)
    (same_end : w'.source_end_date ≡ w.source_end_date)
    (next : w.month_end_date + ms_per_day ≡ w'.month_start_date)
    (ordered : w.month_start_date ≤ w.month_end_date)
    (whole : w'.month_start_date ≡ w'.month_start_date / ms_per_day * ms_per_day) where
  before_delta-next :
      (tx : StatementPeriodSliceTransaction)
      → before_delta w' tx ≡ before_delta w tx +ℤ income_of w tx -ℤ expense_of w tx
  before_delta-next tx = grind (int_laws, to_utc_date_whole tx.date)

build-eq-derived :
    (source : StatementPeriodSliceSource) (year month : ℕ)
    (txs : List StatementPeriodSliceTransaction)
    → (build_statement_period_month_slice source year month txs).derived_from_multi_month_source
      ≡ true
    → build_statement_period_month_slice source year month txs ≡ derived_slice source year month txs
unfolding build_statement_period_month_slice
build-eq-derived source year month txs h = elim (Bool-cases (is_exact_month source year month)) [
  | inl e ↦ absurd (ground arith)
  | inr e ↦ rw e
]

derived_closing :
    (source : StatementPeriodSliceSource) (year month : ℕ)
    (txs : List StatementPeriodSliceTransaction)
    → let s = derived_slice source year month txs in
      s.closing_balance_minor ≡ s.opening_balance_minor +ℤ s.income_minor -ℤ s.expense_minor
unfolding derived_slice
derived_closing source year month txs = refl

-- Let `year'` and `month'` name the month after `month` of `year`, from 1970 on, and let neither
-- month be the whole source period. Then the slice of the first month closes at the balance at
-- which the slice of the next one opens.
pub slices_join :
    (source : StatementPeriodSliceSource) (year month year' month' : ℕ)
    (txs : List StatementPeriodSliceTransaction)
    → year' * 12 + month' ≡ year * 12 + month + 1
    → 1970 ≤ year
    → 1 ≤ month
    → (build_statement_period_month_slice source year month txs).derived_from_multi_month_source
      ≡ true
    → (build_statement_period_month_slice source year' month' txs).derived_from_multi_month_source
      ≡ true
    → (build_statement_period_month_slice source year month txs).closing_balance_minor
      ≡ (build_statement_period_month_slice source year' month' txs).opening_balance_minor
slices_join source year month year' month' txs e y m d d' =
    let w = window_of source year month in
    let w' = window_of source year' month' in
    let (next, ordered) = next_month_start year month year' month' e y m in
    let (o, i, x, c) = derived_slice_sums source year month txs in
    let (o', i', x', c') = derived_slice_sums source year' month' txs in
    rw
      (
        build-eq-derived source year month txs d,
        build-eq-derived source year' month' txs d',
        derived_closing source year month txs,
        o,
        i,
        x,
        o',
        sum_regroup (before_delta w') (before_delta w) (income_of w) (expense_of w) txs
            (before_delta-next w w' refl refl next ordered (month_start_whole year' month')),
      )
      (omega int_laws)

-- The slice of a month that is not the whole source period: it opens at the source's opening
-- balance plus the signed amounts of the source period before the month; its income, its expense
-- and its count are those of the transactions within the month, in whatever order they are given.
pub derived_totals :
    (source : StatementPeriodSliceSource) (year month : ℕ)
    (txs : List StatementPeriodSliceTransaction)
    → (build_statement_period_month_slice source year month txs).derived_from_multi_month_source
      ≡ true
    → let s = build_statement_period_month_slice source year month txs in
      let w = window_of source year month in
      (s.opening_balance_minor ≡ source.opening_balance_minor +ℤ sum (before_delta w) txs)
      × (s.income_minor ≡ sum (income_of w) txs)
      × (s.expense_minor ≡ sum (expense_of w) txs)
      × (s.transaction_count ≡ pos (count (is_within w) txs))
derived_totals source year month txs d =
    rw (build-eq-derived source year month txs d) (derived_slice_sums source year month txs)
