-- ===== src/Statement/MonthSlice/Loop.antt =====
-- What the loop over the transactions adds up, as sums over the list.
use finance.Prelude.{suc, ◌+◌, ◌≡◌, arith, Bool, not, ◌&&◌, ◌||◌, List, [], ◌∷◌, ltb, if◌then◌else◌}
use finance.Prelude.Int.{ℤ, pos, ◌+ℤ◌, neg, abs, int_laws}
use finance.Prelude.Sums.{sum, count}
use finance.Calendar.{to_utc_date}
use finance.Statement.{is_credit}
use finance.Statement.MonthSlice.{
  StatementPeriodSliceTransaction, Running, Window, slice_step, slice_loop,
}

module _ (w : Window) where
  -- The transaction lies in the source period.
  abbrev pub in_source : StatementPeriodSliceTransaction → Bool
  in_source tx =
      not (
        ltb (to_utc_date tx.date) w.source_start_date
        || ltb w.source_end_date (to_utc_date tx.date))

  abbrev pub is_before : StatementPeriodSliceTransaction → Bool
  is_before tx = in_source tx && ltb (to_utc_date tx.date) w.month_start_date

  abbrev pub is_within : StatementPeriodSliceTransaction → Bool
  is_within tx =
      in_source tx
      && not (ltb (to_utc_date tx.date) w.month_start_date)
      && not (ltb w.month_end_date (to_utc_date tx.date))

abbrev pub signed : StatementPeriodSliceTransaction → ℤ
signed tx = if is_credit tx.direction then abs tx.amount_minor else neg (abs tx.amount_minor)

module _ (w : Window) where
  abbrev pub before_delta : StatementPeriodSliceTransaction → ℤ
  before_delta tx = if is_before w tx then signed tx else pos 0

  abbrev pub income_of : StatementPeriodSliceTransaction → ℤ
  income_of tx = if is_within w tx && is_credit tx.direction then abs tx.amount_minor else pos 0

  abbrev pub expense_of : StatementPeriodSliceTransaction → ℤ
  expense_of tx =
      if is_within w tx && not (is_credit tx.direction) then abs tx.amount_minor else pos 0

  step-opening :
      (tx : StatementPeriodSliceTransaction) (r : Running)
      → (slice_step w tx r).opening ≡ r.opening +ℤ before_delta tx
  unfolding slice_step
  step-opening tx r = grind int_laws

  step-income :
      (tx : StatementPeriodSliceTransaction) (r : Running)
      → (slice_step w tx r).income ≡ r.income +ℤ income_of tx
  unfolding slice_step
  step-income tx r = grind int_laws

  step-expense :
      (tx : StatementPeriodSliceTransaction) (r : Running)
      → (slice_step w tx r).expense ≡ r.expense +ℤ expense_of tx
  unfolding slice_step
  step-expense tx r = grind int_laws

  step-count :
      (tx : StatementPeriodSliceTransaction) (r : Running)
      → (slice_step w tx r).transaction_count
        ≡ (if is_within w tx then suc r.transaction_count else r.transaction_count)
  unfolding slice_step
  step-count tx r = ground arith

  -- The four variables at the end of the loop.
  pub slice_loop_sums :
      (txs : List StatementPeriodSliceTransaction) (r : Running)
      → ((slice_loop w txs r).opening ≡ r.opening +ℤ sum before_delta txs)
        × ((slice_loop w txs r).income ≡ r.income +ℤ sum income_of txs)
        × ((slice_loop w txs r).expense ≡ r.expense +ℤ sum expense_of txs)
        × ((slice_loop w txs r).transaction_count ≡ r.transaction_count + count (is_within w) txs)
  unfolding slice_loop
  slice_loop_sums [] r = (omega int_laws, omega int_laws, omega int_laws, omega arith)
  slice_loop_sums (tx ∷ txs) r =
      let (o, i, x, c) = slice_loop_sums txs (slice_step w tx r) in
      (
        rw (o, step-opening tx r) (omega int_laws),
        rw (i, step-income tx r) (omega int_laws),
        rw (x, step-expense tx r) (omega int_laws),
        rw (c, step-count tx r) (ground arith),
      )
