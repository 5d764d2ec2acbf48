-- ===== src/Examples/Months.antt =====
-- A month with two transactions of one day, which come in another order than the bank's.
use Prim.Native.Nat.{Ordering}
use Prim.Native.String.{compare}
use finance.Prelude.{
  ◌≡◌, ◌↔◌, refl, arith, [], ◌∷◌, true, false, String, some, none, ok, All, is_nil, any,
}
use finance.Prelude.Int.{ℤ, pos, negsuc, ◌+ℤ◌, ◌-ℤ◌, abs, neg}
use finance.Prelude.Sums.{sum}
use finance.Statement.{complete, credit, debit}
use finance.Reconciliation.Monthly.{
  MonthlyReconciliationTransactionInput, transaction_delta, transaction_running_balance, is_booked,
}
use finance.Reconciliation.Monthly.Order.{
  order_transactions_for_reconciliation, order_groups, rebuild, continues, group_by_day,
  add_to_group, number_from,
}
use finance.Calendar.{to_utc_date}
use finance.Reconciliation.Monthly.Permutes.{sum-order}
use finance.Reconciliation.Monthly.Fuel.{rebuild-fuel}
use finance.Reconciliation.Monthly.LineLaws.{amount}
use finance.Reconciliation.Monthly.Balances.{Continuous, IsExplicit}
use finance.Reconciliation.Monthly.Figures.{
  ordered, unbooked_amount, monthly_differences, monthly_continuity,
}
use finance.Reconciliation.Monthly.Eligible.{
  IsClean, monthly_close_iff, monthly_source_reasons, is_source_balance,
}
use finance.Reconciliation.Monthly.Checks.{
  check_all, check_first, check_rest, check_next, first_balance, next_balance, check_booking,
  check_fingerprint, add_to_set,
}
use finance.Reconciliation.Monthly.Lines.{
  build_lines, group_lines, add_to_lines, first_line, line_key, same_key, add_to_line, line_labels,
}
use finance.Reconciliation.Monthly.Build.{
  MonthlyReconciliationInput, MonthlyReconciliationResult, build_monthly_reconciliation, finish,
  figures_of, monthly_status, sum_by_direction, month_chain_errors,
}

abbrev by_text : String → String → ℤ
by_text a b = elim (compare a b) [
  | Ordering.lt ↦ negsuc 0
  | Ordering.eq ↦ pos 0
  | Ordering.gt ↦ pos 1
]

abbrev received : MonthlyReconciliationTransactionInput
received = record {
  transaction_id = "t2";
  date = 1704067200000;
  amount_minor = pos 50;
  direction = credit;
  resulting_balance_minor = some (pos 150);
  raw_row = none;
  import_fingerprint = some "f2";
  duplicate_fingerprint = none;
  project_id = some "p";
  transaction_type_id = some "y";
  category_id = some "c";
  literal_project_label = none;
  literal_type_label = none;
  literal_category_label = none;
  unresolved = false;
  source_file_hash = none;
}

abbrev spent : MonthlyReconciliationTransactionInput
spent = record received {
  transaction_id = "t1";
  amount_minor = negsuc 19;
  direction = debit;
  resulting_balance_minor = some (pos 130);
  import_fingerprint = some "f1";
}

abbrev month : MonthlyReconciliationInput
month = record {
  workspace_id = "w";
  account_id = "a";
  year = 2024;
  month = 1;
  imported_transactions = spent ∷ received ∷ [];
  statement_evidence = record {
    coverage_status = complete;
    opening_balance_minor = some (pos 100);
    closing_balance_minor = some (pos 130);
    transaction_count = some (pos 2);
    source_file_hashes = [];
    period_start = none;
    period_end = none;
  };
  previous_month_closing_balance_minor = some (pos 100);
  next_month_opening_balance_minor = none;
  validator_version = none;
}

abbrev month_result : MonthlyReconciliationResult
month_result = finish month.statement_evidence (figures_of by_text month)

month_built : build_monthly_reconciliation by_text month ≡ ok month_result
unfolding build_monthly_reconciliation
month_built = refl

-- The bank's order is found although the identifiers go the other way.
month_in_order : ordered by_text month ≡ received ∷ spent ∷ []
unfolding order_transactions_for_reconciliation order_groups rebuild continues group_by_day
    add_to_group transaction_delta transaction_running_balance abs neg ◌+ℤ◌ ◌-ℤ◌ to_utc_date
month_in_order = refl

month-IsExplicit : All IsExplicit (ordered by_text month)
month-IsExplicit = rw month_in_order (refl, (refl, tt))

sum-order_example :
    sum
      (amount credit)
      (order_transactions_for_reconciliation by_text (spent ∷ received ∷ []) (some (pos 100)))
    ≡ sum (amount credit) (spent ∷ received ∷ [])
sum-order_example = sum-order by_text (amount credit) (spent ∷ received ∷ []) (some (pos 100))

rebuild-fuel_example :
    rebuild by_text 2 (number_from 0 (spent ∷ received ∷ [])) [] (pos 100)
    ≡ rebuild by_text 5 (number_from 0 (spent ∷ received ∷ [])) [] (pos 100)
rebuild-fuel_example =
    rebuild-fuel by_text 2 5 (number_from 0 (spent ∷ received ∷ [])) [] (pos 100) (omega arith)
      (omega arith)

monthly_differences_example :
    (month_result.income_minor ≡ sum (amount credit) month.imported_transactions)
    × (month_result.expense_minor ≡ sum (amount debit) month.imported_transactions)
    × (month_result.category_income_difference_minor
        ≡ sum (unbooked_amount credit) month.imported_transactions)
    × (month_result.category_expense_difference_minor
        ≡ sum (unbooked_amount debit) month.imported_transactions)
monthly_differences_example = monthly_differences by_text month month_result month_built

monthly_continuity_example :
    (month_result.running_balance_error_count ≡ 0) ↔ Continuous (pos 100) (ordered by_text month)
monthly_continuity_example =
    monthly_continuity by_text month month_result (pos 100) month_built refl month-IsExplicit

monthly_close_iff_example :
    ((month_result.close_eligible ≡ true) ↔ IsClean month month_result)
    × (is_nil month_result.reasons ≡ month_result.close_eligible)
monthly_close_iff_example = monthly_close_iff by_text month month_result month_built

monthly_source_reasons_example : any is_source_balance month_result.reasons ≡ false
monthly_source_reasons_example = monthly_source_reasons by_text month month_result month_built

-- The month may close.
month_may_close : month_result.close_eligible ≡ true
unfolding finish figures_of monthly_status order_transactions_for_reconciliation order_groups
    rebuild continues group_by_day add_to_group transaction_delta transaction_running_balance abs
    neg ◌+ℤ◌ ◌-ℤ◌ to_utc_date check_all check_first check_rest check_next first_balance next_balance
    check_booking check_fingerprint add_to_set sum_by_direction build_lines group_lines add_to_lines
    first_line line_key same_key add_to_line line_labels is_booked month_chain_errors
month_may_close = refl
