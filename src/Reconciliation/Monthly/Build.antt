-- ===== src/Reconciliation/Monthly/Build.antt =====
-- server/services/monthlyReconciliationService.ts, `buildMonthlyReconciliation` and
-- `inspectMonthlyTransactionIntegrity`. Amounts are kept as integers where the code prints and
-- reads them back; year and month are whole numbers by their type.
use Prim.Native.String.{compare}
use text.Mathlib.Text.{is_le}
use finance.Prelude.{
  ℕ, ◌+◌, ◌-◌, Bool, true, false, not, ◌&&◌, ◌||◌, Option, none, some, List, [], ◌∷◌, ◌++◌, String,
  ltb, leb, if◌then◌else◌, or_else, sort_by, map, select, length, when, is_truthy, Result, ok, ◌>>◌,
  ◌>>=◌, require,
}
use finance.Prelude.Int.{ℤ, pos, ◌+ℤ◌, ◌-ℤ◌, abs, ltb_ℤ, eqb_ℤ}
use finance.Prelude.Sums.{sum}
use finance.Calendar.{Date, utc_month_start}
use finance.Statement.{StatementCoverageStatus, complete, is_complete, Direction, credit, debit}
use finance.Reconciliation.{ReconciliationStatus, balanced, unbalanced, unfinished, is_balanced}
use finance.Reconciliation.Preview.{is_zero}
use finance.Reconciliation.Category.{same_direction}
use finance.Reconciliation.Monthly.{
  MonthlyReconciliationTransactionInput, extract_running_balance_minor,
}
use finance.Reconciliation.Monthly.Order.{order_transactions_for_reconciliation}
use finance.Reconciliation.Monthly.Checks.{check_all, set_of}
use finance.Reconciliation.Monthly.Lines.{
  MonthlyReconciliationLine, category, subcategory, build_lines,
}

pub record MonthlyReconciliationStatementEvidence : Type 0 where
  pub coverage_status : StatementCoverageStatus
  pub opening_balance_minor : Option ℤ
  pub closing_balance_minor : Option ℤ
  pub transaction_count : Option ℤ
  pub source_file_hashes : List String
  pub period_start : Option Date
  pub period_end : Option Date

pub record MonthlyReconciliationInput : Type 0 where
  pub workspace_id : String
  pub account_id : String
  pub year : ℕ
  pub month : ℕ
  pub imported_transactions : List MonthlyReconciliationTransactionInput
  pub statement_evidence : MonthlyReconciliationStatementEvidence
  pub previous_month_closing_balance_minor : Option ℤ
  pub next_month_opening_balance_minor : Option ℤ
  pub validator_version : Option String

-- The messages in `reasons`.
pub data MonthlyReason : Type 0 where
  source_opening_differs source_closing_differs : MonthlyReason
  coverage_incomplete reviews_open duplicate_fingerprints running_balance_errors : MonthlyReason
  category_income_differs category_expense_differs balance_differs count_differs : MonthlyReason
  month_chain_broken : MonthlyReason

pub data MonthlyError : Type 0 where
  workspace_missing account_missing invalid_year invalid_month invalid_count : MonthlyError

pub record MonthlyReconciliationResult : Type 0 where
  pub workspace_id : String
  pub account_id : String
  pub year : ℕ
  pub month : ℕ
  pub period_start : Date
  pub period_end : Date
  pub coverage_status : StatementCoverageStatus
  pub opening_balance_minor : ℤ
  pub income_minor : ℤ
  pub expense_minor : ℤ
  pub net_minor : ℤ
  pub closing_balance_minor : ℤ
  pub transaction_count : ℕ
  pub statement_transaction_count : Option ℤ
  pub transaction_count_difference : Option ℤ
  pub booked_transaction_count : ℕ
  pub unresolved_transaction_count : ℕ
  pub duplicate_fingerprint_count : ℕ
  pub running_balance_error_count : ℕ
  pub category_income_difference_minor : ℤ
  pub category_expense_difference_minor : ℤ
  pub balance_difference_minor : ℤ
  pub status : ReconciliationStatus
  pub close_eligible : Bool
  pub reasons : List MonthlyReason
  pub category_lines : List MonthlyReconciliationLine
  pub subcategory_lines : List MonthlyReconciliationLine
  pub source_file_hashes : List String
  pub validator_version : String
  pub month_chain_error_count : ℕ

unfoldable pub sum_by_direction : List MonthlyReconciliationTransactionInput → Direction → ℤ
sum_by_direction [] direction = pos 0
sum_by_direction (tx ∷ txs) direction =
    let rest = sum_by_direction txs direction in
    if same_direction tx.direction direction then abs tx.amount_minor +ℤ rest else rest

abbrev string_le : String → String → Bool
string_le s t = is_le (compare s t)

abbrev pub option_differs : Option ℤ → ℤ → Bool
option_differs none n = false
option_differs (some m) n = not (eqb_ℤ m n)

-- `transactionCountDifference != null && transactionCountDifference !== 0`
abbrev pub is_not_zero : Option ℤ → Bool
is_not_zero none = false
is_not_zero (some n) = not (is_zero n)

abbrev count_true : List Bool → ℕ
count_true bs = length (select (λ b. b) bs)

-- `monthChainErrorCount`
unfoldable pub month_chain_errors : Option ℤ → Option ℤ → ℤ → ℤ → ℕ
month_chain_errors previous next opening closing =
    count_true (option_differs previous opening ∷ option_differs next closing ∷ [])

-- The total of the lines of a direction.
abbrev pub line_total : Direction → List MonthlyReconciliationLine → ℤ
line_total d ls = sum (λ l. l.amount_minor) (select (λ l. same_direction l.direction d) ls)

-- `reasons`, in the order in which they are added; no two of the messages are alike.
unfoldable pub reasons_of :
    MonthlyReconciliationStatementEvidence → MonthlyReconciliationResult → List MonthlyReason
reasons_of e r =
    when (option_differs e.opening_balance_minor r.opening_balance_minor) source_opening_differs
    ++ (when (option_differs e.closing_balance_minor r.closing_balance_minor) source_closing_differs
        ++ (when (not (is_complete e.coverage_status)) coverage_incomplete
            ++ (when (ltb 0 r.unresolved_transaction_count) reviews_open
                ++ (when (ltb 0 r.duplicate_fingerprint_count) duplicate_fingerprints
                    ++ (when (ltb 0 r.running_balance_error_count) running_balance_errors
                        ++ (when (not (is_zero r.category_income_difference_minor))
                              category_income_differs
                            ++ (when (not (is_zero r.category_expense_difference_minor))
                                  category_expense_differs
                                ++ (when (not (is_zero r.balance_difference_minor)) balance_differs
                                    ++ (when (is_not_zero r.transaction_count_difference)
                                          count_differs
                                        ++ when (ltb 0 r.month_chain_error_count)
                                            month_chain_broken)))))))))

unfoldable pub monthly_status :
    MonthlyReconciliationStatementEvidence → MonthlyReconciliationResult → ReconciliationStatus
monthly_status e r =
    if not (is_complete e.coverage_status) || ltb 0 r.unresolved_transaction_count
    then unfinished
    else if ltb 0 r.duplicate_fingerprint_count
        || (ltb 0 r.running_balance_error_count
            || (not (is_zero r.category_income_difference_minor)
                || (not (is_zero r.category_expense_difference_minor)
                    || (not (is_zero r.balance_difference_minor)
                        || (is_not_zero r.transaction_count_difference
                            || ltb 0 r.month_chain_error_count)))))
    then unbalanced
    else balanced

-- The result, with the status and the reasons that follow from the figures.
unfoldable pub finish :
    MonthlyReconciliationStatementEvidence
    → MonthlyReconciliationResult
    → MonthlyReconciliationResult
unfolding reasons_of monthly_status
finish e r = record r {
  status = monthly_status e r;
  close_eligible = is_balanced (monthly_status e r);
  reasons = reasons_of e r;
}

module _ (locale_compare : String → String → ℤ) where
  -- What is computed before the status and the reasons, which are still those of a balanced month.
  unfoldable pub figures_of : MonthlyReconciliationInput → MonthlyReconciliationResult
  figures_of input =
      let e = input.statement_evidence in
      let txs =
        order_transactions_for_reconciliation locale_compare input.imported_transactions
          e.opening_balance_minor in
      let income = sum_by_direction txs credit in
      let expense = sum_by_direction txs debit in
      let net = income -ℤ expense in
      let checks = check_all e.opening_balance_minor txs in
      let opening = or_else e.opening_balance_minor (or_else checks.derived_opening (pos 0)) in
      let closing =
        or_else e.closing_balance_minor (or_else checks.previous_balance (opening +ℤ net)) in
      let categories = build_lines locale_compare txs category in
      record {
        workspace_id = input.workspace_id;
        account_id = input.account_id;
        year = input.year;
        month = input.month;
        period_start = or_else e.period_start (utc_month_start input.year input.month);
        period_end = or_else e.period_end (utc_month_start input.year (input.month + 1) - 1);
        coverage_status = e.coverage_status;
        opening_balance_minor = opening;
        income_minor = income;
        expense_minor = expense;
        net_minor = net;
        closing_balance_minor = closing;
        transaction_count = length txs;
        statement_transaction_count = e.transaction_count;
        transaction_count_difference = elim e.transaction_count [
          | none ↦ none
          | some n ↦ some (pos (length txs) -ℤ n)
        ];
        booked_transaction_count = checks.booked;
        unresolved_transaction_count = checks.unresolved;
        duplicate_fingerprint_count = length checks.repeated;
        running_balance_error_count = checks.running_balance_errors;
        category_income_difference_minor = income -ℤ line_total credit categories;
        category_expense_difference_minor = expense -ℤ line_total debit categories;
        balance_difference_minor = opening +ℤ net -ℤ closing;
        status = balanced;
        close_eligible = true;
        reasons = [];
        category_lines = categories;
        subcategory_lines = build_lines locale_compare txs subcategory;
        source_file_hashes = sort_by string_le (
            set_of [] (
              e.source_file_hashes
              ++ select is_truthy (map (λ tx. or_else tx.source_file_hash "") txs)));
        validator_version = or_else input.validator_version "monthly-reconciliation-v1";
        month_chain_error_count =
            month_chain_errors input.previous_month_closing_balance_minor
              input.next_month_opening_balance_minor opening closing;
      }

  unfoldable pub build_monthly_reconciliation :
      MonthlyReconciliationInput → Result MonthlyError MonthlyReconciliationResult
  unfolding finish figures_of
  build_monthly_reconciliation input = do
    require (is_truthy input.workspace_id) workspace_missing
    require (is_truthy input.account_id) account_missing
    require (leb 2000 input.year) invalid_year
    require (leb 1 input.month && leb input.month 12) invalid_month
    require
        (elim input.statement_evidence.transaction_count [
          | none ↦ true
          | some n ↦ not (ltb_ℤ n (pos 0))
        ])
        invalid_count
    ok (finish input.statement_evidence (figures_of input))

  -- The balance of the raw row counts as the resulting balance where there is none.
  abbrev promote : MonthlyReconciliationTransactionInput → MonthlyReconciliationTransactionInput
  promote tx = record tx {
    resulting_balance_minor = elim tx.resulting_balance_minor [
      | none ↦ extract_running_balance_minor tx.raw_row
      | some n ↦ some n
    ];
  }

  -- `inspectMonthlyTransactionIntegrity`: the number of repeated fingerprints and of wrong balances.
  unfoldable pub inspect_monthly_transaction_integrity :
      String
      → String
      → ℕ
      → ℕ
      → ℤ
      → List MonthlyReconciliationTransactionInput
      → Result MonthlyError (ℕ × ℕ)
  unfolding build_monthly_reconciliation
  inspect_monthly_transaction_integrity workspace_id account_id year month opening txs = do
    r ← build_monthly_reconciliation (record {
      workspace_id = workspace_id;
      account_id = account_id;
      year = year;
      month = month;
      imported_transactions = map promote txs;
      statement_evidence = record {
        coverage_status = complete;
        opening_balance_minor = some opening;
        closing_balance_minor = none;
        transaction_count = none;
        source_file_hashes = [];
        period_start = none;
        period_end = none;
      };
      previous_month_closing_balance_minor = none;
      next_month_opening_balance_minor = none;
      validator_version = none;
    })
    ok (r.duplicate_fingerprint_count, r.running_balance_error_count)
