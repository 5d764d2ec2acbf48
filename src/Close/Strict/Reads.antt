-- ===== src/Close/Strict/Reads.antt =====
-- server/services/strictPeriodCloseService.ts: what `executeStrictPeriodClose` reads from the tables,
-- and the previews that it builds from it.
use finance.Prelude.{
  List, ℕ, Bool, false, not, ◌&&◌, Option, none, some, map, String, str_eq, ltb, leb, if◌then◌else◌,
  is_nil, is_truthy, Result, ok, ◌>>=◌, map_err,
}
use finance.Prelude.Int.{pos}
use finance.Calendar.{Date}
use finance.Statement.MonthSlice.{StatementPeriodMonthSlice, build_statement_period_month_slice}
use finance.Reconciliation.Preview.{
  StatementReconciliationInput, BookedTransactionSummary, build_statement_reconciliation_preview,
}
use finance.Reconciliation.Category.{
  CategoryControlTotalsInput, CategoryControlTransactionInput, build_category_control_totals,
}
use finance.Reconciliation.Combined.{CombinedCloseControlPreview, build_close_control_preview}
use finance.Reconciliation.Monthly.{MonthlyReconciliationTransactionInput}
use finance.Reconciliation.Monthly.Build.{MonthlyError, inspect_monthly_transaction_integrity}
use finance.Close.Tables.{StatementPeriod, Ledger, Transaction, TransactionBooking, Tables}
use finance.Close.Create.{Env}
use finance.Close.Strict.{StrictPeriodCloseError, monthly, preview}

-- `where: { userId, accountId, date: { gte, lte } }`
abbrev pub within : String → String → Date → Date → Transaction → Bool
within user account start end tx =
    str_eq tx.user_id user
    && (elim tx.account_id [ none ↦ false | some a ↦ str_eq a account ]
        && (leb start tx.date && leb tx.date end))

-- The filter on the period before; a row that is the period itself is dropped.
abbrev pub is_previous : StatementPeriod → StatementPeriod → Bool
is_previous sp x =
    str_eq x.workspace_id sp.statement_workspace_id
    && (str_eq x.account_id sp.account_id && ltb x.period_end sp.period_start)

unfoldable pub previous_period : Env → Tables → StatementPeriod → Option StatementPeriod
previous_period env db sp =
    elim (env.client.find_latest (λ x. x.period_end) (is_previous sp) db.statement_periods) [
      | none ↦ none
      | some x ↦ if str_eq x.id sp.id then none else some x
    ]

unfoldable pub source_slice :
    Env → Tables → String → StatementPeriod → Ledger → StatementPeriodMonthSlice
source_slice env db user sp ledger =
    build_statement_period_month_slice
      (record {
        period_start = sp.period_start;
        period_end = sp.period_end;
        coverage_status = sp.coverage_status;
        opening_balance_minor = sp.opening_balance_minor;
        income_minor = sp.income_minor;
        expense_minor = sp.expense_minor;
        closing_balance_minor = sp.closing_balance_minor;
        transaction_count = sp.transaction_count;
      })
      ledger.year ledger.month
      (map
        (λ (tx : Transaction). record {
          date = tx.date;
          amount_minor = tx.amount_minor;
          direction = tx.direction;
        })
        (env.client.find_many (within user sp.account_id sp.period_start sp.period_end)
          db.transactions))

abbrev pub booking_is_complete : TransactionBooking → Bool
booking_is_complete b =
    is_truthy b.project_id && (is_truthy b.transaction_type_id && is_truthy b.category_id)

abbrev pub has_complete_booking : Transaction → Bool
has_complete_booking tx = elim tx.transaction_booking [
  | none ↦ false
  | some b ↦ booking_is_complete b
]

abbrev pub is_unresolved : Transaction → Bool
is_unresolved tx = not (has_complete_booking tx) && not (is_nil tx.pending_suggestions)

unfoldable pub booked_summary : Transaction → BookedTransactionSummary
booked_summary tx = record {
  transaction_id = tx.id;
  amount_minor = tx.amount_minor;
  direction = tx.direction;
  has_complete_booking = has_complete_booking tx;
  is_unresolved = is_unresolved tx;
}

abbrev booked_part : Transaction → (TransactionBooking → String) → Option String
booked_part tx f = elim tx.transaction_booking [ none ↦ none | some b ↦ some (f b) ]

unfoldable pub category_transaction : Transaction → CategoryControlTransactionInput
category_transaction tx = record {
  transaction_id = tx.id;
  amount_minor = tx.amount_minor;
  direction = tx.direction;
  has_complete_booking = has_complete_booking tx;
  is_unresolved = is_unresolved tx;
  project_id = booked_part tx (λ b. b.project_id);
  transaction_type_id = booked_part tx (λ b. b.transaction_type_id);
  category_id = booked_part tx (λ b. b.category_id);
  literal_project_label = booked_part tx (λ b. b.literal_project_label);
  literal_type_label = booked_part tx (λ b. b.literal_type_label);
  literal_category_label = booked_part tx (λ b. b.literal_category_label);
}

unfoldable pub integrity_transaction : Transaction → MonthlyReconciliationTransactionInput
integrity_transaction tx = record {
  transaction_id = tx.id;
  date = tx.date;
  amount_minor = tx.amount_minor;
  direction = tx.direction;
  resulting_balance_minor = none;
  raw_row = tx.raw_row;
  import_fingerprint = tx.import_fingerprint;
  duplicate_fingerprint = none;
  project_id = none;
  transaction_type_id = none;
  category_id = none;
  literal_project_label = none;
  literal_type_label = none;
  literal_category_label = none;
  unresolved = false;
  source_file_hash = none;
}

-- The transactions of the month.
abbrev pub month_transactions :
    Env → Tables → String → StatementPeriod → StatementPeriodMonthSlice → List Transaction
month_transactions env db user sp slice =
    env.client.find_many (within user sp.account_id slice.period_start slice.period_end)
      db.transactions

-- The input of the statement preview; the counts are those of the integrity controls.
unfoldable pub reconciliation_input :
    StatementPeriod
    → StatementPeriodMonthSlice
    → Option StatementPeriod
    → List Transaction
    → ℕ × ℕ
    → StatementReconciliationInput
reconciliation_input sp slice previous transactions counts = record {
  workspace_id = sp.statement_workspace_id;
  account_id = sp.account_id;
  account_identifier = some sp.bank_account_identifier;
  statement_period_id = sp.id;
  period_start = slice.period_start;
  period_end = slice.period_end;
  coverage_status = slice.coverage_status;
  statement_totals = record {
    opening_balance_minor = slice.opening_balance_minor;
    income_minor = slice.income_minor;
    expense_minor = slice.expense_minor;
    closing_balance_minor = slice.closing_balance_minor;
  };
  statement_transaction_count = slice.transaction_count;
  booked_transactions = map booked_summary transactions;
  duplicate_fingerprint_count = some (pos counts.0);
  running_balance_error_count = some (pos counts.1);
  previous_statement_closing_balance_minor = elim previous [
    | none ↦ none
    | some x ↦ some x.closing_balance_minor
  ];
  previous_statement_coverage_status = elim previous [
    | none ↦ none
    | some x ↦ some x.coverage_status
  ];
}

unfoldable pub category_input :
    StatementPeriod → StatementPeriodMonthSlice → List Transaction → CategoryControlTotalsInput
category_input sp slice transactions = record {
  account_id = sp.account_id;
  account_identifier = some sp.bank_account_identifier;
  period_start = slice.period_start;
  period_end = slice.period_end;
  statement_income_minor = slice.income_minor;
  statement_expense_minor = slice.expense_minor;
  statement_transaction_count = slice.transaction_count;
  transactions = map category_transaction transactions;
}

-- The integrity controls over the transactions of the month.
unfoldable pub integrity_counts :
    Env
    → StatementPeriod
    → Ledger
    → StatementPeriodMonthSlice
    → List Transaction
    → Result MonthlyError (ℕ × ℕ)
integrity_counts env sp ledger slice transactions =
    inspect_monthly_transaction_integrity env.locale_compare sp.statement_workspace_id sp.account_id
      ledger.year ledger.month slice.opening_balance_minor (map integrity_transaction transactions)

-- The previews of the month, from the tables.
unfoldable pub close_preview :
    Env
    → Tables
    → String
    → StatementPeriod
    → Ledger
    → StatementPeriodMonthSlice
    → Result StrictPeriodCloseError CombinedCloseControlPreview
unfolding integrity_counts reconciliation_input category_input
close_preview env db user sp ledger slice = do
  let transactions = month_transactions env db user sp slice
  counts ← map_err monthly (integrity_counts env sp ledger slice transactions)
  p ← map_err preview (
      build_statement_reconciliation_preview
        (reconciliation_input sp slice (previous_period env db sp) transactions counts))
  ok (
      build_close_control_preview p
        (build_category_control_totals env.locale_compare (category_input sp slice transactions)))
