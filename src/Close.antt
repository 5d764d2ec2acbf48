-- ===== src/Close.antt =====
-- server/services/periodCloseService.ts, `assertCanClose`: what a period close asks of the evidence.
pub mod Tables
pub mod Create
pub mod Strict
pub mod Reopen
pub mod Created
pub mod Sound
pub mod Agreed
pub mod Revoked
pub mod Reachable
pub mod Reconciled
use finance.Prelude.{Result, ok, ◌>>◌, require}
use finance.Prelude.Int.{ℤ, eqb_ℤ}
use finance.Statement.{is_complete, StatementControlError}
use finance.Reconciliation.{BalancedReconciliationEvidence, is_balanced}
use finance.Reconciliation.Preview.{is_zero}

pub data PeriodCloseError : Type 0 where
  not_balanced period_is_partial : PeriodCloseError
  balance_differs income_differs expense_differs : PeriodCloseError
  transactions_unresolved running_balance_errors booked_count_differs : PeriodCloseError
  reopen_reason_missing : PeriodCloseError
  version_taken close_not_found : PeriodCloseError
  no_period_closes report_count_invalid report_order_invalid : PeriodCloseError
  project_missing type_missing category_missing class_missing : PeriodCloseError
  snapshot_refused link_refused snapshot_not_found approval_refused : PeriodCloseError
  no_recipients no_active_approval dispatch_refused : PeriodCloseError
  statement : StatementControlError → PeriodCloseError

unfoldable pub require_zero : ℤ → PeriodCloseError → Result PeriodCloseError (Unit {0})
require_zero n e = require (is_zero n) e

unfoldable pub assert_can_close :
    BalancedReconciliationEvidence → Result PeriodCloseError (Unit {0})
unfolding require_zero
assert_can_close evidence = do
  require (is_balanced evidence.status) not_balanced
  require (is_complete evidence.coverage_status) period_is_partial
  require_zero evidence.balance_difference_minor balance_differs
  require_zero evidence.category_income_difference_minor income_differs
  require_zero evidence.category_expense_difference_minor expense_differs
  require (is_zero evidence.unresolved_transaction_count) transactions_unresolved
  require (is_zero evidence.running_balance_error_count) running_balance_errors
  require (eqb_ℤ evidence.booked_transaction_count evidence.transaction_count) booked_count_differs
  ok tt
