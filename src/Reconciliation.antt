-- ===== src/Reconciliation.antt =====
-- What the controls before a close share: the statuses, the reasons against a close, and the
-- evidence that server/services/periodCloseService.ts asks for.
pub mod Preview
pub mod Category
pub mod Combined
pub mod Monthly
use finance.Prelude.{ℕ, String, List, Bool, true, false}
use finance.Prelude.Int.{ℤ}
use finance.Statement.{StatementCoverageStatus}

pub data ReconciliationStatus : Type 0 where
  balanced unbalanced unfinished : ReconciliationStatus

abbrev pub is_balanced : ReconciliationStatus → Bool
is_balanced balanced = true
is_balanced _ = false

-- The messages in `closeReasons`, with the numbers that they print.
pub data CloseReason : Type 0 where
  coverage_incomplete missing_bookings : CloseReason
  duplicate_fingerprints running_balance_errors month_chain_broken : CloseReason
  unresolved_transactions : ℕ → CloseReason
  balance_differs income_differs expense_differs count_differs : ℤ → CloseReason
  missing_projects missing_types missing_categories : ℕ → CloseReason
  category_income_differs category_expense_differs booked_count_differs : ℤ → CloseReason

pub record BalancedReconciliationEvidence : Type 0 where
  pub status : ReconciliationStatus
  pub coverage_status : StatementCoverageStatus
  pub balance_difference_minor : ℤ
  pub category_income_difference_minor : ℤ
  pub category_expense_difference_minor : ℤ
  pub running_balance_error_count : ℤ
  pub transaction_count : ℤ
  pub booked_transaction_count : ℤ
  pub unresolved_transaction_count : ℤ
  pub validator_version : List String
