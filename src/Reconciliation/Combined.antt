-- ===== src/Reconciliation/Combined.antt =====
-- server/services/categoryControlTotalsService.ts, `buildCloseControlPreview` and
-- `toCombinedReconciliationEvidence`: both controls together.
pub mod Laws
use finance.Prelude.{
  ℕ, Bool, true, false, not, ◌&&◌, ◌||◌, Option, none, some, List, [], ◌∷◌, ◌++◌, ◌==◌,
  if◌then◌else◌, is_nil, any,
}
use finance.Prelude.Int.{ℤ, pos, eqb_ℤ}
use finance.Statement.{is_complete}
use finance.Reconciliation.{
  ReconciliationStatus, balanced, unbalanced, unfinished, is_balanced, CloseReason,
  BalancedReconciliationEvidence,
}
use finance.Reconciliation
use finance.Reconciliation.Preview.{StatementReconciliationPreview, is_zero}
use finance.Reconciliation.Category.{CategoryControlTotalsResult}

pub record CombinedCloseControlPreview : Type 0 where
  pub statement_reconciliation : StatementReconciliationPreview
  pub category_controls : CategoryControlTotalsResult
  pub combined_status : ReconciliationStatus
  pub combined_close_eligible : Bool
  pub combined_reasons : List CloseReason

-- Whether two messages are the same text.
unfoldable pub reason_eq : CloseReason → CloseReason → Bool
reason_eq CloseReason.coverage_incomplete CloseReason.coverage_incomplete = true
reason_eq CloseReason.missing_bookings CloseReason.missing_bookings = true
reason_eq CloseReason.duplicate_fingerprints CloseReason.duplicate_fingerprints = true
reason_eq CloseReason.running_balance_errors CloseReason.running_balance_errors = true
reason_eq CloseReason.month_chain_broken CloseReason.month_chain_broken = true
reason_eq (CloseReason.unresolved_transactions n) (CloseReason.unresolved_transactions m) = n == m
reason_eq (CloseReason.balance_differs d) (CloseReason.balance_differs e) = eqb_ℤ d e
reason_eq (CloseReason.income_differs d) (CloseReason.income_differs e) = eqb_ℤ d e
reason_eq (CloseReason.expense_differs d) (CloseReason.expense_differs e) = eqb_ℤ d e
reason_eq (CloseReason.count_differs d) (CloseReason.count_differs e) = eqb_ℤ d e
reason_eq (CloseReason.missing_projects n) (CloseReason.missing_projects m) = n == m
reason_eq (CloseReason.missing_types n) (CloseReason.missing_types m) = n == m
reason_eq (CloseReason.missing_categories n) (CloseReason.missing_categories m) = n == m
reason_eq (CloseReason.category_income_differs d) (CloseReason.category_income_differs e) =
    eqb_ℤ d e
reason_eq (CloseReason.category_expense_differs d) (CloseReason.category_expense_differs e) =
    eqb_ℤ d e
reason_eq (CloseReason.booked_count_differs d) (CloseReason.booked_count_differs e) = eqb_ℤ d e
reason_eq _ _ = false

-- The loop that adds the reasons that are not there yet.
unfoldable pub push_new : List CloseReason → List CloseReason → List CloseReason
push_new acc [] = acc
push_new acc (r ∷ rs) = push_new (if any (reason_eq r) acc then acc else acc ++ r ∷ []) rs

unfoldable pub combined_reasons_of :
    StatementReconciliationPreview → CategoryControlTotalsResult → List CloseReason
unfolding push_new reason_eq
combined_reasons_of s c =
    let first = if s.close_eligibility.eligible then [] else s.close_eligibility.reasons in
    if c.category_controls_eligible then first else push_new first c.reasons

abbrev pub is_unfinished : ReconciliationStatus → Bool
is_unfinished unfinished = true
is_unfinished _ = false

abbrev pub is_unbalanced : ReconciliationStatus → Bool
is_unbalanced unbalanced = true
is_unbalanced _ = false

unfoldable pub build_close_control_preview :
    StatementReconciliationPreview → CategoryControlTotalsResult → CombinedCloseControlPreview
unfolding combined_reasons_of
build_close_control_preview s c = record {
  statement_reconciliation = s;
  category_controls = c;
  combined_status =
      if is_unfinished s.status || is_unfinished c.status
      then unfinished
      else if is_unbalanced s.status || is_unbalanced c.status
      then unbalanced
      else balanced;
  combined_close_eligible = is_nil (combined_reasons_of s c);
  combined_reasons = combined_reasons_of s c;
}

-- The evidence that is returned where nothing objects.
abbrev pub accepted_evidence :
    StatementReconciliationPreview → CategoryControlTotalsResult → BalancedReconciliationEvidence
accepted_evidence p c = record {
  status = balanced;
  coverage_status = p.coverage_status;
  balance_difference_minor = pos 0;
  category_income_difference_minor = pos 0;
  category_expense_difference_minor = pos 0;
  running_balance_error_count = pos 0;
  transaction_count = p.source_transaction_count;
  booked_transaction_count = pos p.booked.booked_transaction_count;
  unresolved_transaction_count = pos 0;
  validator_version = p.validator_version ∷ c.validator_version ∷ [];
}

-- None of the tests that return `null` is met, in the order of the code.
unfoldable pub controls_hold : CombinedCloseControlPreview → Bool
controls_hold combined =
    let p = combined.statement_reconciliation in
    let c = combined.category_controls in
    is_balanced combined.combined_status
    && (combined.combined_close_eligible
        && (is_complete p.coverage_status
            && (is_zero p.differences.balance_difference_minor
                && (is_zero p.differences.income_difference_minor
                    && (is_zero p.differences.expense_difference_minor
                        && (is_zero p.differences.transaction_count_difference
                            && (is_zero p.integrity.duplicate_fingerprint_count
                                && (is_zero p.integrity.running_balance_error_count
                                    && (is_zero p.integrity.month_chain_error_count
                                        && (p.booked.unresolved_transaction_count == 0
                                            && (p.booked.booked_transaction_count
                                                  == p.booked.transaction_count
                                                && (is_zero
                                                      c.differences.category_income_difference_minor
                                                    && (is_zero
                                                          c.differences.category_expense_difference_minor
                                                        && (is_zero
                                                            c.differences.transaction_count_difference
                                                            && (c.missing_dimensions.unresolved_transaction_count
                                                            == 0
                                                            && c.missing_dimensions.missing_booking_count
                                                            == 0)))))))))))))))

unfoldable pub to_combined_reconciliation_evidence :
    CombinedCloseControlPreview → Option BalancedReconciliationEvidence
unfolding controls_hold
to_combined_reconciliation_evidence combined =
    if controls_hold combined
    then some (accepted_evidence combined.statement_reconciliation combined.category_controls)
    else none
