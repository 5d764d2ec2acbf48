-- ===== src/Reconciliation/Preview.antt =====
-- server/services/statementReconciliationControlService.ts: a statement against the transactions
-- that are booked.
pub mod Booked
pub mod Laws
pub mod Eligible
pub mod Evidence
use finance.Prelude.{
  ℕ, suc, Bool, true, false, not, ◌&&◌, ◌||◌, Option, none, some, List, [], ◌∷◌, ◌++◌, String, ltb,
  ◌==◌, if◌then◌else◌, or_else, is_truthy, length, is_nil, when, Result, ok, err, ◌>>=◌, ◌>>◌,
  require, map_err,
}
use finance.Prelude.Int.{ℤ, pos, ◌+ℤ◌, ◌-ℤ◌, abs, eqb_ℤ, ltb_ℤ}
use finance.Calendar.{Date, to_utc_date}
use finance.Statement.{
  StatementCoverageStatus, complete, is_complete, Direction, is_credit, StatementControlError,
  StatementTotalsInput, StatementTotals, assert_statement_totals,
}
use finance.Reconciliation.{
  ReconciliationStatus, balanced, unbalanced, unfinished, is_balanced, CloseReason,
  coverage_incomplete, missing_bookings, duplicate_fingerprints, running_balance_errors,
  month_chain_broken, unresolved_transactions, balance_differs, income_differs, expense_differs,
  count_differs, BalancedReconciliationEvidence,
}

pub data ReconciliationError : Type 0 where
  workspace_missing account_missing statement_period_missing : ReconciliationError
  negative_source_count negative_integrity_count : ReconciliationError
  statement : StatementControlError → ReconciliationError

pub record BookedTransactionSummary : Type 0 where
  pub transaction_id : String
  pub amount_minor : ℤ
  pub direction : Direction
  pub has_complete_booking : Bool
  pub is_unresolved : Bool

pub record StatementReconciliationInput : Type 0 where
  pub workspace_id : String
  pub account_id : String
  pub account_identifier : Option String
  pub statement_period_id : String
  pub period_start : Date
  pub period_end : Date
  pub coverage_status : StatementCoverageStatus
  pub statement_totals : StatementTotalsInput
  pub statement_transaction_count : ℤ
  pub booked_transactions : List BookedTransactionSummary
  pub duplicate_fingerprint_count : Option ℤ
  pub running_balance_error_count : Option ℤ
  pub previous_statement_closing_balance_minor : Option ℤ
  pub previous_statement_coverage_status : Option StatementCoverageStatus

pub record BookedTotals : Type 0 where
  pub income_minor : ℤ
  pub expense_minor : ℤ
  pub net_minor : ℤ
  pub transaction_count : ℕ
  pub booked_transaction_count : ℕ
  pub unresolved_transaction_count : ℕ

pub record Differences : Type 0 where
  pub balance_difference_minor : ℤ
  pub income_difference_minor : ℤ
  pub expense_difference_minor : ℤ
  pub transaction_count_difference : ℤ

pub record Integrity : Type 0 where
  pub duplicate_fingerprint_count : ℤ
  pub running_balance_error_count : ℤ
  pub month_chain_error_count : ℤ

pub record CloseEligibility : Type 0 where
  pub eligible : Bool
  pub reasons : List CloseReason

pub record StatementReconciliationPreview : Type 0 where
  pub period_start : Date
  pub period_end : Date
  pub account_id : String
  pub account_identifier : Option String
  pub coverage_status : StatementCoverageStatus
  pub source : StatementTotals
  pub source_transaction_count : ℤ
  pub booked : BookedTotals
  pub differences : Differences
  pub integrity : Integrity
  pub status : ReconciliationStatus
  pub close_eligibility : CloseEligibility
  pub validator_version : String

abbrev pub validator_version : String
validator_version = "close-001-v1"

-- The variables of the loop in `computeBookedTotals`.
pub record Tally : Type 0 where
  pub income : ℤ
  pub expense : ℤ
  pub booked : ℕ
  pub unresolved : ℕ

unfoldable pub tally_step : BookedTransactionSummary → Tally → Tally
tally_step tx t =
    let amount = abs tx.amount_minor in
    record {
      income = if is_credit tx.direction then t.income +ℤ amount else t.income;
      expense = if is_credit tx.direction then t.expense else t.expense +ℤ amount;
      booked = if tx.has_complete_booking then suc t.booked else t.booked;
      unresolved = if tx.is_unresolved then suc t.unresolved else t.unresolved;
    }

unfoldable pub tally_loop : List BookedTransactionSummary → Tally → Tally
tally_loop [] t = t
tally_loop (tx ∷ txs) t = tally_loop txs (tally_step tx t)

unfoldable pub compute_booked_totals : List BookedTransactionSummary → BookedTotals
unfolding tally_loop tally_step
compute_booked_totals txs =
    let t =
      tally_loop txs (record { income = pos 0; expense = pos 0; booked = 0; unresolved = 0 }) in
    record {
      income_minor = t.income;
      expense_minor = t.expense;
      net_minor = t.income -ℤ t.expense;
      transaction_count = length txs;
      booked_transaction_count = t.booked;
      unresolved_transaction_count = t.unresolved;
    }

-- Whether the previous statement is there and does not lead up to this one.
unfoldable pub month_chain_broken? :
    Option ℤ → Option StatementCoverageStatus → StatementTotals → Bool
month_chain_broken? none coverage source = false
month_chain_broken? (some closing) none source = not (eqb_ℤ closing source.opening_balance_minor)
month_chain_broken? (some closing) (some coverage) source =
    not (is_complete coverage) || not (eqb_ℤ closing source.opening_balance_minor)

unfoldable pub differences_of : BookedTotals → StatementTotals → ℤ → Differences
differences_of booked source source_count = record {
  balance_difference_minor = booked.net_minor -ℤ source.net_minor;
  income_difference_minor = booked.income_minor -ℤ source.income_minor;
  expense_difference_minor = booked.expense_minor -ℤ source.expense_minor;
  transaction_count_difference = pos booked.transaction_count -ℤ source_count;
}

abbrev pub has_missing_bookings : BookedTotals → Bool
has_missing_bookings b = ltb b.booked_transaction_count b.transaction_count

abbrev pub is_positive : ℤ → Bool
is_positive n = ltb_ℤ (pos 0) n

abbrev pub is_zero : ℤ → Bool
is_zero n = eqb_ℤ n (pos 0)

-- `closeReasons`, in the order of the pushes.
unfoldable pub close_reasons :
    StatementCoverageStatus → BookedTotals → Integrity → Differences → List CloseReason
close_reasons coverage b i d =
    when (not (is_complete coverage)) coverage_incomplete
    ++ (when (ltb 0 b.unresolved_transaction_count)
          (unresolved_transactions b.unresolved_transaction_count)
        ++ (when (has_missing_bookings b) missing_bookings
            ++ (when (is_positive i.duplicate_fingerprint_count) duplicate_fingerprints
                ++ (when (is_positive i.running_balance_error_count) running_balance_errors
                    ++ (when (is_positive i.month_chain_error_count) month_chain_broken
                        ++ (when (not (is_zero d.balance_difference_minor))
                              (balance_differs d.balance_difference_minor)
                            ++ (when (not (is_zero d.income_difference_minor))
                                  (income_differs d.income_difference_minor)
                                ++ (when (not (is_zero d.expense_difference_minor))
                                      (expense_differs d.expense_difference_minor)
                                    ++ when (not (is_zero d.transaction_count_difference))
                                        (count_differs d.transaction_count_difference)))))))))

unfoldable pub status_of : BookedTotals → Integrity → Differences → ReconciliationStatus
status_of b i d =
    let all_totals_match =
      is_zero d.balance_difference_minor
      && (is_zero d.income_difference_minor
          && (is_zero d.expense_difference_minor && is_zero d.transaction_count_difference)) in
    let all_integrity_controls_pass =
      is_zero i.duplicate_fingerprint_count
      && (is_zero i.running_balance_error_count && is_zero i.month_chain_error_count) in
    if ltb 0 b.unresolved_transaction_count || has_missing_bookings b
    then unfinished
    else if not all_totals_match || not all_integrity_controls_pass
    then unbalanced
    else balanced

abbrev pub integrity_of : StatementReconciliationInput → StatementTotals → Integrity
integrity_of input source = record {
  duplicate_fingerprint_count = or_else input.duplicate_fingerprint_count (pos 0);
  running_balance_error_count = or_else input.running_balance_error_count (pos 0);
  month_chain_error_count =
      if month_chain_broken? input.previous_statement_closing_balance_minor
        input.previous_statement_coverage_status source
      then pos 1
      else pos 0;
}

-- The preview, once the input has passed the checks.
unfoldable pub preview_of :
    StatementReconciliationInput → StatementTotals → StatementReconciliationPreview
unfolding close_reasons status_of
preview_of input source =
    let booked = compute_booked_totals input.booked_transactions in
    let integrity = integrity_of input source in
    let differences = differences_of booked source input.statement_transaction_count in
    let reasons = close_reasons input.coverage_status booked integrity differences in
    record {
      period_start = to_utc_date input.period_start;
      period_end = to_utc_date input.period_end;
      account_id = input.account_id;
      account_identifier = input.account_identifier;
      coverage_status = input.coverage_status;
      source = source;
      source_transaction_count = input.statement_transaction_count;
      booked = booked;
      differences = differences;
      integrity = integrity;
      status = status_of booked integrity differences;
      close_eligibility = record { eligible = is_nil reasons; reasons = reasons };
      validator_version = validator_version;
    }

unfoldable pub build_statement_reconciliation_preview :
    StatementReconciliationInput → Result ReconciliationError StatementReconciliationPreview
build_statement_reconciliation_preview input = do
  require (is_truthy input.workspace_id) workspace_missing
  require (is_truthy input.account_id) account_missing
  require (is_truthy input.statement_period_id) statement_period_missing
  source ← map_err statement (assert_statement_totals input.statement_totals)
  require (not (ltb_ℤ input.statement_transaction_count (pos 0))) negative_source_count
  require
      (not (ltb_ℤ (or_else input.duplicate_fingerprint_count (pos 0)) (pos 0))
        && not (ltb_ℤ (or_else input.running_balance_error_count (pos 0)) (pos 0)))
      negative_integrity_count
  ok (preview_of input source)

unfoldable pub to_balanced_reconciliation_evidence :
    StatementReconciliationPreview → Option BalancedReconciliationEvidence
to_balanced_reconciliation_evidence p =
    let accepted : Option BalancedReconciliationEvidence = some (record {
      status = balanced;
      coverage_status = p.coverage_status;
      balance_difference_minor = pos 0;
      category_income_difference_minor = pos 0;
      category_expense_difference_minor = pos 0;
      running_balance_error_count = pos 0;
      transaction_count = p.source_transaction_count;
      booked_transaction_count = pos p.booked.booked_transaction_count;
      unresolved_transaction_count = pos 0;
      validator_version = p.validator_version ∷ [];
    }) in
    if not (is_balanced p.status)
    then none
    else if not (is_complete p.coverage_status)
    then none
    else if not (is_zero p.differences.balance_difference_minor)
    then none
    else if not (is_zero p.differences.income_difference_minor)
    then none
    else if not (is_zero p.differences.expense_difference_minor)
    then none
    else if not (is_zero p.differences.transaction_count_difference)
    then none
    else if not (is_zero p.integrity.duplicate_fingerprint_count)
    then none
    else if not (is_zero p.integrity.running_balance_error_count)
    then none
    else if not (is_zero p.integrity.month_chain_error_count)
    then none
    else if not (p.booked.unresolved_transaction_count == 0)
    then none
    else if not (p.booked.booked_transaction_count == p.booked.transaction_count)
    then none
    else accepted
