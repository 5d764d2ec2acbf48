-- ===== src/Reconciliation/Preview/Evidence.antt =====
-- `toBalancedReconciliationEvidence` gives evidence exactly for a period that may close.
use finance.Prelude.{
  ◌≡◌, ◌≤◌, refl, arith, true, ok, inl, inr, is_some, Bool-cases, is_nil, ◌∙◌, sym,
}
use mathlib.Core.Bool.{false≢true}
use finance.Prelude.Int.{pos, ◌-ℤ◌, ◌≤ℤ◌}
use finance.Prelude.Sums.{count-le-length}
use finance.Reconciliation.Preview.{
  StatementReconciliationInput, StatementReconciliationPreview, preview_of,
  build_statement_reconciliation_preview, to_balanced_reconciliation_evidence, status_of,
  differences_of, close_reasons,
}
use finance.Reconciliation.Preview.Booked.{is_booked, compute_booked_totals_lem}
use finance.Reconciliation.Preview.Laws.{IsClear, close_reasons_nil}
use finance.Reconciliation.Preview.Eligible.{build-WasChecked}

-- What every preview that is returned satisfies.
pub record IsConsistent (p : StatementReconciliationPreview) : Type 0 where
  pub eligible_is :
      p.close_eligibility.eligible
      ≡ is_nil (close_reasons p.coverage_status p.booked p.integrity p.differences)
  pub eligible_reasons : p.close_eligibility.eligible ≡ is_nil p.close_eligibility.reasons
  pub status_is : p.status ≡ status_of p.booked p.integrity p.differences
  pub count_difference :
      p.differences.transaction_count_difference
      ≡ pos p.booked.transaction_count -ℤ p.source_transaction_count
  pub booked_le : p.booked.booked_transaction_count ≤ p.booked.transaction_count
  pub duplicates : pos 0 ≤ℤ p.integrity.duplicate_fingerprint_count
  pub balance_errors : pos 0 ≤ℤ p.integrity.running_balance_error_count
  pub chain_errors : pos 0 ≤ℤ p.integrity.month_chain_error_count

pub build-IsConsistent :
    (input : StatementReconciliationInput) (p : StatementReconciliationPreview)
    → build_statement_reconciliation_preview input ≡ ok p
    → IsConsistent p
unfolding preview_of differences_of
build-IsConsistent input p h =
    let v = build-WasChecked input p h in
    rw v.result (record {
      eligible_is = refl;
      eligible_reasons = refl;
      status_is = refl;
      count_difference = refl;
      booked_le =
          rw (compute_booked_totals_lem input.booked_transactions)
            (count-le-length is_booked input.booked_transactions);
      duplicates = v.duplicates;
      balance_errors = v.balance_errors;
      chain_errors = ground arith;
    })

pub evidence-of_IsClear :
    (p : StatementReconciliationPreview)
    → IsConsistent p
    → IsClear p.coverage_status p.booked p.integrity p.differences
    → is_some (to_balanced_reconciliation_evidence p) ≡ true
unfolding to_balanced_reconciliation_evidence status_of
evidence-of_IsClear p v c = ground arith

pub IsClear-of_evidence :
    (p : StatementReconciliationPreview)
    → is_some (to_balanced_reconciliation_evidence p) ≡ true
    → IsClear p.coverage_status p.booked p.integrity p.differences
unfolding to_balanced_reconciliation_evidence
IsClear-of_evidence p h = ground arith

-- For a preview that is returned, evidence for the close is given exactly when the preview says that
-- the period may close.
pub evidence_iff_eligible :
    (input : StatementReconciliationInput) (p : StatementReconciliationPreview)
    → build_statement_reconciliation_preview input ≡ ok p
    → is_some (to_balanced_reconciliation_evidence p) ≡ p.close_eligibility.eligible
evidence_iff_eligible input p h =
    let v = build-IsConsistent input p h in
    let (to, from) = close_reasons_nil p.coverage_status p.booked p.integrity p.differences in
    elim (Bool-cases p.close_eligibility.eligible) [
      | inl e ↦ evidence-of_IsClear p v (to (sym v.eligible_is ∙ e)) ∙ sym e
      | inr e ↦ elim (Bool-cases (is_some (to_balanced_reconciliation_evidence p))) [
        | inl s ↦ absurd (false≢true (sym e ∙ v.eligible_is ∙ from (IsClear-of_evidence p s)))
        | inr s ↦ s ∙ sym e
      ]
    ]
