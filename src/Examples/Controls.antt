-- ===== src/Examples/Controls.antt =====
-- The controls of a month with one income and one expense, both booked.
use finance.Prelude.{
  ◌≤◌, ◌≡◌, ◌↔◌, refl, [], ◌∷◌, true, false, ◌&&◌, String, some, none, ok, is_some,
}
use finance.Prelude.Int.{ℤ, pos, negsuc, ◌+ℤ◌, ◌-ℤ◌, abs}
use finance.Prelude.Sums.{sum, count}
use finance.Statement.{complete, credit, debit, assert_statement_totals}
use finance.Reconciliation.Preview.{
  StatementReconciliationInput, StatementReconciliationPreview,
  build_statement_reconciliation_preview, preview_of, compute_booked_totals,
  to_balanced_reconciliation_evidence, month_chain_broken?, differences_of,
}
use finance.Statement.{totals_of}
use finance.Reconciliation.Preview.Eligible.{IsReconciled, eligible_iff}
use finance.Reconciliation.Preview.Evidence.{evidence_iff_eligible}
use finance.Reconciliation.Category.{
  CategoryControlTotalsInput, CategoryControlTransactionInput, build_category_control_totals,
  category_reasons, category_status, upsert_line, new_line, bump_line, line_key, make_line_key,
  key_eq,
}
use finance.Reconciliation.Category.Lines.{
  line_income, line_expense, booked_income, booked_expense, has_key,
}
use finance.Reconciliation.Category.Laws.{lines_account, category_totals-lines}
use finance.Reconciliation.Combined.{
  build_close_control_preview, to_combined_reconciliation_evidence, accepted_evidence,
}
use finance.Reconciliation.Combined.Laws.{combined_evidence, combined_evidence-can_close}
use finance.Close.{assert_can_close}

abbrev by_nothing : String → String → ℤ
by_nothing a b = pos 0

abbrev control_input : StatementReconciliationInput
control_input = record {
  workspace_id = "w";
  account_id = "a";
  account_identifier = some "NL01";
  statement_period_id = "p";
  period_start = 0;
  period_end = 0;
  coverage_status = complete;
  statement_totals = record {
    opening_balance_minor = pos 100;
    income_minor = pos 50;
    expense_minor = pos 20;
    closing_balance_minor = pos 130;
  };
  statement_transaction_count = pos 2;
  booked_transactions =
      record {
        transaction_id = "t1";
        amount_minor = pos 50;
        direction = credit;
        has_complete_booking = true;
        is_unresolved = false;
      }
      ∷ record {
        transaction_id = "t2";
        amount_minor = negsuc 19;
        direction = debit;
        has_complete_booking = true;
        is_unresolved = false;
      }
      ∷ [];
  duplicate_fingerprint_count = none;
  running_balance_error_count = some (pos 0);
  previous_statement_closing_balance_minor = some (pos 100);
  previous_statement_coverage_status = some complete;
}

abbrev booked_transaction : String → ℤ → CategoryControlTransactionInput
booked_transaction id amount = record {
  transaction_id = id;
  amount_minor = amount;
  direction = credit;
  has_complete_booking = true;
  is_unresolved = false;
  project_id = some "pr";
  transaction_type_id = some "ty";
  category_id = some "ca";
  literal_project_label = some "Project";
  literal_type_label = some "Type";
  literal_category_label = some "Category";
}

abbrev category_controls_input : CategoryControlTotalsInput
category_controls_input = record {
  account_id = "a";
  account_identifier = none;
  period_start = 0;
  period_end = 0;
  statement_income_minor = pos 50;
  statement_expense_minor = pos 20;
  statement_transaction_count = pos 2;
  transactions =
      booked_transaction "t1" (pos 50)
      ∷ record (booked_transaction "t2" (negsuc 19)) { direction = debit }
      ∷ [];
}

abbrev preview : StatementReconciliationPreview
preview = preview_of control_input (totals_of control_input.statement_totals)

preview_returned : build_statement_reconciliation_preview control_input ≡ ok preview
unfolding build_statement_reconciliation_preview assert_statement_totals ◌+ℤ◌ ◌-ℤ◌
preview_returned = refl

preview_eligible : preview.close_eligibility.eligible ≡ true
unfolding preview_of compute_booked_totals differences_of month_chain_broken? abs ◌+ℤ◌ ◌-ℤ◌
preview_eligible = refl

eligible_iff_example : (preview.close_eligibility.eligible ≡ true) ↔ IsReconciled control_input
eligible_iff_example = eligible_iff control_input preview preview_returned

evidence_iff_eligible_example :
    is_some (to_balanced_reconciliation_evidence preview) ≡ preview.close_eligibility.eligible
evidence_iff_eligible_example = evidence_iff_eligible control_input preview preview_returned

lines_account_example :
    let r = build_category_control_totals by_nothing category_controls_input in
    (sum (line_income (λ _. true)) r.lines
      ≡ sum (booked_income (λ _. true)) category_controls_input.transactions)
    × (sum (line_expense (λ _. true)) r.lines
        ≡ sum (booked_expense (λ _. true)) category_controls_input.transactions)
    × (count (has_key (make_line_key (booked_transaction "t1" (pos 50)))) r.lines ≤ 1)
lines_account_example =
    lines_account by_nothing category_controls_input (λ _. true)
      (make_line_key (booked_transaction "t1" (pos 50)))

category_totals-lines_example :
    let r = build_category_control_totals by_nothing category_controls_input in
    (r.category_income_minor ≡ sum (λ l. l.income_minor) r.lines)
    × (r.category_expense_minor ≡ sum (λ l. l.expense_minor) r.lines)
category_totals-lines_example = category_totals-lines by_nothing category_controls_input

combined_evidence_example :
    let combined =
      build_close_control_preview preview
        (build_category_control_totals by_nothing category_controls_input) in
    (combined.combined_close_eligible
      ≡ preview.close_eligibility.eligible && combined.category_controls.category_controls_eligible)
    × (is_some (to_combined_reconciliation_evidence combined) ≡ combined.combined_close_eligible)
combined_evidence_example =
    combined_evidence by_nothing control_input category_controls_input preview preview_returned

evidence_given :
    to_combined_reconciliation_evidence (
      build_close_control_preview preview
        (build_category_control_totals by_nothing category_controls_input))
    ≡ some (
        accepted_evidence preview
          (build_category_control_totals by_nothing category_controls_input))
unfolding to_combined_reconciliation_evidence build_close_control_preview
    build_category_control_totals category_reasons category_status upsert_line new_line bump_line
    line_key make_line_key key_eq preview_of compute_booked_totals differences_of
    month_chain_broken? abs ◌+ℤ◌ ◌-ℤ◌
evidence_given = refl

combined_evidence-can_close_example :
    assert_can_close
      (accepted_evidence preview (build_category_control_totals by_nothing category_controls_input))
    ≡ ok tt
combined_evidence-can_close_example =
    combined_evidence-can_close by_nothing control_input category_controls_input preview
      preview_returned
      (accepted_evidence preview (build_category_control_totals by_nothing category_controls_input))
      evidence_given
