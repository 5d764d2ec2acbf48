-- ===== src/Reconciliation/Preview/Eligible.antt =====
-- `closeEligibility` against a description of a reconciled statement that mentions no counter.
use finance.Prelude.{
  ◌≡◌, ◌≢◌, refl, arith, true, false, Option, none, some, or_else, length, All, ok, err, ◌↔◌,
  Result,
}
use finance.Prelude.Int.{ℤ, pos, ◌≤ℤ◌, eqb_ℤ_iff, eq_of_sub_zero, sub_self, zero_of_bounds}
use finance.Prelude.Sums.{sum, All-count, All-of_count, All-of_count_zero, count_zero_of_All}
use finance.Statement.{
  StatementCoverageStatus, complete, partial, StatementTotals, totals_of, assert_statement_totals,
  AddsUp-of_assert_statement_totals, AddsUp,
}
use finance.Reconciliation.Preview.{
  StatementReconciliationInput, StatementReconciliationPreview, preview_of, month_chain_broken?,
  build_statement_reconciliation_preview, integrity_of, differences_of, compute_booked_totals,
}
use finance.Reconciliation.Preview.Booked.{
  credit_amount, debit_amount, is_booked, is_open, compute_booked_totals_lem,
}
use finance.Reconciliation.Preview.Laws.{IsClear, close_reasons_nil}

-- The previous statement, where there is one, is complete and closes at the opening balance.
abbrev pub Follows : Option ℤ → Option StatementCoverageStatus → ℤ → Type 0
Follows none coverage opening = Unit
Follows (some closing) coverage opening = (closing ≡ opening) × (coverage ≢ some partial)

pub record IsReconciled (input : StatementReconciliationInput) : Type 0 where
  pub covered : input.coverage_status ≡ complete
  pub all_booked : All (λ tx. is_booked tx ≡ true) input.booked_transactions
  pub none_open : All (λ tx. is_open tx ≡ false) input.booked_transactions
  pub income : sum credit_amount input.booked_transactions ≡ input.statement_totals.income_minor
  pub expense : sum debit_amount input.booked_transactions ≡ input.statement_totals.expense_minor
  pub counted : pos (length input.booked_transactions) ≡ input.statement_transaction_count
  pub unique : or_else input.duplicate_fingerprint_count (pos 0) ≡ pos 0
  pub continuous : or_else input.running_balance_error_count (pos 0) ≡ pos 0
  pub follows :
      Follows input.previous_statement_closing_balance_minor
        input.previous_statement_coverage_status input.statement_totals.opening_balance_minor

-- What a preview that was returned shows of its input.
pub record WasChecked (input : StatementReconciliationInput) (p : StatementReconciliationPreview)
    : Type 0 where
  pub result : p ≡ preview_of input (totals_of input.statement_totals)
  pub adds_up : AddsUp input.statement_totals
  pub source_count : pos 0 ≤ℤ input.statement_transaction_count
  pub duplicates : pos 0 ≤ℤ or_else input.duplicate_fingerprint_count (pos 0)
  pub balance_errors : pos 0 ≤ℤ or_else input.running_balance_error_count (pos 0)

totals_cases :
    (input : StatementReconciliationInput) (p : StatementReconciliationPreview)
    → build_statement_reconciliation_preview input ≡ ok p
    → (s : StatementTotals) × (assert_statement_totals input.statement_totals ≡ ok s)
      × (p ≡ preview_of input s)
      × (pos 0 ≤ℤ input.statement_transaction_count)
      × (pos 0 ≤ℤ or_else input.duplicate_fingerprint_count (pos 0))
      × (pos 0 ≤ℤ or_else input.running_balance_error_count (pos 0))
unfolding build_statement_reconciliation_preview
totals_cases input p h = go (assert_statement_totals input.statement_totals) refl
  where
    go :
        (r : Result _ StatementTotals)
        → assert_statement_totals input.statement_totals ≡ r
        → (s : StatementTotals) × (assert_statement_totals input.statement_totals ≡ ok s)
          × (p ≡ preview_of input s)
          × (pos 0 ≤ℤ input.statement_transaction_count)
          × (pos 0 ≤ℤ or_else input.duplicate_fingerprint_count (pos 0))
          × (pos 0 ≤ℤ or_else input.running_balance_error_count (pos 0))
    go (ok s) e = (s, e, ground arith, ground arith, ground arith, ground arith)
    go (err x) e = absurd (ground arith)

pub build-WasChecked :
    (input : StatementReconciliationInput) (p : StatementReconciliationPreview)
    → build_statement_reconciliation_preview input ≡ ok p
    → WasChecked input p
build-WasChecked input p h =
    let (s, e, r, c, d, b) = totals_cases input p h in
    let (a, t) = AddsUp-of_assert_statement_totals input.statement_totals e in
    record {
      result = rw (← t) r;
      adds_up = a;
      source_count = c;
      duplicates = d;
      balance_errors = b;
    }

chain_lem :
    (closing : Option ℤ) (coverage : Option StatementCoverageStatus) (s : StatementTotals)
    → (month_chain_broken? closing coverage s ≡ false)
      ↔ Follows closing coverage s.opening_balance_minor
unfolding month_chain_broken?
chain_lem none coverage s = (λ _. tt, λ _. refl)
chain_lem (some c) none s = (
  λ h. ((eqb_ℤ_iff c s.opening_balance_minor).0 (ground arith), cc),
  λ h. ground (arith, eqb_ℤ_iff c s.opening_balance_minor),
)
chain_lem (some c) (some complete) s = (
  λ h. ((eqb_ℤ_iff c s.opening_balance_minor).0 (ground arith), cc),
  λ h. ground (arith, eqb_ℤ_iff c s.opening_balance_minor),
)
chain_lem (some c) (some partial) s = (λ h. absurd (ground arith), λ h. absurd (h.1 refl))

module _ (input : StatementReconciliationInput) (a : AddsUp input.statement_totals)
    (dup : pos 0 ≤ℤ or_else input.duplicate_fingerprint_count (pos 0))
    (bal : pos 0 ≤ℤ or_else input.running_balance_error_count (pos 0)) where
  abbrev s : StatementTotals
  s = totals_of input.statement_totals

  abbrev Clear : Type 0
  Clear =
      let b = compute_booked_totals input.booked_transactions in
      IsClear input.coverage_status b (integrity_of input s)
        (differences_of b s input.statement_transaction_count)

  IsReconciled-of_IsClear : Clear → IsReconciled input
  unfolding differences_of
  IsReconciled-of_IsClear c =
      let e = compute_booked_totals_lem input.booked_transactions in
      let missing = rw e at c.none_missing in
      let open_zero = rw e at c.none_unresolved in
      let income = rw e at c.same_income in
      let expense = rw e at c.same_expense in
      let counted = rw e at c.same_count in
      record {
        covered = c.coverage_is_complete;
        all_booked = All-of_count is_booked input.booked_transactions missing;
        none_open = All-of_count_zero is_open input.booked_transactions open_zero;
        income = eq_of_sub_zero _ _ income;
        expense = eq_of_sub_zero _ _ expense;
        counted = eq_of_sub_zero _ _ counted;
        unique = zero_of_bounds _ dup c.no_duplicates;
        continuous = zero_of_bounds _ bal c.no_balance_errors;
        follows = (chain_lem _ _ s).0 (ground arith);
      }

  IsClear-of_IsReconciled : IsReconciled input → Clear
  unfolding differences_of
  IsClear-of_IsReconciled r =
      let same = (chain_lem _ _ s).1 r.follows in
      rw (compute_booked_totals_lem input.booked_transactions) (record {
        coverage_is_complete = r.covered;
        none_unresolved = count_zero_of_All is_open input.booked_transactions r.none_open;
        none_missing = omega (arith, All-count is_booked input.booked_transactions r.all_booked);
        no_duplicates = rw r.unique;
        no_balance_errors = rw r.continuous;
        no_chain_errors = rw same;
        same_balance = rw (r.income, r.expense) (sub_self _);
        same_income = rw r.income (sub_self _);
        same_expense = rw r.expense (sub_self _);
        same_count = rw r.counted (sub_self _);
      })

-- A preview that is returned lets the period close exactly when the statement is reconciled: it
-- covers its period, every transaction is booked and none is unresolved, the amounts booked in
-- each direction and their number are those of the statement, no fingerprint is repeated, no
-- running balance is wrong, and the previous statement, if there is one, is complete and closes at
-- the opening balance.
pub eligible_iff :
    (input : StatementReconciliationInput) (p : StatementReconciliationPreview)
    → build_statement_reconciliation_preview input ≡ ok p
    → (p.close_eligibility.eligible ≡ true) ↔ IsReconciled input
unfolding preview_of
eligible_iff input p h =
    let v = build-WasChecked input p h in
    let (to, from) = close_reasons_nil _ _ _ _ in
    (
      λ e.
          IsReconciled-of_IsClear input v.adds_up v.duplicates v.balance_errors
            (to (rw v.result at e)),
      λ r.
          rw v.result
            (from (IsClear-of_IsReconciled input v.adds_up v.duplicates v.balance_errors r)),
    )
