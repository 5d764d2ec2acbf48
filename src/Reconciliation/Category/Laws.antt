-- ===== src/Reconciliation/Category/Laws.antt =====
-- The totals by category: lines against transactions, and when the controls object.
use finance.Prelude.{◌≤◌, ◌≡◌, refl, arith, Bool, true, String, List, [], ◌∷◌, is_nil, ◌↔◌}
use finance.Prelude.Int.{ℤ, pos, ◌+ℤ◌, int_laws}
use finance.Prelude.Sums.{sum, count, sum-sort_by, count-sort_by}
use finance.Reconciliation.Category.{
  CategoryControlTransactionInput, CategoryControlTotalsInput, CategoryControlTotalsResult, LineKey,
  CategoryTally, empty_tally, category_loop, category_step, build_category_control_totals,
  category_reasons, category_status, CategoryControlDifferences,
}
use finance.Reconciliation.Category.Lines.{
  line_income, line_expense, booked_income, booked_expense, loop-income, loop-expense, has_key,
  loop-count,
}

module _ (locale_compare : String → String → ℤ) (input : CategoryControlTotalsInput) where
  abbrev result : CategoryControlTotalsResult
  result = build_category_control_totals locale_compare input

  -- Whatever test is put to the key, the lines under the keys that pass it hold as much income and
  -- as much expense as the booked transactions with such a key; and no key has two lines.
  pub lines_account :
      (q : LineKey → Bool) (k : LineKey)
      → (sum (line_income q) result.lines ≡ sum (booked_income q) input.transactions)
        × (sum (line_expense q) result.lines ≡ sum (booked_expense q) input.transactions)
        × (count (has_key k) result.lines ≤ 1)
  unfolding build_category_control_totals
  lines_account q k = (
    rw (sum-sort_by, loop-income q input.transactions empty_tally) (omega int_laws),
    rw (sum-sort_by, loop-expense q input.transactions empty_tally) (omega int_laws),
    rw count-sort_by (loop-count k input.transactions empty_tally (omega arith)),
  )

loop-totals :
    (txs : List CategoryControlTransactionInput) (t : CategoryTally)
    → ((category_loop txs t).income ≡ t.income +ℤ sum (booked_income (λ _. true)) txs)
      × ((category_loop txs t).expense ≡ t.expense +ℤ sum (booked_expense (λ _. true)) txs)
unfolding category_loop category_step
loop-totals [] t = (omega int_laws, omega int_laws)
loop-totals (tx ∷ txs) t =
    let (i, x) = loop-totals txs (category_step tx t) in
    (rw i (grind int_laws), rw x (grind int_laws))

-- The category totals are the totals of the lines.
pub category_totals-lines :
    (locale_compare : String → String → ℤ) (input : CategoryControlTotalsInput)
    → let r = build_category_control_totals locale_compare input in
      (r.category_income_minor ≡ sum (λ l. l.income_minor) r.lines)
      × (r.category_expense_minor ≡ sum (λ l. l.expense_minor) r.lines)
unfolding build_category_control_totals
category_totals-lines locale_compare input =
    let (i, x) = loop-totals input.transactions empty_tally in
    let li = loop-income (λ _. true) input.transactions empty_tally in
    let lx = loop-expense (λ _. true) input.transactions empty_tally in
    (rw (sum-sort_by, li, i) refl, rw (sum-sort_by, lx, x) refl)

-- No control objects.
pub record IsClear (t : CategoryTally) (d : CategoryControlDifferences) : Type 0 where
  pub none_unresolved : t.unresolved ≡ 0
  pub none_missing : t.missing_booking ≡ 0
  pub no_project_missing : t.missing_project ≡ 0
  pub no_type_missing : t.missing_transaction_type ≡ 0
  pub no_category_missing : t.missing_category ≡ 0
  pub same_income : d.category_income_difference_minor ≡ pos 0
  pub same_expense : d.category_expense_difference_minor ≡ pos 0
  pub same_count : d.transaction_count_difference ≡ pos 0

pub category_reasons_nil :
    (t : CategoryTally) (d : CategoryControlDifferences)
    → (is_nil (category_reasons t d) ≡ true) ↔ IsClear t d
unfolding category_reasons
category_reasons_nil t d = (λ h. ground arith, λ v. ground arith)

-- What every result satisfies.
pub record IsConsistent (r : CategoryControlTotalsResult) : Type 0 where
  pub tally : CategoryTally
  pub eligible_is : r.category_controls_eligible ≡ is_nil (category_reasons tally r.differences)
  pub eligible_reasons : r.category_controls_eligible ≡ is_nil r.reasons
  pub status_is : r.status ≡ category_status tally r.differences
  pub unresolved_is : r.missing_dimensions.unresolved_transaction_count ≡ tally.unresolved
  pub missing_is : r.missing_dimensions.missing_booking_count ≡ tally.missing_booking

pub category-IsConsistent :
    (locale_compare : String → String → ℤ) (input : CategoryControlTotalsInput)
    → IsConsistent (build_category_control_totals locale_compare input)
unfolding build_category_control_totals
category-IsConsistent locale_compare input = record {
  tally = category_loop input.transactions empty_tally;
  eligible_is = refl;
  eligible_reasons = refl;
  status_is = refl;
  unresolved_is = refl;
  missing_is = refl;
}
