-- ===== src/Reconciliation/Monthly/Figures.antt =====
-- What `buildMonthlyReconciliation` computes from the imported transactions, in whatever order the
-- bank's balances put them.
use finance.Prelude.{
  ◌≡◌, refl, arith, Bool, true, some, List, [], ◌∷◌, ◌↔◌, String, if◌then◌else◌, All, length, sym,
  ◌∙◌, ap, ok,
}
use finance.Prelude.Int.{ℤ, pos, ◌-ℤ◌, int_laws, pos_part}
use finance.Prelude.Sums.{sum, count}
use finance.Statement.{credit, debit, Direction}
use finance.Reconciliation.Monthly.{MonthlyReconciliationTransactionInput, is_booked}
use finance.Reconciliation.Monthly.Order.{order_transactions_for_reconciliation}
use finance.Reconciliation.Monthly.Permutes.{sum-order}
use finance.Reconciliation.Monthly.Lines.{category, build_lines}
use finance.Reconciliation.Monthly.LineLaws.{
  booked_amount, amount, line_total-build_lines, sum_by_direction_lem,
}
use finance.Reconciliation.Monthly.Balances.{Continuous, IsExplicit, errors-Continuous-some}
use finance.Reconciliation.Monthly.Build.{
  MonthlyReconciliationInput, MonthlyReconciliationResult, finish, figures_of,
  build_monthly_reconciliation, sum_by_direction, line_total,
}

-- A result is the figures with the status and the reasons that follow from them.
pub build-finish :
    (locale_compare : String → String → ℤ) (input : MonthlyReconciliationInput)
    (r : MonthlyReconciliationResult)
    → build_monthly_reconciliation locale_compare input ≡ ok r
    → finish input.statement_evidence (figures_of locale_compare input) ≡ r
unfolding build_monthly_reconciliation
build-finish locale_compare input r h = ground arith

-- The amount of a transaction in a direction, if the transaction is not booked.
abbrev pub unbooked_amount : Direction → MonthlyReconciliationTransactionInput → ℤ
unbooked_amount d tx = if is_booked tx then pos 0 else amount d tx

sum-unbooked :
    (d : Direction) (txs : List MonthlyReconciliationTransactionInput)
    → sum (amount d) txs -ℤ sum (booked_amount d) txs ≡ sum (unbooked_amount d) txs
sum-unbooked d [] = omega int_laws
sum-unbooked d (tx ∷ txs) = grind (int_laws, sum-unbooked d txs)

pub sum-unbooked-zero :
    (d : Direction) (txs : List MonthlyReconciliationTransactionInput)
    → All (λ tx. is_booked tx ≡ true) txs
    → sum (unbooked_amount d) txs ≡ pos 0
sum-unbooked-zero d [] h = refl
sum-unbooked-zero d (tx ∷ txs) (h, hs) = rw (h, sum-unbooked-zero d txs hs) (omega int_laws)

count-sum {ℓ} :
    {A : Type ℓ} (p : A → Bool) (xs : List A)
    → sum (λ x. if p x then pos 1 else pos 0) xs ≡ pos (count p xs)
count-sum p [] = refl
count-sum p (x ∷ xs) = grind (int_laws, count-sum p xs)

length-sum {ℓ} : {A : Type ℓ} (xs : List A) → sum (λ x. pos 1) xs ≡ pos (length xs)
length-sum [] = refl
length-sum (x ∷ xs) = rw (length-sum xs) (omega int_laws)

module _ (locale_compare : String → String → ℤ) (input : MonthlyReconciliationInput) where
  abbrev pub ordered : List MonthlyReconciliationTransactionInput
  ordered =
      order_transactions_for_reconciliation locale_compare input.imported_transactions
        input.statement_evidence.opening_balance_minor

  pub count-ordered :
      (p : MonthlyReconciliationTransactionInput → Bool)
      → count p ordered ≡ count p input.imported_transactions
  count-ordered p = ap pos_part (
      sym (count-sum p ordered)
      ∙ sum-order locale_compare (λ x. if p x then pos 1 else pos 0) input.imported_transactions
          input.statement_evidence.opening_balance_minor
      ∙ count-sum p input.imported_transactions)

  pub length-ordered : length ordered ≡ length input.imported_transactions
  length-ordered = ap pos_part (
      sym (length-sum ordered)
      ∙ sum-order locale_compare (λ x. pos 1) input.imported_transactions
          input.statement_evidence.opening_balance_minor
      ∙ length-sum input.imported_transactions)

  pub total-ordered :
      (d : Direction) → sum_by_direction ordered d ≡ sum (amount d) input.imported_transactions
  total-ordered d =
      sum_by_direction_lem d ordered
      ∙ sum-order locale_compare (amount d) input.imported_transactions
          input.statement_evidence.opening_balance_minor

  -- The category lines leave out what is not booked, and nothing else.
  pub difference-ordered :
      (d : Direction)
      → sum_by_direction ordered d -ℤ line_total d (build_lines locale_compare ordered category)
        ≡ sum (unbooked_amount d) input.imported_transactions
  difference-ordered d =
      rw (sum_by_direction_lem d ordered, line_total-build_lines d locale_compare category ordered)
        (sum-unbooked d ordered
          ∙ sum-order locale_compare (unbooked_amount d) input.imported_transactions
              input.statement_evidence.opening_balance_minor)

  -- For a month that is returned, the income and the expense are those of the imported transactions,
  -- and the amounts by which the category lines fall short of them are those of the imported
  -- transactions that are not booked.
  pub monthly_differences :
      (r : MonthlyReconciliationResult)
      → build_monthly_reconciliation locale_compare input ≡ ok r
      → (r.income_minor ≡ sum (amount credit) input.imported_transactions)
        × (r.expense_minor ≡ sum (amount debit) input.imported_transactions)
        × (r.category_income_difference_minor
            ≡ sum (unbooked_amount credit) input.imported_transactions)
        × (r.category_expense_difference_minor
            ≡ sum (unbooked_amount debit) input.imported_transactions)
  unfolding finish figures_of
  monthly_differences r h = rw (← build-finish locale_compare input r h) (
    total-ordered credit,
    total-ordered debit,
    difference-ordered credit,
    difference-ordered debit,
  )

  -- For a month that is returned, with an opening balance of the statement and an explicit balance
  -- with every transaction, no running balance is wrong exactly when, in the order that is chosen,
  -- the balance of each transaction is the one before it plus its amount.
  pub monthly_continuity :
      (r : MonthlyReconciliationResult) (o : ℤ)
      → build_monthly_reconciliation locale_compare input ≡ ok r
      → input.statement_evidence.opening_balance_minor ≡ some o
      → All IsExplicit ordered
      → (r.running_balance_error_count ≡ 0) ↔ Continuous o ordered
  unfolding finish figures_of
  monthly_continuity r o h e x =
      rw (← build-finish locale_compare input r h) (errors-Continuous-some _ o ordered e x)
