-- ===== src/Reconciliation/Monthly/Eligible.antt =====
-- When a month may close: `closeEligible` and `reasons` of `buildMonthlyReconciliation`.
use finance.Prelude.{
  ℕ, ◌≡◌, refl, arith, Bool, true, false, Option, none, some, List, ◌↔◌, String, or_else, All,
  is_nil, any, length, sym, ◌∙◌, ok,
}
use finance.Prelude.Int.{ℤ, pos, ◌+ℤ◌, ◌-ℤ◌, eqb_ℤ_iff, eq_of_sub_zero, sub_self}
use finance.Prelude.Sums.{sum, count, count_zero_of_All, All-of_count_zero}
use finance.Prelude.Throughout.{All-imp}
use finance.Statement.{complete, credit, debit}
use finance.Reconciliation.{is_balanced}
use finance.Reconciliation.Monthly.{MonthlyReconciliationTransactionInput, is_booked}
use finance.Reconciliation.Monthly.LineLaws.{amount}
use finance.Reconciliation.Monthly.Figures.{
  build-finish, monthly_differences, sum-unbooked-zero, count-ordered, length-ordered, ordered,
}
use finance.Reconciliation.Monthly.Balances.{is_open, check_all-unresolved}
use finance.Reconciliation.Monthly.Build.{
  MonthlyReason, MonthlyReconciliationInput, MonthlyReconciliationResult,
  MonthlyReconciliationStatementEvidence, finish, figures_of, monthly_status, reasons_of,
  build_monthly_reconciliation, is_not_zero, month_chain_errors, option_differs,
}

-- There are no reasons against a close exactly when the status is balanced.
reasons-status :
    (e : MonthlyReconciliationStatementEvidence) (r : MonthlyReconciliationResult)
    → or_else e.opening_balance_minor r.opening_balance_minor ≡ r.opening_balance_minor
    → or_else e.closing_balance_minor r.closing_balance_minor ≡ r.closing_balance_minor
    → is_nil (reasons_of e r) ≡ is_balanced (monthly_status e r)
unfolding reasons_of monthly_status
reasons-status e r o c = ground arith

-- A number that is given is the one expected.
abbrev pub Agrees : Option ℤ → ℤ → Type 0
Agrees none n = Unit
Agrees (some m) n = m ≡ n

-- What is asked of a month: the statement covers it, every imported transaction is booked, no
-- fingerprint is repeated and no running balance wrong, the opening balance plus the income minus
-- the expense is the closing balance, the number of transactions is that of the statement if that
-- is given, and the neighbouring months meet its balances where they are given.
pub record IsClean (input : MonthlyReconciliationInput) (r : MonthlyReconciliationResult)
    : Type 0 where
  pub covered : input.statement_evidence.coverage_status ≡ complete
  pub booked : All (λ tx. is_booked tx ≡ true) input.imported_transactions
  pub unique : r.duplicate_fingerprint_count ≡ 0
  pub continuous : r.running_balance_error_count ≡ 0
  pub adds_up :
      r.opening_balance_minor
        +ℤ (sum (amount credit) input.imported_transactions
            -ℤ sum (amount debit) input.imported_transactions)
      ≡ r.closing_balance_minor
  pub counted :
      Agrees input.statement_evidence.transaction_count (pos (length input.imported_transactions))
  pub follows : Agrees input.previous_month_closing_balance_minor r.opening_balance_minor
  pub precedes : Agrees input.next_month_opening_balance_minor r.closing_balance_minor

-- What a balanced status says of the figures.
record IsClear (e : MonthlyReconciliationStatementEvidence) (r : MonthlyReconciliationResult)
    : Type 0 where
  covered : e.coverage_status ≡ complete
  none_unresolved : r.unresolved_transaction_count ≡ 0
  unique : r.duplicate_fingerprint_count ≡ 0
  continuous : r.running_balance_error_count ≡ 0
  income : r.category_income_difference_minor ≡ pos 0
  expense : r.category_expense_difference_minor ≡ pos 0
  adds_up : r.balance_difference_minor ≡ pos 0
  counted : is_not_zero r.transaction_count_difference ≡ false
  chained : r.month_chain_error_count ≡ 0

status-IsClear :
    (e : MonthlyReconciliationStatementEvidence) (r : MonthlyReconciliationResult)
    → (is_balanced (monthly_status e r) ≡ true) ↔ IsClear e r
unfolding monthly_status
status-IsClear e r = (λ h. ground arith, λ v. ground arith)

counted_lem :
    (n : ℕ) (o : Option ℤ)
    → (is_not_zero (elim o [ none ↦ none | some m ↦ some (pos n -ℤ m) ]) ≡ false) ↔ Agrees o (pos n)
counted_lem n none = (λ h. tt, λ h. refl)
counted_lem n (some k) = (
  λ h. sym (eq_of_sub_zero (pos n) k ((eqb_ℤ_iff _ _).0 (ground arith))),
  λ h. rw (h, sub_self) refl,
)

differs_lem : (o : Option ℤ) (n : ℤ) → (option_differs o n ≡ false) ↔ Agrees o n
differs_lem none n = (λ h. tt, λ h. refl)
differs_lem (some m) n =
    (λ h. (eqb_ℤ_iff m n).0 (ground arith), λ h. ground (arith, (eqb_ℤ_iff m n).1 h))

chained_lem :
    (previous next : Option ℤ) (opening closing : ℤ)
    → (month_chain_errors previous next opening closing ≡ 0)
      ↔ (Agrees previous opening × Agrees next closing)
unfolding month_chain_errors
chained_lem previous next opening closing = (
  λ h. (
    (differs_lem previous opening).0 (ground arith),
    (differs_lem next closing).0 (ground arith),
  ),
  λ (a, b). rw ((differs_lem previous opening).1 a, (differs_lem next closing).1 b) refl,
)

or_else-twice : (o : Option ℤ) (n : ℤ) → or_else o (or_else o n) ≡ or_else o n
or_else-twice none n = refl
or_else-twice (some m) n = refl

All-of_open :
    (txs : List MonthlyReconciliationTransactionInput)
    → count is_open txs ≡ 0
    → All (λ tx. is_booked tx ≡ true) txs
All-of_open txs h =
    All-imp (λ tx. is_open tx ≡ false) (λ tx. is_booked tx ≡ true) txs (λ tx e. ground arith)
      (All-of_count_zero is_open txs h)

open_zero :
    (txs : List MonthlyReconciliationTransactionInput)
    → All (λ tx. is_booked tx ≡ true) txs
    → count is_open txs ≡ 0
open_zero txs h =
    count_zero_of_All is_open txs
      (All-imp (λ tx. is_booked tx ≡ true) (λ tx. is_open tx ≡ false) txs (λ tx e. ground arith) h)

module _ (locale_compare : String → String → ℤ) (input : MonthlyReconciliationInput)
    (r : MonthlyReconciliationResult)
    (built : build_monthly_reconciliation locale_compare input ≡ ok r) where
  built-status : r.close_eligible ≡ is_balanced (monthly_status input.statement_evidence r)
  unfolding finish monthly_status
  built-status = rw (← build-finish locale_compare input r built) refl

  built-reasons : is_nil r.reasons ≡ r.close_eligible
  unfolding finish figures_of
  built-reasons = rw (← build-finish locale_compare input r built) (
      reasons-status input.statement_evidence (figures_of locale_compare input)
        (or_else-twice input.statement_evidence.opening_balance_minor _)
        (or_else-twice input.statement_evidence.closing_balance_minor _))

  built-unresolved : r.unresolved_transaction_count ≡ count is_open input.imported_transactions
  unfolding finish figures_of
  built-unresolved = rw (← build-finish locale_compare input r built) (
      check_all-unresolved input.statement_evidence.opening_balance_minor
        (ordered locale_compare input)
      ∙ count-ordered locale_compare input is_open)

  built-balance :
      r.balance_difference_minor
      ≡ r.opening_balance_minor +ℤ (r.income_minor -ℤ r.expense_minor) -ℤ r.closing_balance_minor
  unfolding finish figures_of
  built-balance = rw (← build-finish locale_compare input r built) refl

  built-counted :
      (is_not_zero r.transaction_count_difference ≡ false)
      ↔ Agrees input.statement_evidence.transaction_count (pos (length input.imported_transactions))
  unfolding finish figures_of
  built-counted =
      rw (← build-finish locale_compare input r built, ← length-ordered locale_compare input)
        (counted_lem (length (ordered locale_compare input))
          input.statement_evidence.transaction_count)

  built-chain :
      r.month_chain_error_count
      ≡ month_chain_errors input.previous_month_closing_balance_minor
          input.next_month_opening_balance_minor r.opening_balance_minor r.closing_balance_minor
  unfolding finish figures_of
  built-chain = rw (← build-finish locale_compare input r built) refl

  IsClean-of_IsClear : IsClear input.statement_evidence r → IsClean input r
  IsClean-of_IsClear v =
      let (income, expense, i, x) = monthly_differences locale_compare input r built in
      let chain = (chained_lem _ _ _ _).0 (sym built-chain ∙ v.chained) in
      record {
        covered = v.covered;
        booked = All-of_open input.imported_transactions (sym built-unresolved ∙ v.none_unresolved);
        unique = v.unique;
        continuous = v.continuous;
        adds_up = rw (← income, ← expense) (eq_of_sub_zero _ _ (sym built-balance ∙ v.adds_up));
        counted = built-counted.0 v.counted;
        follows = chain.0;
        precedes = chain.1;
      }

  IsClear-of_IsClean : IsClean input r → IsClear input.statement_evidence r
  IsClear-of_IsClean v =
      let (income, expense, i, x) = monthly_differences locale_compare input r built in
      record {
        covered = v.covered;
        none_unresolved = built-unresolved ∙ open_zero input.imported_transactions v.booked;
        unique = v.unique;
        continuous = v.continuous;
        income = i ∙ sum-unbooked-zero credit input.imported_transactions v.booked;
        expense = x ∙ sum-unbooked-zero debit input.imported_transactions v.booked;
        adds_up = built-balance ∙ rw (income, expense, v.adds_up) (sub_self _);
        counted = built-counted.1 v.counted;
        chained = built-chain ∙ (chained_lem _ _ _ _).1 (v.follows, v.precedes);
      }

  -- A month that is returned may close exactly when the statement covers it, every imported
  -- transaction is booked, no fingerprint is repeated, no running balance is wrong, the opening
  -- balance plus the income minus the expense of the imported transactions is the closing balance,
  -- and the number of transactions and the balances of the neighbouring months agree where they are
  -- given; and there are no reasons against a close exactly when it may.
  pub monthly_close_iff :
      ((r.close_eligible ≡ true) ↔ IsClean input r) × (is_nil r.reasons ≡ r.close_eligible)
  monthly_close_iff = (
    (
      λ h.
          IsClean-of_IsClear ((status-IsClear input.statement_evidence r).0 (sym built-status ∙ h)),
      λ v. built-status ∙ (status-IsClear input.statement_evidence r).1 (IsClear-of_IsClean v),
    ),
    built-reasons,
  )

-- The two messages on the balances of the statement.
abbrev pub is_source_balance : MonthlyReason → Bool
is_source_balance MonthlyReason.source_opening_differs = true
is_source_balance MonthlyReason.source_closing_differs = true
is_source_balance _ = false

reasons-source :
    (e : MonthlyReconciliationStatementEvidence) (r : MonthlyReconciliationResult)
    → or_else e.opening_balance_minor r.opening_balance_minor ≡ r.opening_balance_minor
    → or_else e.closing_balance_minor r.closing_balance_minor ≡ r.closing_balance_minor
    → any is_source_balance (reasons_of e r) ≡ false
unfolding reasons_of
reasons-source e r o c = ground arith

-- For a month that is returned, neither of the messages that a balance of the statement differs from
-- that of the month is among the reasons.
pub monthly_source_reasons :
    (locale_compare : String → String → ℤ) (input : MonthlyReconciliationInput)
    (r : MonthlyReconciliationResult)
    → build_monthly_reconciliation locale_compare input ≡ ok r
    → any is_source_balance r.reasons ≡ false
unfolding finish figures_of
monthly_source_reasons locale_compare input r built =
    rw (← build-finish locale_compare input r built) (
      reasons-source input.statement_evidence (figures_of locale_compare input)
        (or_else-twice input.statement_evidence.opening_balance_minor _)
        (or_else-twice input.statement_evidence.closing_balance_minor _))
