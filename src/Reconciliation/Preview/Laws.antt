-- ===== src/Reconciliation/Preview/Laws.antt =====
-- When a statement may be closed.
use finance.Prelude.{
  ◌≡◌, ◌≤◌, refl, arith, Bool, true, false, not, ◌&&◌, List, ◌++◌, is_nil, when, ◌↔◌,
}
use finance.Prelude.Int.{pos}
use finance.Statement.{StatementCoverageStatus, complete}
use finance.Reconciliation.Preview.{
  BookedTotals, Integrity, Differences, close_reasons, is_positive,
}

-- No control objects.
pub record IsClear (coverage : StatementCoverageStatus) (b : BookedTotals) (i : Integrity)
    (d : Differences) : Type 0 where
  pub coverage_is_complete : coverage ≡ complete
  pub none_unresolved : b.unresolved_transaction_count ≡ 0
  pub none_missing : b.transaction_count ≤ b.booked_transaction_count
  pub no_duplicates : is_positive i.duplicate_fingerprint_count ≡ false
  pub no_balance_errors : is_positive i.running_balance_error_count ≡ false
  pub no_chain_errors : is_positive i.month_chain_error_count ≡ false
  pub same_balance : d.balance_difference_minor ≡ pos 0
  pub same_income : d.income_difference_minor ≡ pos 0
  pub same_expense : d.expense_difference_minor ≡ pos 0
  pub same_count : d.transaction_count_difference ≡ pos 0

when_nil {ℓ} :
    {A : Type ℓ} (b : Bool) (r : A) (rest : List A)
    → is_nil (when b r ++ rest) ≡ not b && is_nil rest
when_nil true r rest = refl
when_nil false r rest = refl

pub close_reasons_nil :
    (c : StatementCoverageStatus) (b : BookedTotals) (i : Integrity) (d : Differences)
    → (is_nil (close_reasons c b i d) ≡ true) ↔ IsClear c b i d
unfolding close_reasons
close_reasons_nil c b i d = (λ h. ground arith, λ v. ground arith)
