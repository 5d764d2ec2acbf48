-- ===== src/Statement.antt =====
-- server/services/statementControlService.ts: the totals of a bank statement and its acceptance.
pub mod MonthSlice
pub mod Sources
pub mod Accept
pub mod Kept
pub mod Stored
pub mod Accepted
pub mod Balanced
use finance.Prelude.{◌≡◌, Bool, true, false, not, arith, inl, inr, Bool-cases}
use finance.Prelude.{Result, ok, err, ◌>>=◌, ◌>>◌, require}
use finance.Prelude.Int.{ℤ, pos, ◌+ℤ◌, ◌-ℤ◌, eqb_ℤ, ltb_ℤ, ◌≤ℤ◌, eqb_ℤ_iff}

pub data StatementCoverageStatus : Type 0 where
  complete partial : StatementCoverageStatus

pub data Direction : Type 0 where
  credit debit : Direction

abbrev pub is_credit : Direction → Bool
is_credit credit = true
is_credit debit = false

abbrev pub is_complete : StatementCoverageStatus → Bool
is_complete complete = true
is_complete partial = false

-- The causes for which `StatementControlError` is thrown.
pub data StatementControlError : Type 0 where
  totals_do_not_add_up : StatementControlError
  negative_row_count : StatementControlError
  already_accepted : StatementControlError
  source_file_not_found : StatementControlError
  statement_refused : StatementControlError

pub record StatementTotalsInput : Type 0 where
  pub opening_balance_minor : ℤ
  pub income_minor : ℤ
  pub expense_minor : ℤ
  pub closing_balance_minor : ℤ

pub record StatementTotals : Type 0 where
  pub opening_balance_minor : ℤ
  pub income_minor : ℤ
  pub expense_minor : ℤ
  pub net_minor : ℤ
  pub closing_balance_minor : ℤ

unfoldable pub assert_statement_totals :
    StatementTotalsInput → Result StatementControlError StatementTotals
assert_statement_totals t = do
  let net = t.income_minor -ℤ t.expense_minor
  require (eqb_ℤ (t.opening_balance_minor +ℤ net) t.closing_balance_minor) totals_do_not_add_up
  ok (record {
    opening_balance_minor = t.opening_balance_minor;
    income_minor = t.income_minor;
    expense_minor = t.expense_minor;
    net_minor = net;
    closing_balance_minor = t.closing_balance_minor;
  })

-- The count is an integer by its type; the code also refuses fractions.
unfoldable pub assert_positive_row_count : ℤ → Result StatementControlError (Unit {0})
assert_positive_row_count n = require (not (ltb_ℤ n (pos 0))) negative_row_count

-- The opening balance plus the income minus the expense is the closing balance.
abbrev pub AddsUp : StatementTotalsInput → Type 0
AddsUp t = t.opening_balance_minor +ℤ (t.income_minor -ℤ t.expense_minor) ≡ t.closing_balance_minor

abbrev pub totals_of : StatementTotalsInput → StatementTotals
totals_of t = record {
  opening_balance_minor = t.opening_balance_minor;
  income_minor = t.income_minor;
  expense_minor = t.expense_minor;
  net_minor = t.income_minor -ℤ t.expense_minor;
  closing_balance_minor = t.closing_balance_minor;
}

pub assert_statement_totals_of_AddsUp :
    (t : StatementTotalsInput) → AddsUp t → assert_statement_totals t ≡ ok (totals_of t)
unfolding assert_statement_totals
assert_statement_totals_of_AddsUp t h = rw ((eqb_ℤ_iff _ _).1 h)

pub AddsUp-of_assert_statement_totals :
    (t : StatementTotalsInput) {s : StatementTotals}
    → assert_statement_totals t ≡ ok s
    → AddsUp t × (s ≡ totals_of t)
unfolding assert_statement_totals
AddsUp-of_assert_statement_totals t h =
    elim (Bool-cases (
      eqb_ℤ (t.opening_balance_minor +ℤ (t.income_minor -ℤ t.expense_minor))
        t.closing_balance_minor)) [
          | inl e ↦ ((eqb_ℤ_iff _ _).0 e, ground arith)
          | inr e ↦ absurd (ground arith)
        ]
