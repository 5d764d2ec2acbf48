-- ===== src/Close/Reconciled.antt =====
-- A strict close that succeeds has closed a month that is reconciled.
use finance.Prelude.{ℕ, ◌≡◌, Bool, String, ok, suc, some, if◌then◌else◌}
use finance.Prelude.Int.{◌-ℤ◌}
use finance.Prelude.Sums.{count}
use finance.Statement.MonthSlice.{StatementPeriodMonthSlice}
use finance.Reconciliation.Preview.{StatementReconciliationInput}
use finance.Reconciliation.Preview.Eligible.{IsReconciled}
use finance.Close.Tables.{PeriodClose, closed, StatementPeriod, Ledger, Tables}
use finance.Close.Create.{Env}
use finance.Close.Strict.{AppRole, StrictPeriodCloseInput, StrictPeriodCloseResult}
use finance.Close.Strict.Reads.{
  source_slice, previous_period, month_transactions, integrity_counts, reconciliation_input,
}
use finance.Close.Agreed.{IsNamed}

module _ (env : Env) (db : Tables) (user : String) (sp : StatementPeriod) (ledger : Ledger)
    (slice : StatementPeriodMonthSlice) where
  abbrev pub input_with : ℕ × ℕ → StatementReconciliationInput
  input_with counts =
      reconciliation_input sp slice (previous_period env db sp)
        (month_transactions env db user sp slice) counts

-- The slice of the month that a strict close makes.
abbrev pub month_slice :
    Env → Tables → StrictPeriodCloseInput → StatementPeriod → Ledger → StatementPeriodMonthSlice
month_slice env db input sp ledger = source_slice env db input.actor.user_id sp ledger

-- The row of the close has the figures of the slice, under the identifiers of the input.
pub record IsMonthRow (input : StrictPeriodCloseInput) (out : StrictPeriodCloseResult)
    (slice : StatementPeriodMonthSlice) (row : PeriodClose) : Type 0 where
  pub close : row.id ≡ out.close_id
  pub version : row.version ≡ out.version
  pub status : row.status ≡ closed
  pub ledger : row.ledger_id ≡ input.ledger_id
  pub statement_period : row.statement_period_id ≡ input.statement_period_id
  pub start : row.period_start ≡ slice.period_start
  pub end : row.period_end ≡ slice.period_end
  pub opening : row.opening_balance_minor ≡ slice.opening_balance_minor
  pub income : row.income_minor ≡ slice.income_minor
  pub expense : row.expense_minor ≡ slice.expense_minor
  pub net : row.net_minor ≡ slice.income_minor -ℤ slice.expense_minor
  pub closing : row.closing_balance_minor ≡ slice.closing_balance_minor
  pub transactions : row.transaction_count ≡ slice.transaction_count

-- What a strict close that succeeds closes: the month of a period and a ledger in the tables, which is
-- reconciled, as one new row.
pub record IsMonthClosed (env : Env) (db : Tables) (input : StrictPeriodCloseInput)
    (out : StrictPeriodCloseResult × Tables) : Type 0 where
  pub role_allowed : (r : AppRole) → input.actor.role ≡ some r → r ≡ AppRole.admin
  pub sp : StatementPeriod
  pub ledger : Ledger
  pub named : IsNamed db input sp ledger
  pub integrity : ℕ × ℕ
  pub integrity_counted :
      integrity_counts env sp ledger
        (month_slice env db input sp ledger)
        (month_transactions env db input.actor.user_id sp (month_slice env db input sp ledger))
      ≡ ok integrity
  pub reconciled : IsReconciled (
      input_with env db input.actor.user_id sp ledger
        (month_slice env db input sp ledger)
        integrity)
  pub row : PeriodClose
  pub row_of_month : IsMonthRow input out.0 (month_slice env db input sp ledger) row
  pub rows_after :
      (q : PeriodClose → Bool)
      → count q out.1.period_closes
        ≡ (if q row then suc (count q db.period_closes) else count q db.period_closes)
