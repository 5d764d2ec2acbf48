-- ===== src/Close/Create.antt =====
-- server/services/periodCloseService.ts, `createPeriodClose`: the close of a period as a new row.
use finance.Prelude.{
  ℕ, ◌+◌, Bool, ◌&&◌, Option, none, some, List, String, str_eq, ◌==◌, or_else, Result, ok, err,
  ◌>>=◌, ◌>>◌, map_err, [], ◌∷◌,
}
use finance.Prelude.Int.{ℤ}
use finance.Calendar.{Date}
use finance.Statement.{StatementTotalsInput, StatementTotals, assert_statement_totals}
use finance.Reconciliation.{BalancedReconciliationEvidence}
use finance.Evidence.{Json, object_of, stable_value}
use finance.Database.{Client}
use finance.Close.{PeriodCloseError, statement, version_taken, assert_can_close}
use finance.Close.Tables.{PeriodClose, closed, Tables}

pub record CreatePeriodCloseInput : Type 0 where
  pub totals : StatementTotalsInput
  pub workspace_id : String
  pub ledger_id : String
  pub statement_id : String
  pub statement_period_id : String
  pub period_start : Date
  pub period_end : Date
  pub transaction_count : ℤ
  pub closed_by : String
  pub reconciliation_evidence : BalancedReconciliationEvidence
  pub classification_evidence : Option Json
  pub source_data_evidence : Option Json

-- What the database and the runtime supply: the client, the identifier of a new row, the time, the
-- SHA-256 of a value's text, and the comparison of keys.
pub record Env : Type 1 where
  pub client : Client
  pub new_id : String
  pub now : Date
  pub digest : Json → String
  pub locale_compare : String → String → ℤ

-- `hashEvidence`
unfoldable pub hash_evidence : Env → Json → String
hash_evidence env evidence = env.digest (stable_value env.locale_compare evidence)

unfoldable pub classification_default : CreatePeriodCloseInput → Json
classification_default input = object_of (
    ("ledgerId", Json.text input.ledger_id)
    ∷ ("statementPeriodId", Json.text input.statement_period_id)
    ∷ ("transactionCount", Json.number input.transaction_count)
    ∷ [])

unfoldable pub source_data_default : CreatePeriodCloseInput → StatementTotals → Json
source_data_default input t = object_of (
    ("statementId", Json.text input.statement_id)
    ∷ ("statementPeriodId", Json.text input.statement_period_id)
    ∷ ("openingBalanceMinor", Json.bigint t.opening_balance_minor)
    ∷ ("incomeMinor", Json.bigint t.income_minor)
    ∷ ("expenseMinor", Json.bigint t.expense_minor)
    ∷ ("netMinor", Json.bigint t.net_minor)
    ∷ ("closingBalanceMinor", Json.bigint t.closing_balance_minor)
    ∷ ("transactionCount", Json.number input.transaction_count)
    ∷ [])

-- `where: { ledgerId }`
abbrev pub of_ledger : String → PeriodClose → Bool
of_ledger l c = str_eq c.ledger_id l

-- `@@unique([ledgerId, version])`, and the identifier
abbrev pub same_version : String → ℕ → PeriodClose → Bool
same_version l v c = of_ledger l c && c.version == v

-- `latest ? latest.version + 1 : 1`
unfoldable pub next_version : Option PeriodClose → ℕ
next_version none = 1
next_version (some latest) = latest.version + 1

unfoldable pub close_row : Env → CreatePeriodCloseInput → StatementTotals → ℕ → PeriodClose
close_row env input t version = record {
  id = env.new_id;
  workspace_id = input.workspace_id;
  ledger_id = input.ledger_id;
  statement_id = input.statement_id;
  statement_period_id = input.statement_period_id;
  version = version;
  status = closed;
  period_start = input.period_start;
  period_end = input.period_end;
  opening_balance_minor = t.opening_balance_minor;
  income_minor = t.income_minor;
  expense_minor = t.expense_minor;
  net_minor = t.net_minor;
  closing_balance_minor = t.closing_balance_minor;
  transaction_count = input.transaction_count;
  classification_hash =
      hash_evidence env (or_else input.classification_evidence (classification_default input));
  source_data_hash =
      hash_evidence env (or_else input.source_data_evidence (source_data_default input t));
  closed_by = input.closed_by;
  closed_at = env.now;
  reopened_by = none;
  reopened_at = none;
  reopen_reason = none;
  reconciliation_evidence = input.reconciliation_evidence;
}

-- The row and the tables with it, unless the client refuses it.
unfoldable pub stored :
    PeriodClose
    → Tables
    → Option (List PeriodClose)
    → Result PeriodCloseError (PeriodClose × Tables)
stored row db none = err version_taken
stored row db (some rows) = ok (row, record db { period_closes = rows })

unfoldable pub insert_close :
    Env → PeriodClose → Tables → Result PeriodCloseError (PeriodClose × Tables)
unfolding stored
insert_close env row db =
    stored row db (env.client.create (same_version row.ledger_id row.version) row db.period_closes)

unfoldable pub create_period_close :
    Env → Tables → CreatePeriodCloseInput → Result PeriodCloseError (PeriodClose × Tables)
unfolding insert_close next_version
create_period_close env db input = do
  assert_can_close input.reconciliation_evidence
  totals ← map_err statement (assert_statement_totals input.totals)
  let latest = env.client.find_latest (λ c. c.version) (of_ledger input.ledger_id) db.period_closes
  insert_close env (close_row env input totals (next_version latest)) db
