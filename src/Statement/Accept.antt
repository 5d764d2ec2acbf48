-- ===== src/Statement/Accept.antt =====
-- server/services/statementControlService.ts, `acceptBankStatement`: a statement as a row with its
-- periods, one for each source file.
use finance.Prelude.{
  Bool, true, not, ◌&&◌, ◌||◌, ◌==◌, Option, none, some, List, [], ◌∷◌, String, str_eq, or_else,
  is_some, any, Result, ok, err, ◌>>=◌, ◌>>◌, require,
}
use finance.Prelude.Int.{ℤ}
use finance.Calendar.{Date}
use finance.Statement.{
  StatementCoverageStatus, StatementControlError, already_accepted, statement_refused,
  StatementTotalsInput, StatementTotals, assert_statement_totals, assert_positive_row_count,
}
use finance.Statement.Sources.{SourceEnv}

pub record StatementPeriodInput : Type 0 where
  pub totals : StatementTotalsInput
  pub account_id : String
  pub period_start : Date
  pub period_end : Date
  pub coverage_status : StatementCoverageStatus
  pub transaction_count : ℤ

pub record AcceptBankStatementInput : Type 0 where
  pub totals : StatementTotalsInput
  pub workspace_id : String
  pub account_id : String
  pub source_file_id : String
  pub supporting_pdf_file_id : Option String
  pub import_batch_id : Option String
  pub period_start : Date
  pub period_end : Date
  pub coverage_status : StatementCoverageStatus
  pub currency : Option String
  pub transaction_count : ℤ
  pub bank_account_identifier : String
  pub accepted_by : Option String
  pub accepted_at : Option Date
  pub periods : List StatementPeriodInput

-- A period as it is created with the statement.
pub record AcceptedPeriod : Type 0 where
  pub workspace_id : String
  pub account_id : String
  pub period_start : Date
  pub period_end : Date
  pub coverage_status : StatementCoverageStatus
  pub totals : StatementTotals
  pub transaction_count : ℤ

pub record BankStatement : Type 0 where
  pub id : String
  pub workspace_id : String
  pub account_id : String
  pub source_file_id : String
  pub supporting_pdf_file_id : Option String
  pub import_batch_id : Option String
  pub period_start : Date
  pub period_end : Date
  pub coverage_status : StatementCoverageStatus
  pub currency : String
  pub totals : StatementTotals
  pub transaction_count : ℤ
  pub bank_account_identifier : String
  pub accepted_by : Option String
  pub accepted_at : Option Date
  pub periods : List AcceptedPeriod

unfoldable pub normalize_period_create :
    String → StatementPeriodInput → Result StatementControlError AcceptedPeriod
normalize_period_create workspace period = do
  assert_positive_row_count period.transaction_count
  t ← assert_statement_totals period.totals
  ok (record {
    workspace_id = workspace;
    account_id = period.account_id;
    period_start = period.period_start;
    period_end = period.period_end;
    coverage_status = period.coverage_status;
    totals = t;
    transaction_count = period.transaction_count;
  })

unfoldable pub normalize_periods :
    String → List StatementPeriodInput → Result StatementControlError (List AcceptedPeriod)
normalize_periods workspace [] = ok []
normalize_periods workspace (p ∷ ps) = do
  period ← normalize_period_create workspace p
  periods ← normalize_periods workspace ps
  ok (period ∷ periods)

abbrev pub statement_row :
    SourceEnv → AcceptBankStatementInput → StatementTotals → List AcceptedPeriod → BankStatement
statement_row env input t periods = record {
  id = env.new_id;
  workspace_id = input.workspace_id;
  account_id = input.account_id;
  source_file_id = input.source_file_id;
  supporting_pdf_file_id = input.supporting_pdf_file_id;
  import_batch_id = input.import_batch_id;
  period_start = input.period_start;
  period_end = input.period_end;
  coverage_status = input.coverage_status;
  currency = or_else input.currency "EUR";
  totals = t;
  transaction_count = input.transaction_count;
  bank_account_identifier = input.bank_account_identifier;
  accepted_by = input.accepted_by;
  accepted_at = input.accepted_at;
  periods = periods;
}

-- `where: { sourceFileId }`
abbrev pub of_source : String → BankStatement → Bool
of_source id s = str_eq s.source_file_id id

-- `sourceFileId String @unique` and `@@unique([workspaceId, accountId, periodStart, periodEnd])`
abbrev pub same_statement : BankStatement → BankStatement → Bool
same_statement r s =
    of_source r.source_file_id s
    || (str_eq s.workspace_id r.workspace_id
        && (str_eq s.account_id r.account_id
            && (s.period_start == r.period_start && s.period_end == r.period_end)))

-- `@@unique([statementId, accountId, periodStart, periodEnd])` of the periods
abbrev pub same_period : AcceptedPeriod → AcceptedPeriod → Bool
same_period a b =
    str_eq a.account_id b.account_id
    && (a.period_start == b.period_start && a.period_end == b.period_end)

abbrev pub periods_differ : List AcceptedPeriod → Bool
periods_differ [] = true
periods_differ (p ∷ ps) = not (any (same_period p) ps) && periods_differ ps

abbrev pub rows_or : {A : Type 0} → Option A → Result StatementControlError A
rows_or none = err statement_refused
rows_or (some a) = ok a

-- The statement and its periods are created together. The rows that the input refers to are taken to be
-- there.
unfoldable pub accept_bank_statement :
    SourceEnv
    → List BankStatement
    → AcceptBankStatementInput
    → Result StatementControlError (BankStatement × List BankStatement)
accept_bank_statement env rows input = do
  assert_positive_row_count input.transaction_count
  t ← assert_statement_totals input.totals
  require (not (is_some (env.client.find_first (of_source input.source_file_id) rows)))
      already_accepted
  periods ← normalize_periods input.workspace_id input.periods
  let row = statement_row env input t periods
  require (periods_differ periods) statement_refused
  rows' ← rows_or (env.client.create (same_statement row) row rows)
  ok (row, rows')
