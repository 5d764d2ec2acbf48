-- ===== src/Close/Tables.antt =====
-- The rows that a close of a period reads and writes, as prisma/schema.prisma declares them.
use finance.Prelude.{ℕ, Option, List, String}
use finance.Prelude.Int.{ℤ}
use finance.Calendar.{Date}
use finance.Statement.{StatementCoverageStatus, Direction}
use finance.Reconciliation.{BalancedReconciliationEvidence}
use finance.Reconciliation.Monthly.{RawRow}

pub data PeriodCloseStatus : Type 0 where
  closed reopened superseded : PeriodCloseStatus

pub record PeriodClose : Type 0 where
  pub id : String
  pub workspace_id : String
  pub ledger_id : String
  pub statement_id : String
  pub statement_period_id : String
  pub version : ℕ
  pub status : PeriodCloseStatus
  pub period_start : Date
  pub period_end : Date
  pub opening_balance_minor : ℤ
  pub income_minor : ℤ
  pub expense_minor : ℤ
  pub net_minor : ℤ
  pub closing_balance_minor : ℤ
  pub transaction_count : ℤ
  pub classification_hash : String
  pub source_data_hash : String
  pub closed_by : String
  pub closed_at : Date
  pub reopened_by : Option String
  pub reopened_at : Option Date
  pub reopen_reason : Option String
  pub reconciliation_evidence : BalancedReconciliationEvidence

-- A period of an accepted statement, with the fields of the statement that are read.
pub record StatementPeriod : Type 0 where
  pub id : String
  pub workspace_id : String
  pub statement_id : String
  pub statement_workspace_id : String
  pub bank_account_identifier : String
  pub account_id : String
  pub period_start : Date
  pub period_end : Date
  pub coverage_status : StatementCoverageStatus
  pub opening_balance_minor : ℤ
  pub income_minor : ℤ
  pub expense_minor : ℤ
  pub closing_balance_minor : ℤ
  pub transaction_count : ℤ

pub record Ledger : Type 0 where
  pub id : String
  pub user_id : String
  pub year : ℕ
  pub month : ℕ

pub record TransactionBooking : Type 0 where
  pub project_id : String
  pub transaction_type_id : String
  pub category_id : String
  pub literal_project_label : String
  pub literal_type_label : String
  pub literal_category_label : String

-- A transaction with its booking and the identifiers of its pending suggestions.
pub record Transaction : Type 0 where
  pub id : String
  pub user_id : String
  pub account_id : Option String
  pub date : Date
  pub amount_minor : ℤ
  pub direction : Direction
  pub import_fingerprint : Option String
  pub raw_row : Option RawRow
  pub transaction_booking : Option TransactionBooking
  pub pending_suggestions : List String

pub data ReportKind : Type 0 where
  monthly yearly : ReportKind

pub data ReportLineKind : Type 0 where
  project transaction_type category reporting_class totals : ReportLineKind

-- A line of a report. A field that is left out is null.
pub record ReportLine : Type 0 where
  pub line_kind : ReportLineKind
  pub project_id : Option String
  pub transaction_type_id : Option String
  pub category_id : Option String
  pub literal_project_label : Option String
  pub literal_type_label : Option String
  pub literal_category_label : Option String
  pub direction : Option Direction
  pub reporting_class : Option String
  pub amount_minor : ℤ
  pub transaction_count : ℤ
  pub sort_order : ℤ

pub record ReportSnapshot : Type 0 where
  pub id : String
  pub workspace_id : String
  pub kind : ReportKind
  pub year : ℕ
  pub month : Option ℕ
  pub version : ℕ
  pub opening_balance_minor : ℤ
  pub income_minor : ℤ
  pub expense_minor : ℤ
  pub net_minor : ℤ
  pub closing_balance_minor : ℤ
  pub transaction_count : ℤ
  pub snapshot_hash : String
  pub generated_by : String
  pub generated_at : Date
  pub lines : List ReportLine

pub record ReportApproval : Type 0 where
  pub id : String
  pub report_snapshot_id : String
  pub approved_by : String
  pub approved_at : Date
  pub snapshot_hash : String
  pub revoked_by : Option String
  pub revoked_at : Option Date
  pub revoke_reason : Option String

pub record ReportSnapshotLink : Type 0 where
  pub report_snapshot_id : String
  pub period_close_id : String
  pub sort_order : ℕ

pub data DispatchStatus : Type 0 where
  pending sent failed : DispatchStatus

pub record Recipient : Type 0 where
  pub email : String
  pub name : Option String

pub record ReportDispatch : Type 0 where
  pub id : String
  pub report_snapshot_id : String
  pub report_approval_id : String
  pub delivery_key : String
  pub status : DispatchStatus
  pub from_address : String
  pub subject : String
  pub recipient_hash : String
  pub content_hash : String
  pub provider_message_id : Option String
  pub sent_by : String
  pub sent_at : Option Date
  pub error_message : Option String
  pub created_at : Date
  pub recipients : List Recipient

pub record AuditLog : Type 0 where
  pub user_id : String
  pub actor_id : Option String
  pub actor_email : Option String
  pub action : String
  pub entity_type : String
  pub entity_id : Option String

pub record Tables : Type 0 where
  pub period_closes : List PeriodClose
  pub statement_periods : List StatementPeriod
  pub ledgers : List Ledger
  pub transactions : List Transaction
  pub report_approvals : List ReportApproval
  pub report_snapshots : List ReportSnapshot
  pub report_snapshot_links : List ReportSnapshotLink
  pub report_dispatches : List ReportDispatch
  pub audit_logs : List AuditLog
