-- ===== src/Booking.antt =====
-- server/services/reviewDecisionService.ts: the booking of a transaction by hand, and the tables that it
-- reads and writes.
pub mod Assign
pub mod Run
pub mod Put
pub mod Choice
pub mod Assigned
pub mod Allowed
pub mod Confirmed
use finance.Prelude.{Bool, Option, List, String}
use finance.Prelude.Int.{ℤ}
use finance.Calendar.{Date}
use finance.Evidence.{Json}
use finance.Statement.{Direction}
use finance.Close.Tables.{AuditLog}
use finance.History.{BookingSource, ReviewDecisionAction}

-- A project, type or category, by the fields that are read; the label is `name` or `literalName`.
pub record DimensionRow : Type 0 where
  pub id : String
  pub workspace_id : String
  pub label : String

pub record WorkspaceMembership : Type 0 where
  pub workspace_id : String
  pub user_id : String
  pub is_admin : Bool
  pub is_active : Bool

-- What the bank says of a transaction, which no booking may change.
pub record BankFacts : Type 0 where
  pub id : String
  pub user_id : String
  pub account_id : Option String
  pub import_batch_id : Option String
  pub ledger_id : Option String
  pub date : Date
  pub amount_minor : ℤ
  pub currency : String
  pub direction : Direction
  pub description : String
  pub counterparty : Option String
  pub reference : Option String
  pub hash : String
  pub import_fingerprint : Option String
  pub raw_row : Option Json

pub data ClassificationSource : Type 0 where
  unclassified by_rule by_history by_import by_hand : ClassificationSource

-- A row of the transactions: the bank facts and the classification.
pub record TransactionRow : Type 0 where
  pub facts : BankFacts
  pub project_id : Option String
  pub transaction_type_id : Option String
  pub category_id : Option String
  pub classification_source : ClassificationSource
  pub classification_rule_id : Option String

pub record BookingRow : Type 0 where
  pub id : String
  pub workspace_id : String
  pub transaction_id : String
  pub project_id : String
  pub transaction_type_id : String
  pub category_id : String
  pub source : BookingSource
  pub rule_id : Option String
  pub historical_source_transaction_id : Option String
  pub historical_match_key : Option String
  pub evidence : Json
  pub evidence_hash : String
  pub confirmed_by : Option String
  pub confirmed_at : Date
  pub literal_project_label : String
  pub literal_type_label : String
  pub literal_category_label : String

pub record ReviewDecision : Type 0 where
  pub id : String
  pub workspace_id : String
  pub transaction_id : String
  pub suggestion_id : Option String
  pub action : ReviewDecisionAction
  pub before_booking_id : Option String
  pub before_project_id : Option String
  pub before_type_id : Option String
  pub before_category_id : Option String
  pub after_booking_id : Option String
  pub after_project_id : Option String
  pub after_type_id : Option String
  pub after_category_id : Option String
  pub actor_id : String
  pub actor_email : Option String
  pub reason : Option String
  pub evidence : Json
  pub evidence_hash : String
  pub decided_at : Date

pub record BookingTables : Type 0 where
  pub transactions : List TransactionRow
  pub bookings : List BookingRow
  pub decisions : List ReviewDecision
  pub projects : List DimensionRow
  pub transaction_types : List DimensionRow
  pub categories : List DimensionRow
  pub memberships : List WorkspaceMembership
  pub audit_logs : List AuditLog

pub data ReviewDecisionError : Type 0 where
  not_admin incomplete_payload transaction_not_found other_workspaces not_active_admin
        write_failed :
      ReviewDecisionError
