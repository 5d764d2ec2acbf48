-- ===== src/Report.antt =====
-- server/services/reportApprovalDispatchService.ts, and the part of server/services/periodCloseService.ts
-- on reports: a snapshot of a report, its approval and its dispatch by mail.
pub mod Snapshot
pub mod Approve
pub mod Email
pub mod Dispatch
pub mod Prepared
pub mod Executed
pub mod Allowed
pub mod Guarded
pub mod Approved
pub mod Recorded
pub mod Trace
pub mod Barred
pub mod Delivery
use finance.Prelude.{Bool, true, Option, none, some, String, str_eq, if◌then◌else◌}
use finance.Close.{PeriodCloseError}

pub record ApprovalActor : Type 0 where
  pub user_id : String
  pub role : Option String
  pub actor_id : Option String

-- The causes for which `ReportApprovalError` is thrown, and the errors of the services below.
pub data ReportApprovalError : Type 0 where
  not_admin report_not_found stale_hash period_reopened already_approved : ReportApprovalError
  no_recipients no_active_approval : ReportApprovalError
  no_from_address no_subject no_content_hash no_valid_address : ReportApprovalError
  dispatch_not_pending update_failed : ReportApprovalError
  below : PeriodCloseError → ReportApprovalError

-- `actor.role && actor.role !== 'admin'` does not hold.
abbrev pub may_act : Option String → Bool
may_act none = true
may_act (some role) = if str_eq role "" then true else str_eq role "admin"
