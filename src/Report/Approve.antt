-- ===== src/Report/Approve.antt =====
-- server/services/reportApprovalDispatchService.ts, `approveSnapshot`, and `approveReportSnapshot` of
-- server/services/periodCloseService.ts.
use finance.Prelude.{
  Bool, true, false, not, ◌&&◌, Option, none, some, List, String, str_eq, or_else, is_some, is_nil,
  select, Result, ok, ◌>>=◌, ◌>>◌, require, map_err,
}
use finance.Calendar.{Date}
use finance.Close.{PeriodCloseError, snapshot_not_found, approval_refused}
use finance.Close.Tables.{
  PeriodClose, PeriodCloseStatus, reopened, ReportApproval, ReportSnapshot, ReportSnapshotLink,
  Tables,
}
use finance.Close.Create.{Env}
use finance.Close.Strict.{find_or}
use finance.Report.{
  ApprovalActor, ReportApprovalError, not_admin, report_not_found, stale_hash, period_reopened,
  already_approved, below, may_act,
}

pub record ApproveReportSnapshotInput : Type 0 where
  pub report_snapshot_id : String
  pub approved_by : String

abbrev pub approval_row : Env → ApproveReportSnapshotInput → ReportSnapshot → ReportApproval
approval_row env input snapshot = record {
  id = env.new_id;
  report_snapshot_id = snapshot.id;
  approved_by = input.approved_by;
  approved_at = env.now;
  snapshot_hash = snapshot.snapshot_hash;
  revoked_by = none;
  revoked_at = none;
  revoke_reason = none;
}

-- `@@unique([reportSnapshotId, snapshotHash])`, which also holds of approvals that are revoked.
abbrev pub approval_of : String → String → ReportApproval → Bool
approval_of snapshot_id hash a =
    str_eq a.report_snapshot_id snapshot_id && str_eq a.snapshot_hash hash

unfoldable pub approve_report_snapshot :
    Env → Tables → ApproveReportSnapshotInput → Result PeriodCloseError (ReportApproval × Tables)
approve_report_snapshot env db input = do
  snapshot ←
      find_or
        (env.client.find_first (λ s. str_eq s.id input.report_snapshot_id) db.report_snapshots)
        snapshot_not_found
  let row = approval_row env input snapshot
  rows ←
      find_or
        (env.client.create (approval_of snapshot.id snapshot.snapshot_hash) row db.report_approvals)
        approval_refused
  ok (row, record db { report_approvals = rows })

pub record ApproveSnapshotInput : Type 0 where
  pub actor : ApprovalActor
  pub workspace_id : String
  pub report_snapshot_id : String
  pub expected_snapshot_hash : String

pub record ApproveSnapshotResult : Type 0 where
  pub approval_id : String
  pub report_snapshot_id : String
  pub approved_by : String
  pub approved_at : Date
  pub snapshot_hash : String

-- `where: { id, workspaceId }`
abbrev pub report_in : String → String → ReportSnapshot → Bool
report_in id workspace s = str_eq s.id id && str_eq s.workspace_id workspace

abbrev pub is_reopened : PeriodCloseStatus → Bool
is_reopened reopened = true
is_reopened _ = false

abbrev pub found_reopened : Option PeriodClose → Bool
found_reopened none = false
found_reopened (some c) = is_reopened c.status

-- The close that a link leads to.
abbrev pub linked_close : Env → Tables → ReportSnapshotLink → Option PeriodClose
linked_close env db link =
    env.client.find_first (λ c. str_eq c.id link.period_close_id) db.period_closes

unfoldable pub reopened_links : Env → Tables → String → List ReportSnapshotLink
reopened_links env db snapshot_id =
    select (λ link. found_reopened (linked_close env db link))
      (env.client.find_many (λ l. str_eq l.report_snapshot_id snapshot_id) db.report_snapshot_links)

-- `where: { reportSnapshotId, snapshotHash, revokedAt: null }`
abbrev pub active_approval_of : String → String → ReportApproval → Bool
active_approval_of snapshot_id hash a = approval_of snapshot_id hash a && not (is_some a.revoked_at)

abbrev pub approval_result : ApproveSnapshotInput → ReportApproval → ApproveSnapshotResult
approval_result input approval = record {
  approval_id = approval.id;
  report_snapshot_id = input.report_snapshot_id;
  approved_by = or_else input.actor.actor_id input.actor.user_id;
  approved_at = approval.approved_at;
  snapshot_hash = approval.snapshot_hash;
}

unfoldable pub approve_snapshot :
    Env
    → Tables
    → ApproveSnapshotInput
    → Result ReportApprovalError (ApproveSnapshotResult × Tables)
approve_snapshot env db input = do
  require (may_act input.actor.role) not_admin
  snapshot ←
      find_or
        (env.client.find_first (report_in input.report_snapshot_id input.workspace_id)
          db.report_snapshots)
        report_not_found
  require (str_eq snapshot.snapshot_hash input.expected_snapshot_hash) stale_hash
  require (is_nil (reopened_links env db snapshot.id)) period_reopened
  let active =
      env.client.find_first (active_approval_of input.report_snapshot_id snapshot.snapshot_hash)
        db.report_approvals
  require (not (is_some active)) already_approved
  made ← map_err below (
      approve_report_snapshot env db (record {
        report_snapshot_id = input.report_snapshot_id;
        approved_by = or_else input.actor.actor_id input.actor.user_id;
      }))
  ok (approval_result input made.0, made.1)
