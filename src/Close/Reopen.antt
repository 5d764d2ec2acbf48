-- ===== src/Close/Reopen.antt =====
-- server/services/auditedPeriodReopenService.ts: the reopening of a closed period, which revokes the
-- approvals of the reports on it; and `reopenPeriodClose` of server/services/periodCloseService.ts.
use Prim.Native.Char.{code}
use Prim.Native.String.{◌++◌ as concat, ◌∷◌ as cons, [] as str_nil}
use finance.Import.Amounts.{is_space}
use finance.Prelude.{
  ℕ, Bool, true, false, not, ◌&&◌, Option, none, some, List, [], ◌∷◌, ◌++◌, map, String, str_eq,
  ltb, if◌then◌else◌, or_else, is_some, any, length, Result, ok, ◌>>=◌, ◌>>◌, require,
}
use finance.Calendar.{Date}
use finance.Close.{PeriodCloseError, reopen_reason_missing, close_not_found}
use finance.Close.Tables.{
  PeriodClose, PeriodCloseStatus, reopened, ReportApproval, ReportSnapshotLink, AuditLog, Tables,
}
use finance.Close.Create.{Env}
use finance.Close.Strict.{has_ink, is_closed, find_or}

-- The JSON texts of the audit log are left out. The role is any string.
pub record AuditedReopenActor : Type 0 where
  pub user_id : String
  pub role : Option String
  pub actor_id : Option String
  pub actor_email : Option String

pub record AuditedReopenInput : Type 0 where
  pub actor : AuditedReopenActor
  pub workspace_id : String
  pub period_close_id : String
  pub reason : String

pub data AuditedReopenError : Type 0 where
  not_admin reason_missing period_close_not_found update_failed : AuditedReopenError
  not_closed : PeriodCloseStatus → AuditedReopenError

pub record AuditedReopenResult : Type 0 where
  pub close_id : String
  pub prior_status : PeriodCloseStatus
  pub new_status : PeriodCloseStatus
  pub reopened_at : Date
  pub revoked_approval_count : ℕ
  pub affected_report_snapshot_ids : List String
  pub revokes_report_approvals : Bool

-- `actor.role && actor.role !== 'admin'` does not hold.
abbrev pub may_reopen : Option String → Bool
may_reopen none = true
may_reopen (some role) = if str_eq role "" then true else str_eq role "admin"

-- `trim`: a text without the white space before it and after it.
abbrev pub trim_start : String → String
trim_start str_nil = str_nil
trim_start (cons c s) = if is_space (code c) then trim_start s else cons c s

abbrev pub trim_end : String → String
trim_end str_nil = str_nil
trim_end (cons c s) = let rest = trim_end s in if has_ink (cons c s) then cons c rest else str_nil

abbrev pub trim : String → String
trim s = trim_end (trim_start s)

unfoldable pub reopen_row : String → Date → String → PeriodClose → PeriodClose
reopen_row by at reason c = record c {
  status = reopened;
  reopened_by = some by;
  reopened_at = some at;
  reopen_reason = some reason;
}

unfoldable pub revoke_row : String → Date → String → ReportApproval → ReportApproval
revoke_row by at reason a = record a {
  revoked_by = some by;
  revoked_at = some at;
  revoke_reason = some reason;
}

abbrev pub contains : String → List String → Bool
contains s ss = any (str_eq s) ss

-- `where: { reportSnapshotId: { in: ids }, revokedAt: null }`
abbrev pub active_for : List String → ReportApproval → Bool
active_for ids a = contains a.report_snapshot_id ids && not (is_some a.revoked_at)

-- `where: { id: { in: ids } }`
abbrev pub with_id : List String → ReportApproval → Bool
with_id ids a = contains a.id ids

-- `Array.from(new Set(ids))`
abbrev pub distinct : List String → List String → List String
distinct acc [] = acc
distinct acc (s ∷ ss) = distinct (if contains s acc then acc else acc ++ s ∷ []) ss

-- The identifiers of the report snapshots that are linked to a close.
unfoldable pub linked_snapshots : Env → Tables → String → List String
linked_snapshots env db close_id =
    map (λ (l : ReportSnapshotLink). l.report_snapshot_id)
      (env.client.find_many (λ l. str_eq l.period_close_id close_id) db.report_snapshot_links)

-- The active approvals, which are none where there are no linked snapshots.
unfoldable pub active_approvals : Env → Tables → List String → List ReportApproval
active_approvals env db [] = []
active_approvals env db (s ∷ ss) = env.client.find_many (active_for (s ∷ ss)) db.report_approvals

unfoldable pub revoke_approvals :
    Env → String → String → List ReportApproval → List ReportApproval → List ReportApproval
revoke_approvals env by reason [] rows = rows
revoke_approvals env by reason (a ∷ others) rows =
    env.client.update_many (with_id (map (λ (x : ReportApproval). x.id) (a ∷ others)))
      (revoke_row by env.now reason) rows

abbrev pub reopen_log : AuditedReopenInput → AuditLog
reopen_log input = record {
  user_id = input.actor.user_id;
  actor_id = some (or_else input.actor.actor_id input.actor.user_id);
  actor_email = input.actor.actor_email;
  action = "period.close.reopened";
  entity_type = "periodClose";
  entity_id = some input.period_close_id;
}

unfoldable pub reopen_result :
    Env → PeriodClose → PeriodClose → List ReportApproval → AuditedReopenResult
reopen_result env prior row approvals = record {
  close_id = row.id;
  prior_status = prior.status;
  new_status = row.status;
  reopened_at = env.now;
  revoked_approval_count = length approvals;
  affected_report_snapshot_ids =
      distinct [] (map (λ (x : ReportApproval). x.report_snapshot_id) approvals);
  revokes_report_approvals = ltb 0 (length approvals);
}

-- From the update on: the approvals and the audit log.
unfoldable pub reopen_rows :
    Env
    → Tables
    → AuditedReopenInput
    → PeriodClose
    → PeriodClose
    → List PeriodClose
    → Result AuditedReopenError (AuditedReopenResult × Tables)
unfolding revoke_approvals reopen_result
reopen_rows env db input prior row rows = do
  let by = or_else input.actor.actor_id input.actor.user_id
  let approvals = active_approvals env db (linked_snapshots env db prior.id)
  logs ← find_or (env.client.create (λ l. false) (reopen_log input) db.audit_logs) update_failed
  ok (
    reopen_result env prior row approvals,
    record db {
      period_closes = rows;
      report_approvals =
          revoke_approvals env by (concat "Periode heropend: " (trim input.reason)) approvals
            db.report_approvals;
      audit_logs = logs;
    },
  )

unfoldable pub execute_audited_reopen :
    Env → Tables → AuditedReopenInput → Result AuditedReopenError (AuditedReopenResult × Tables)
unfolding reopen_rows
execute_audited_reopen env db input = do
  require (may_reopen input.actor.role) not_admin
  require (has_ink input.reason) reason_missing
  prior ←
      find_or
        (env.client.find_first
          (λ c. str_eq c.id input.period_close_id && str_eq c.workspace_id input.workspace_id)
          db.period_closes)
        period_close_not_found
  require (is_closed prior.status) (not_closed prior.status)
  updated ←
      find_or
        (env.client.update (λ c. str_eq c.id input.period_close_id)
          (reopen_row (or_else input.actor.actor_id input.actor.user_id) env.now
            (trim input.reason))
          db.period_closes)
        update_failed
  reopen_rows env db input prior updated.0 updated.1

pub record ReopenPeriodCloseInput : Type 0 where
  pub close_id : String
  pub reopened_by : String
  pub reason : String
  pub audit_user_id : String
  pub actor_email : Option String

abbrev period_log : ReopenPeriodCloseInput → AuditLog
period_log input = record {
  user_id = input.audit_user_id;
  actor_id = some input.reopened_by;
  actor_email = input.actor_email;
  action = "period.close.reopened";
  entity_type = "periodClose";
  entity_id = some input.close_id;
}

-- `reopenPeriodClose`, which does not look at the status of the close.
unfoldable pub reopen_period_close :
    Env → Tables → ReopenPeriodCloseInput → Result PeriodCloseError (PeriodClose × Tables)
reopen_period_close env db input = do
  require (has_ink input.reason) reopen_reason_missing
  updated ←
      find_or
        (env.client.update (λ c. str_eq c.id input.close_id)
          (reopen_row input.reopened_by env.now (trim input.reason)) db.period_closes)
        close_not_found
  logs ← find_or (env.client.create (λ l. false) (period_log input) db.audit_logs) close_not_found
  ok (updated.0, record db { period_closes = updated.1; audit_logs = logs })
