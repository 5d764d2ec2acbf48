-- ===== src/Report/Dispatch.antt =====
-- server/services/reportApprovalDispatchService.ts, `prepareDispatch` and `executeDispatch`, and
-- `createReportDispatch` of server/services/periodCloseService.ts.
use finance.Prelude.{
  ℕ, Bool, true, false, not, ◌&&◌, ◌||◌, Option, none, some, List, String, str_eq, or_else, is_some,
  is_nil, is_truthy, if◌then◌else◌, Result, ok, ◌>>=◌, ◌>>◌, require, map_err,
}
use finance.Calendar.{Date}
use finance.Close.{
  PeriodCloseError, no_recipients as no_recipients_given, no_active_approval as not_approved,
  dispatch_refused,
}
use finance.Close.Tables.{
  ReportApproval, ReportDispatch, DispatchStatus, pending, sent, failed, Recipient, Tables,
}
use finance.Close.Create.{Env}
use finance.Close.Strict.{find_or}
use finance.Report.{
  ApprovalActor, ReportApprovalError, not_admin, report_not_found, no_recipients,
  no_active_approval, no_from_address, no_subject, no_content_hash, no_valid_address,
  dispatch_not_pending, update_failed, below, may_act,
}
use finance.Report.Approve.{report_in}
use finance.Report.Email.{normalize_recipient_emails}

pub record CreateReportDispatchInput : Type 0 where
  pub report_snapshot_id : String
  pub report_approval_id : String
  pub delivery_key : String
  pub from_address : String
  pub subject : String
  pub recipients : List Recipient
  pub recipient_hash : String
  pub content_hash : String
  pub sent_by : String

-- `where: { id, reportSnapshotId, revokedAt: null }`
abbrev pub active_approval : String → String → ReportApproval → Bool
active_approval id snapshot_id a =
    str_eq a.id id && (str_eq a.report_snapshot_id snapshot_id && not (is_some a.revoked_at))

abbrev pub new_dispatch : Env → CreateReportDispatchInput → ReportDispatch
new_dispatch env input = record {
  id = env.new_id;
  report_snapshot_id = input.report_snapshot_id;
  report_approval_id = input.report_approval_id;
  delivery_key = input.delivery_key;
  status = pending;
  from_address = input.from_address;
  subject = input.subject;
  recipient_hash = input.recipient_hash;
  content_hash = input.content_hash;
  provider_message_id = none;
  sent_by = input.sent_by;
  sent_at = none;
  error_message = none;
  created_at = env.now;
  recipients = input.recipients;
}

-- The identifier, and `deliveryKey String @unique`
abbrev pub same_dispatch : ReportDispatch → ReportDispatch → Bool
same_dispatch d e = str_eq e.id d.id || str_eq e.delivery_key d.delivery_key

unfoldable pub create_report_dispatch :
    Env → Tables → CreateReportDispatchInput → Result PeriodCloseError (ReportDispatch × Tables)
create_report_dispatch env db input = do
  require (not (is_nil input.recipients)) no_recipients_given
  approval ←
      find_or
        (env.client.find_first (active_approval input.report_approval_id input.report_snapshot_id)
          db.report_approvals)
        not_approved
  let row = new_dispatch env input
  rows ← find_or (env.client.create (same_dispatch row) row db.report_dispatches) dispatch_refused
  ok (row, record db { report_dispatches = rows })

pub record PrepareDispatchInput : Type 0 where
  pub actor : ApprovalActor
  pub workspace_id : String
  pub report_snapshot_id : String
  pub report_approval_id : String
  pub delivery_key : String
  pub from_address : String
  pub subject : String
  pub recipients : List Recipient
  pub recipient_hash : String
  pub content_hash : String

pub record PrepareDispatchResult : Type 0 where
  pub dispatch_id : String
  pub report_snapshot_id : String
  pub report_approval_id : String
  pub status : DispatchStatus
  pub recipient_hash : String
  pub content_hash : String

abbrev pub dispatch_data : PrepareDispatchInput → CreateReportDispatchInput
dispatch_data input = record {
  report_snapshot_id = input.report_snapshot_id;
  report_approval_id = input.report_approval_id;
  delivery_key = input.delivery_key;
  from_address = input.from_address;
  subject = input.subject;
  recipients = input.recipients;
  recipient_hash = input.recipient_hash;
  content_hash = input.content_hash;
  sent_by = or_else input.actor.actor_id input.actor.user_id;
}

abbrev pub prepare_result : PrepareDispatchInput → ReportDispatch → PrepareDispatchResult
prepare_result input dispatch = record {
  dispatch_id = dispatch.id;
  report_snapshot_id = input.report_snapshot_id;
  report_approval_id = input.report_approval_id;
  status = pending;
  recipient_hash = input.recipient_hash;
  content_hash = input.content_hash;
}

unfoldable pub prepare_dispatch :
    Env
    → Tables
    → PrepareDispatchInput
    → Result ReportApprovalError (PrepareDispatchResult × Tables)
prepare_dispatch env db input = do
  require (may_act input.actor.role) not_admin
  require (not (is_nil input.recipients)) no_recipients
  snapshot ←
      find_or
        (env.client.find_first (report_in input.report_snapshot_id input.workspace_id)
          db.report_snapshots)
        report_not_found
  approval ←
      find_or
        (env.client.find_first (active_approval input.report_approval_id input.report_snapshot_id)
          db.report_approvals)
        no_active_approval
  made ← map_err below (create_report_dispatch env db (dispatch_data input))
  ok (prepare_result input made.0, made.1)

-- An attachment with its bytes.
pub record ReportEmailAttachment : Type 0 where
  pub filename : String
  pub content : List ℕ

pub record ReportEmailPayload : Type 0 where
  pub from_address : String
  pub to : List String
  pub subject : String
  pub html : String
  pub attachments : Option (List ReportEmailAttachment)

pub record ReportEmailResult : Type 0 where
  pub success : Bool
  pub provider_message_id : Option String
  pub error_message : Option String

-- The provider that is passed in, with what it answers to a message; and `toLowerCase`.
pub record Mailer : Type 0 where
  pub send : ReportEmailPayload → ReportEmailResult
  pub lower_case : String → String

pub record ExecuteDispatchInput : Type 0 where
  pub actor : ApprovalActor
  pub workspace_id : String
  pub report_snapshot_id : String
  pub report_approval_id : String
  pub dispatch_id : String
  pub from_address : String
  pub subject : String
  pub recipients : List Recipient
  pub content_hash : String
  pub html : String
  pub attachments : Option (List ReportEmailAttachment)

pub record ExecuteDispatchResult : Type 0 where
  pub dispatch_id : String
  pub status : DispatchStatus
  pub provider_message_id : Option String
  pub error_message : Option String
  pub sends_email : Bool

abbrev pub is_pending : DispatchStatus → Bool
is_pending pending = true
is_pending _ = false

-- `where: { id, reportSnapshotId, reportApprovalId, status: 'PENDING' }`
abbrev pub pending_dispatch : ExecuteDispatchInput → ReportDispatch → Bool
pending_dispatch input d =
    str_eq d.id input.dispatch_id
    && (str_eq d.report_snapshot_id input.report_snapshot_id
        && (str_eq d.report_approval_id input.report_approval_id && is_pending d.status))

abbrev pub payload : Mailer → ExecuteDispatchInput → ReportEmailPayload
payload mailer input = record {
  from_address = input.from_address;
  to = normalize_recipient_emails mailer.lower_case input.recipients;
  subject = input.subject;
  html = input.html;
  attachments = input.attachments;
}

abbrev pub new_status : ReportEmailResult → DispatchStatus
new_status result = if result.success then sent else failed

unfoldable pub sent_row : Date → ReportEmailResult → ReportDispatch → ReportDispatch
sent_row now result d = record d {
  status = new_status result;
  provider_message_id = result.provider_message_id;
  sent_at = if result.success then some now else none;
  error_message = result.error_message;
}

abbrev pub execute_result : ExecuteDispatchInput → ReportEmailResult → ExecuteDispatchResult
execute_result input result = record {
  dispatch_id = input.dispatch_id;
  status = new_status result;
  provider_message_id = result.provider_message_id;
  error_message = result.error_message;
  sends_email = result.success;
}

unfoldable pub execute_dispatch :
    Env
    → Mailer
    → Tables
    → ExecuteDispatchInput
    → Result ReportApprovalError (ExecuteDispatchResult × Tables)
execute_dispatch env mailer db input = do
  require (may_act input.actor.role) not_admin
  require (is_truthy input.from_address) no_from_address
  require (is_truthy input.subject) no_subject
  require (is_truthy input.content_hash) no_content_hash
  require (not (is_nil input.recipients)) no_recipients
  let emails = normalize_recipient_emails mailer.lower_case input.recipients
  require (not (is_nil emails)) no_valid_address
  snapshot ←
      find_or
        (env.client.find_first (report_in input.report_snapshot_id input.workspace_id)
          db.report_snapshots)
        report_not_found
  approval ←
      find_or
        (env.client.find_first (active_approval input.report_approval_id input.report_snapshot_id)
          db.report_approvals)
        no_active_approval
  dispatch ←
      find_or (env.client.find_first (pending_dispatch input) db.report_dispatches)
        dispatch_not_pending
  let result = mailer.send (payload mailer input)
  updated ←
      find_or
        (env.client.update (λ d. str_eq d.id input.dispatch_id) (sent_row env.now result)
          db.report_dispatches)
        update_failed
  ok (execute_result input result, record db { report_dispatches = updated.1 })
