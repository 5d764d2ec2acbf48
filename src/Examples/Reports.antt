-- ===== src/Examples/Reports.antt =====
-- A report that is recorded, approved, prepared and sent, and one whose month is reopened.
use finance.Prelude.{◌≡◌, ◌↔◌, refl, arith, true, false, none, some, [], ◌∷◌, ok, if◌then◌else◌}
use finance.Prelude.Int.{pos, ◌+ℤ◌, ◌-ℤ◌}
use finance.Import.Amounts.{is_space}
use finance.Statement.{assert_statement_totals}
use finance.Close.Tables.{ReportKind, ReportLineKind, ReportLine, ReportSnapshot, Recipient, Tables}
use finance.Database.{IsClient}
use finance.Close.Create.{Env}
use finance.Report.{ApprovalActor}
use finance.Report.Snapshot.{
  CreateReportSnapshotInput, assert_report_lines, link_closes, snapshot_row, create_report_snapshot,
}
use finance.Report.Approve.{
  ApproveSnapshotInput, ApproveSnapshotResult, reopened_links, approve_report_snapshot,
  approve_snapshot,
}
use finance.Report.Email.{codes, is_email, normalize_recipient_emails}
use finance.Report.Email.Shape.{IsEmail, is_email_iff}
use finance.Report.Dispatch.{
  Mailer, PrepareDispatchInput, PrepareDispatchResult, ExecuteDispatchInput, ExecuteDispatchResult,
  create_report_dispatch, prepare_dispatch, sent_row, execute_dispatch,
}
use finance.Report.Guarded.{CanPrepare, prepare_iff, CanExecute, execute_iff}
use finance.Report.Approved.{IsApproved, approve-IsApproved}
use finance.Report.Recorded.{IsRecorded, create-IsRecorded}
use finance.Report.Trace.{Trace, here, then_step, prepare, execute}
use finance.Report.Barred.Never.{IsNeverSent, reopened-IsNeverSent}
use finance.Report.Delivery.{Delivery, Course, delivery_of}
use finance.Report.Delivery.Moved.{Trace-Course}
use finance.Report.Delivery.Once.{IsSendable, sent_once, prepared_can_send}
use finance.Examples.ListClient.{list_client-IsClient}
use finance.Examples.Closes.{closing_env, after_close, reopen_input, reopen_ran}

abbrev report_env : Env
report_env = record closing_env { new_id = "r" }

abbrev total_line : ReportLine
total_line = record {
  line_kind = ReportLineKind.totals;
  project_id = none;
  transaction_type_id = none;
  category_id = none;
  literal_project_label = none;
  literal_type_label = none;
  literal_category_label = none;
  direction = none;
  reporting_class = none;
  amount_minor = pos 30;
  transaction_count = pos 2;
  sort_order = pos 1;
}

abbrev report_input : CreateReportSnapshotInput
report_input = record {
  totals = record {
    opening_balance_minor = pos 100;
    income_minor = pos 50;
    expense_minor = pos 20;
    closing_balance_minor = pos 130;
  };
  workspace_id = "w";
  kind = ReportKind.monthly;
  year = 2024;
  month = some 1;
  version = none;
  transaction_count = pos 2;
  generated_by = "u";
  period_close_ids = "c1" ∷ [];
  lines = total_line ∷ [];
}

abbrev closed_month : Tables
closed_month = record after_close { report_approvals = []; report_snapshot_links = [] }

recorded :
    (out : ReportSnapshot × Tables) × (create_report_snapshot report_env closed_month report_input
      ≡ ok out)
unfolding create_report_snapshot assert_report_lines assert_statement_totals ◌+ℤ◌ ◌-ℤ◌ link_closes
    snapshot_row
recorded = (_, refl)

create-IsRecorded_example :
    IsRecorded report_env list_client-IsClient closed_month report_input recorded.0
create-IsRecorded_example =
    create-IsRecorded report_env list_client-IsClient closed_month report_input recorded.0
      recorded.1

abbrev admin : ApprovalActor
admin = record { user_id = "u"; role = some "admin"; actor_id = none }

abbrev approve_input : ApproveSnapshotInput
approve_input = record {
  actor = admin;
  workspace_id = "w";
  report_snapshot_id = "r";
  expected_snapshot_hash = "hash";
}

abbrev january_report : ReportSnapshot
january_report = record {
  id = "r";
  workspace_id = "w";
  kind = ReportKind.monthly;
  year = 2024;
  month = some 1;
  version = 1;
  opening_balance_minor = pos 100;
  income_minor = pos 50;
  expense_minor = pos 20;
  net_minor = pos 30;
  closing_balance_minor = pos 130;
  transaction_count = pos 2;
  snapshot_hash = "hash";
  generated_by = "u";
  generated_at = 1707000000000;
  lines = total_line ∷ [];
}

-- The month is closed and has a report, which is not approved.
abbrev report_db : Tables
report_db = record after_close { report_approvals = []; report_snapshots = january_report ∷ [] }

approved :
    (out : ApproveSnapshotResult × Tables) × (approve_snapshot report_env report_db approve_input
      ≡ ok out)
unfolding approve_snapshot approve_report_snapshot reopened_links
approved = (_, refl)

approve-IsApproved_example : IsApproved report_env report_db approve_input approved.0
approve-IsApproved_example =
    approve-IsApproved report_env list_client-IsClient report_db approve_input approved.0 approved.1

-- And it is approved.
abbrev approved_db : Tables
approved_db = record after_close { report_snapshots = january_report ∷ [] }

abbrev dispatch_env : Env
dispatch_env = record closing_env { new_id = "d" }

abbrev reader : Recipient
reader = record { email = " reader@bank.example "; name = none }

abbrev prepare_input : PrepareDispatchInput
prepare_input = record {
  actor = admin;
  workspace_id = "w";
  report_snapshot_id = "r";
  report_approval_id = "ap";
  delivery_key = "k";
  from_address = "finance@bank.example";
  subject = "Januari";
  recipients = reader ∷ [];
  recipient_hash = "rh";
  content_hash = "ch";
}

prepared :
    (out : PrepareDispatchResult × Tables) × (prepare_dispatch dispatch_env approved_db
        prepare_input
      ≡ ok out)
unfolding prepare_dispatch create_report_dispatch
prepared = (_, refl)

prepare_iff_example :
    ((out : PrepareDispatchResult × Tables) × (prepare_dispatch dispatch_env approved_db
          prepare_input
        ≡ ok out))
    ↔ CanPrepare dispatch_env approved_db prepare_input
prepare_iff_example = prepare_iff dispatch_env list_client-IsClient approved_db prepare_input

-- A provider that sends every message.
abbrev mailer : Mailer
mailer = record {
  send = λ m. record { success = true; provider_message_id = some "m"; error_message = none };
  lower_case = λ s. s;
}

abbrev execute_input : ExecuteDispatchInput
execute_input = record {
  actor = admin;
  workspace_id = "w";
  report_snapshot_id = "r";
  report_approval_id = "ap";
  dispatch_id = "d";
  from_address = "finance@bank.example";
  subject = "Januari";
  recipients = reader ∷ [];
  content_hash = "ch";
  html = "<p>";
  attachments = none;
}

executed :
    (out : ExecuteDispatchResult × Tables) × (execute_dispatch dispatch_env mailer prepared.0.1
        execute_input
      ≡ ok out)
unfolding execute_dispatch prepared normalize_recipient_emails is_space is_email sent_row
executed = (_, refl)

execute_iff_example :
    ((out : ExecuteDispatchResult × Tables) × (execute_dispatch dispatch_env mailer prepared.0.1
          execute_input
        ≡ ok out))
    ↔ CanExecute mailer prepared.0.1 execute_input
execute_iff_example =
    execute_iff dispatch_env list_client-IsClient prepared.0.1 mailer execute_input

prepared-IsSendable : IsSendable mailer prepare_input prepared.0.0.dispatch_id execute_input
unfolding prepared normalize_recipient_emails is_space is_email
prepared-IsSendable = record {
  admin = refl;
  from_given = refl;
  subject_given = refl;
  content_given = refl;
  addressed = refl;
  workspace = refl;
  report = refl;
  approval = refl;
  dispatch = refl;
}

prepared_can_send_example :
    (sent : ExecuteDispatchResult × Tables) × (execute_dispatch dispatch_env mailer prepared.0.1
        execute_input
      ≡ ok sent)
prepared_can_send_example =
    prepared_can_send dispatch_env dispatch_env mailer list_client-IsClient list_client-IsClient
      approved_db prepare_input prepared.0 execute_input prepared.1 prepared-IsSendable

sent-Trace : Trace approved_db executed.0.1
sent-Trace =
    then_step _ _
      (then_step _ _ here
        (prepare dispatch_env list_client-IsClient approved_db prepare_input prepared.0 prepared.1))
      (execute dispatch_env list_client-IsClient mailer prepared.0.1 execute_input executed.0
        executed.1)

Trace-Course_example :
    Course
      (delivery_of "d" approved_db.report_dispatches)
      (delivery_of "d" executed.0.1.report_dispatches)
Trace-Course_example = Trace-Course "d" approved_db executed.0.1 sent-Trace

sent_once_example :
    (delivery_of "d" executed.0.1.report_dispatches
      ≡ (if executed.0.0.sends_email then Delivery.delivered else Delivery.undelivered))
    × ((env' : Env) (mailer' : Mailer) (again : ExecuteDispatchInput)
          (out' : ExecuteDispatchResult × Tables)
        → IsClient env'.client
        → again.dispatch_id ≡ "d"
        → ¬ (execute_dispatch env' mailer' executed.0.1 again ≡ ok out'))
sent_once_example =
    sent_once dispatch_env mailer list_client-IsClient prepared.0.1 execute_input executed.0
      executed.0.1 executed.1 here

reopened-IsNeverSent_example : IsNeverSent "r" reopen_ran.0.1
reopened-IsNeverSent_example =
    reopened-IsNeverSent closing_env list_client-IsClient after_close reopen_input reopen_ran.0 "r"
      reopen_ran.0.1 reopen_ran.1 (omega arith) here

is_email_iff_example :
    (is_email (codes "reader@bank.example") ≡ true) ↔ IsEmail (codes "reader@bank.example")
is_email_iff_example = is_email_iff (codes "reader@bank.example")

email_refused : is_email (codes "reader@bank") ≡ false
unfolding is_email is_space
email_refused = refl
