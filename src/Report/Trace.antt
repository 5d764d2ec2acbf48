-- ===== src/Report/Trace.antt =====
-- The transactions of the services on closes and reports, as steps on the tables, and the sequences
-- of them.
use finance.Prelude.{◌≡◌, str_eq, ok}
use finance.Prelude.Sums.{count}
use finance.Database.{IsClient}
use finance.Close.Tables.{PeriodClose, ReportSnapshot, Tables}
use finance.Close.Create.{Env}
use finance.Close.Strict.{StrictPeriodCloseInput, StrictPeriodCloseResult}
use finance.Close.Strict.Run.{execute_strict_period_close}
use finance.Close.Reopen.{AuditedReopenInput, AuditedReopenResult, execute_audited_reopen}
use finance.Report.Snapshot.{CreateReportSnapshotInput, create_report_snapshot}
use finance.Report.Approve.{ApproveSnapshotInput, ApproveSnapshotResult, approve_snapshot}
use finance.Report.Dispatch.{
  Mailer, PrepareDispatchInput, PrepareDispatchResult, ExecuteDispatchInput, ExecuteDispatchResult,
  prepare_dispatch, execute_dispatch,
}

-- A call that returns. The identifier of a new close is one that no close has.
pub data Step : Tables → Tables → Type 1 where
  strict_close :
      (env : Env)
      → IsClient env.client
      → (db : Tables) → (input : StrictPeriodCloseInput) → (out : StrictPeriodCloseResult × Tables)
      → count (λ (c : PeriodClose). str_eq c.id env.new_id) db.period_closes ≡ 0
      → execute_strict_period_close env db input ≡ ok out
      → Step db out.1
  reopen :
      (env : Env)
      → IsClient env.client
      → (db : Tables) → (input : AuditedReopenInput) → (out : AuditedReopenResult × Tables)
      → execute_audited_reopen env db input ≡ ok out
      → Step db out.1
  record_report :
      (env : Env)
      → IsClient env.client
      → (db : Tables) → (input : CreateReportSnapshotInput) → (out : ReportSnapshot × Tables)
      → create_report_snapshot env db input ≡ ok out
      → Step db out.1
  approve :
      (env : Env)
      → IsClient env.client
      → (db : Tables) → (input : ApproveSnapshotInput) → (out : ApproveSnapshotResult × Tables)
      → approve_snapshot env db input ≡ ok out
      → Step db out.1
  prepare :
      (env : Env)
      → IsClient env.client
      → (db : Tables) → (input : PrepareDispatchInput) → (out : PrepareDispatchResult × Tables)
      → prepare_dispatch env db input ≡ ok out
      → Step db out.1
  execute :
      (env : Env)
      → IsClient env.client
      → (mailer : Mailer) → (db : Tables) → (input : ExecuteDispatchInput)
      → (out : ExecuteDispatchResult × Tables) → execute_dispatch env mailer db input ≡ ok out
      → Step db out.1

pub data Trace (from : Tables) : Tables → Type 1 where
  here : Trace from from
  then_step : (db db' : Tables) → Trace from db → Step db db' → Trace from db'
