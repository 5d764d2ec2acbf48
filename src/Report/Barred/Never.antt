-- ===== src/Report/Barred/Never.antt =====
-- What a reopening means for the reports on the close: none is approved or sent ever again.
use finance.Prelude.{
  ◌≤◌, ◌≡◌, refl, arith, true, false, ◌&&◌, [], ◌∷◌, String, str_eq, str_eq_iff, Bool-cases, inl,
  inr, ok, ◌∙◌,
}
use finance.Prelude.Sums.{count, count-le}
use finance.Database.{IsClient}
use finance.Close.Tables.{PeriodClose, ReportSnapshotLink, Tables}
use finance.Close.Create.{Env}
use finance.Close.Reopen.{
  AuditedReopenInput, AuditedReopenResult, active_for, contains, linked_snapshots, reopen_row,
  execute_audited_reopen,
}
use finance.Close.Revoked.{contains-count, count_never}
use finance.Close.Reachable.{reopened_in, reopen-IsReopened}
use finance.Report.Approve.{ApproveSnapshotInput, ApproveSnapshotResult, approve_snapshot}
use finance.Report.Dispatch.{
  Mailer, PrepareDispatchInput, PrepareDispatchResult, ExecuteDispatchInput, ExecuteDispatchResult,
  prepare_dispatch, execute_dispatch,
}
use finance.Report.Trace.{Trace}
use finance.Report.Barred.{
  link_between, has_id, still_open, IsBarred, barred-not_approved, barred-not_prepared,
  barred-not_sent,
}
use finance.Report.Barred.Kept.{Trace-IsBarred}

reopened_not_open :
    (env : Env) (input : AuditedReopenInput) (c : PeriodClose)
    → still_open input.period_close_id (reopened_in env input c) ≡ false
unfolding reopen_row
reopened_not_open env input c = elim (Bool-cases (str_eq c.id input.period_close_id)) [
  | inl e ↦ rw (e, e) refl
  | inr e ↦ rw (e, e) refl
]

-- A report that was linked to a close is barred once the close is reopened.
reopen-IsBarred :
    (env : Env) (lawful : IsClient env.client) (db : Tables) (input : AuditedReopenInput)
    (out : AuditedReopenResult × Tables) (snap : String)
    → execute_audited_reopen env db input ≡ ok out
    → 1 ≤ count (link_between snap input.period_close_id) db.report_snapshot_links
    → IsBarred snap input.period_close_id out.1
unfolding reopen_row linked_snapshots
reopen-IsBarred env lawful db input out snap h linked =
    let r = reopen-IsReopened env lawful db input out h in
    let close = input.period_close_id in
    let of_close = λ (l : ReportSnapshotLink). str_eq l.period_close_id close in
    let of_snap = λ (l : ReportSnapshotLink). str_eq snap l.report_snapshot_id in
    let found = lawful.find_many_rows of_close of_snap db.report_snapshot_links in
    let turned =
      count-le (link_between snap close) (λ l. of_close l && of_snap l) db.report_snapshot_links
        (λ l k.
          let same : l.report_snapshot_id ≡ snap = (str_eq_iff _ _).0 (ground arith) in
          rw (same, (str_eq_iff snap snap).1 refl) (ground arith)) in
    let among : contains snap (linked_snapshots env db close) ≡ true =
      contains-count (λ (l : ReportSnapshotLink). l.report_snapshot_id) snap _
        (omega (arith, found, turned, linked)) in
    let fewer =
      count-le (has_id close) (λ c. has_id close (reopened_in env input c)) db.period_closes
        (λ c k. ground arith) in
    record {
      linked = rw r.untouched linked;
      there = omega (arith, r.counted (has_id close), fewer, r.there);
      reopened_all =
          r.counted (still_open close)
          ∙ count_never _ db.period_closes (reopened_not_open env input);
      inactive = omega (
        arith,
        count-le (active_for (snap ∷ [])) (active_for (linked_snapshots env db close))
            out.1.report_approvals
            (λ a k.
              let same : a.report_snapshot_id ≡ snap = (str_eq_iff _ _).0 (ground arith) in
              rw (same, among) (ground arith)),
        r.none_active,
      );
    }

-- Neither approved nor prepared nor sent.
pub record IsNeverSent (snap : String) (db : Tables) : Type 1 where
  pub not_approved :
      (env : Env) (input : ApproveSnapshotInput) (out : ApproveSnapshotResult × Tables)
      → IsClient env.client
      → input.report_snapshot_id ≡ snap
      → ¬ (approve_snapshot env db input ≡ ok out)
  pub not_prepared :
      (env : Env) (input : PrepareDispatchInput) (out : PrepareDispatchResult × Tables)
      → IsClient env.client
      → input.report_snapshot_id ≡ snap
      → ¬ (prepare_dispatch env db input ≡ ok out)
  pub not_sent :
      (env : Env) (mailer : Mailer) (input : ExecuteDispatchInput)
      (out : ExecuteDispatchResult × Tables)
      → IsClient env.client
      → input.report_snapshot_id ≡ snap
      → ¬ (execute_dispatch env mailer db input ≡ ok out)

-- Once a close is reopened, a report that was linked to it is never approved, prepared for sending
-- or sent again: those calls fail in every state that closes, reopenings, new reports, approvals and
-- dispatches lead to, where a new close has an identifier that no close had.
pub reopened-IsNeverSent :
    (env : Env) (lawful : IsClient env.client) (db : Tables) (input : AuditedReopenInput)
    (out : AuditedReopenResult × Tables) (snap : String) (later : Tables)
    → execute_audited_reopen env db input ≡ ok out
    → 1 ≤ count (link_between snap input.period_close_id) db.report_snapshot_links
    → Trace out.1 later
    → IsNeverSent snap later
reopened-IsNeverSent env lawful db input out snap later h linked trace =
    let barred =
      Trace-IsBarred snap input.period_close_id out.1 later trace
        (reopen-IsBarred env lawful db input out snap h linked) in
    record {
      not_approved = λ e i o l same k. barred-not_approved later barred e l i o same k;
      not_prepared = λ e i o l same k. barred-not_prepared later barred e l i o same k;
      not_sent = λ e m i o l same k. barred-not_sent later barred e l m i o same k;
    }
