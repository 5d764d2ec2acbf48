-- ===== src/Report/Approved.antt =====
-- When `approveSnapshot` succeeds, and what it has written.
use mathlib.Core.Path.{subst}
use finance.Prelude.{
  ap, ◌∙◌, suc, ◌≤◌, ◌≡◌, refl, arith, Bool, true, not, some, List, str_eq, str_eq_iff, is_nil,
  is_some, or_else, if◌then◌else◌, ok, require, map_err, map_err-ok, seq-ok, bind-ok, require-ok,
  ok_injective, sym,
}
use finance.Prelude.Sums.{count, count-le}
use finance.Database.{IsClient}
use finance.Close.{PeriodCloseError}
use finance.Close.Tables.{ReportApproval, ReportSnapshot, Tables}
use finance.Close.Create.{Env}
use finance.Close.Strict.{find_or}
use finance.Close.Agreed.{find_or-ok}
use finance.Report.{
  not_admin, report_not_found, stale_hash, period_reopened, already_approved, below, may_act,
}
use finance.Report.Approve.{
  ApproveReportSnapshotInput, ApproveSnapshotInput, ApproveSnapshotResult, report_in, approval_row,
  approval_result, approval_of, active_approval_of, reopened_links, approve_report_snapshot,
  approve_snapshot,
}

abbrev pub data_of : ApproveSnapshotInput → ApproveReportSnapshotInput
data_of input = record {
  report_snapshot_id = input.report_snapshot_id;
  approved_by = or_else input.actor.actor_id input.actor.user_id;
}

-- What holds of an approval that was given: no approval of the report under its hash was there
-- before, revoked or not, and now there is one, which is not revoked.
pub record IsApproved (env : Env) (db : Tables) (input : ApproveSnapshotInput)
    (out : ApproveSnapshotResult × Tables) : Type 0 where
  pub admin : may_act input.actor.role ≡ true
  pub reported :
      1 ≤ count (report_in input.report_snapshot_id input.workspace_id) db.report_snapshots
  pub none_reopened : is_nil (reopened_links env db input.report_snapshot_id) ≡ true
  pub none_before :
      count (approval_of input.report_snapshot_id out.0.snapshot_hash) db.report_approvals ≡ 0
  pub active :
      count (active_approval_of input.report_snapshot_id out.0.snapshot_hash) out.1.report_approvals
      ≡ 1
  pub row : ReportApproval
  pub row_id : row.report_snapshot_id ≡ input.report_snapshot_id
  pub rows : List ReportApproval
  pub counted :
      (q : ReportApproval → Bool)
      → count q rows
        ≡ (if q row then suc (count q db.report_approvals) else count q db.report_approvals)
  pub tables_are : out.1 ≡ record db { report_approvals = rows }

module _ (env : Env) (lawful : IsClient env.client) (db : Tables) where
  approve_report-ok :
      (input : ApproveReportSnapshotInput) (made : ReportApproval × Tables)
      → approve_report_snapshot env db input ≡ ok made
      → (s : ReportSnapshot) × ((rows : List ReportApproval) × ((s.id ≡ input.report_snapshot_id)
            × ((env.client.create
                    (approval_of s.id s.snapshot_hash)
                    (approval_row env input s)
                    db.report_approvals
                  ≡ some rows)
                × (made ≡ (approval_row env input s, record db { report_approvals = rows })))))
  unfolding approve_report_snapshot
  approve_report-ok input made h =
      let (s, (found, h1)) =
        bind-ok
          (find_or
            (env.client.find_first (λ s. str_eq s.id input.report_snapshot_id) db.report_snapshots)
            PeriodCloseError.snapshot_not_found)
          _ h in
      let row = approval_row env input s in
      let (rows, (created, h2)) =
        bind-ok
          (find_or (env.client.create (approval_of s.id s.snapshot_hash) row db.report_approvals)
            PeriodCloseError.approval_refused)
          _ h1 in
      let own =
        (lawful.find_first_some _ db.report_snapshots s
          (find_or-ok _ PeriodCloseError.snapshot_not_found found)).0 in
      (
        s,
        (
          rows,
          (
            (str_eq_iff _ _).0 own,
            (find_or-ok _ PeriodCloseError.approval_refused created, sym (ok_injective h2)),
          ),
        ),
      )

  IsApproved-of :
      {input : ApproveSnapshotInput} (t : ReportSnapshot) (rows : List ReportApproval)
      → may_act input.actor.role ≡ true
      → 1 ≤ count (report_in input.report_snapshot_id input.workspace_id) db.report_snapshots
      → is_nil (reopened_links env db input.report_snapshot_id) ≡ true
      → t.id ≡ input.report_snapshot_id
      → env.client.create
          (approval_of t.id t.snapshot_hash)
          (approval_row env (data_of input) t)
          db.report_approvals
        ≡ some rows
      → IsApproved env db input (
        approval_result input (approval_row env (data_of input) t),
        record db { report_approvals = rows },
      )
  IsApproved-of {input} t rows admin reported unlinked same created =
      let row = approval_row env (data_of input) t in
      let conflict = approval_of t.id t.snapshot_hash in
      let active = active_approval_of t.id t.snapshot_hash in
      let counted = lawful.create_rows conflict row db.report_approvals rows created in
      let free = (lawful.create_conflict conflict row db.report_approvals).0 (rw created refl) in
      let own_row : active row ≡ true =
        rw ((str_eq_iff t.id t.id).1 refl, (str_eq_iff t.snapshot_hash t.snapshot_hash).1 refl)
          refl in
      let fewer = count-le active conflict db.report_approvals (λ a k. ground arith) in
      let one : count active rows ≡ 1 = ground (arith, counted active) in
      record {
        admin = admin;
        reported = reported;
        none_reopened = unlinked;
        none_before = rw (← same) free;
        active = rw (← same) one;
        row = row;
        row_id = same;
        rows = rows;
        counted = counted;
        tables_are = refl;
      }

  module _ (input : ApproveSnapshotInput) (out : ApproveSnapshotResult × Tables) where
    -- An approval that is given had an administrator, the report in the workspace, and no link of the
    -- report to a reopened close. Before it there was no approval of the report under the hash,
    -- whether active or revoked; after it exactly one is active. It has added a row to the approvals
    -- and changed nothing else.
    pub approve-IsApproved : approve_snapshot env db input ≡ ok out → IsApproved env db input out
    unfolding approve_snapshot
    approve-IsApproved h =
        let (admin, h1) = seq-ok (require (may_act input.actor.role) not_admin) _ h in
        let (s, (reported, h2)) =
          bind-ok
            (find_or
              (env.client.find_first (report_in input.report_snapshot_id input.workspace_id)
                db.report_snapshots)
              report_not_found)
            _ h1 in
        let (fresh, h3) =
          seq-ok (require (str_eq s.snapshot_hash input.expected_snapshot_hash) stale_hash) _ h2 in
        let (unlinked, h4) =
          seq-ok (require (is_nil (reopened_links env db s.id)) period_reopened) _ h3 in
        let (single, h5) =
          seq-ok
            (require
              (not (
                is_some (
                  env.client.find_first
                    (active_approval_of input.report_snapshot_id s.snapshot_hash)
                    db.report_approvals)))
              already_approved)
            _ h4 in
        let approve = approve_report_snapshot env db (data_of input) in
        let (made, (given, h6)) = bind-ok (map_err below approve) _ h5 in
        let (t, (rows, (same, (created, made_is)))) =
          approve_report-ok (data_of input) made (map_err-ok below approve given) in
        let (own, occurs) =
          lawful.find_first_some _ db.report_snapshots s (find_or-ok _ report_not_found reported) in
        let here : s.id ≡ input.report_snapshot_id = (str_eq_iff _ _).0 (ground arith) in
        subst (IsApproved env db input)
          (ap (λ m. (approval_result input m.0, m.1)) (sym made_is) ∙ ok_injective h6)
          (IsApproved-of t rows (require-ok _ _ admin) (occurs _ own)
            (rw (← here) (require-ok _ _ unlinked)) same created)
