-- ===== src/Report/Allowed.antt =====
-- What `prepareDispatch` and `executeDispatch` of server/services/reportApprovalDispatchService.ts need to be
-- there, and that their filters find it.
use finance.Prelude.{
  ◌≤◌, ◌≡◌, ◌⊎◌, ◌↔◌, refl, arith, Bool, true, not, Option, none, some, List, is_some, String,
  str_eq, str_eq_iff, Bool-cases, inl, inr, ap,
}
use finance.Prelude.Sums.{count}
use finance.Database.{Occurs, Client, IsClient}
use finance.Close.Tables.{
  ReportApproval, ReportSnapshot, ReportDispatch, DispatchStatus, pending, Recipient, Tables,
}
use finance.Close.Reopen.{trim}
use finance.Report.{may_act}
use finance.Report.Approve.{report_in}
use finance.Report.Email.{codes, is_email}
use finance.Report.Dispatch.{active_approval, ExecuteDispatchInput, is_pending, pending_dispatch}
use finance.Report.Prepared.{find_first_of_count}

-- The actor is an administrator or has no role.
abbrev pub IsAdministrator : Option String → Type 0
IsAdministrator role = (role ≡ none) ⊎ ((role ≡ some "") ⊎ (role ≡ some "admin"))

-- The report, in the workspace.
pub record HasReport (db : Tables) (id workspace : String) : Type 0 where
  pub report : ReportSnapshot
  pub there : Occurs report db.report_snapshots
  pub report_id : report.id ≡ id
  pub report_workspace : report.workspace_id ≡ workspace

-- An approval of the report that is not revoked.
pub record HasApproval (db : Tables) (id report : String) : Type 0 where
  pub approval : ReportApproval
  pub there : Occurs approval db.report_approvals
  pub approval_id : approval.id ≡ id
  pub approves : approval.report_snapshot_id ≡ report
  pub not_revoked : approval.revoked_at ≡ none

-- The dispatch, of the report and under the approval, which waits.
pub record HasPending (db : Tables) (input : ExecuteDispatchInput) : Type 0 where
  pub dispatch : ReportDispatch
  pub there : Occurs dispatch db.report_dispatches
  pub dispatch_id : dispatch.id ≡ input.dispatch_id
  pub dispatch_report : dispatch.report_snapshot_id ≡ input.report_snapshot_id
  pub dispatch_approval : dispatch.report_approval_id ≡ input.report_approval_id
  pub waits : dispatch.status ≡ pending

-- A recipient with an address that has the form of one, in lower case and without space around it.
pub record HasAddress (lower : String → String) (recipients : List Recipient) : Type 0 where
  pub recipient : Recipient
  pub there : Occurs recipient recipients
  pub valid : is_email (codes (lower (trim recipient.email))) ≡ true

pub may_act-IsAdministrator : (role : Option String) → (may_act role ≡ true) ↔ IsAdministrator role
may_act-IsAdministrator none = (λ h. inl refl, λ h. refl)
may_act-IsAdministrator (some r) = (
  λ h. elim (Bool-cases (str_eq r "")) [
    | inl e ↦ inr (inl (ap some ((str_eq_iff r "").0 e)))
    | inr e ↦
        let is_admin : str_eq r "admin" ≡ true = ground arith in
        inr (inr (ap some ((str_eq_iff r "admin").0 is_admin)))
  ],
  λ h. elim h [
    | inl e ↦ absurd cc
    | inr k ↦ elim k [
      | inl e ↦ let same : r ≡ "" = cc in rw ((str_eq_iff r "").1 same) refl
      | inr e ↦ let same : r ≡ "admin" = cc in rw same refl
    ]
  ],
)

-- A test that is passed somewhere is passed by a row that is there.
pub row_of_count :
    (client : Client) (lawful : IsClient client) {A : Type 0} (p : A → Bool) (rows : List A)
    → 1 ≤ count p rows
    → (a : A) × ((p a ≡ true) × Occurs a rows)
row_of_count client lawful p rows h =
    let (a, found) = find_first_of_count client lawful p rows h in
    (a, lawful.find_first_some p rows a found)

none_of_not_some : {A : Type 0} (o : Option A) → not (is_some o) ≡ true → o ≡ none
none_of_not_some none h = refl
none_of_not_some (some a) h = absurd (ground arith)

is_pending-pending : (s : DispatchStatus) → is_pending s ≡ true → s ≡ pending
is_pending-pending DispatchStatus.pending h = refl
is_pending-pending DispatchStatus.sent h = absurd cc
is_pending-pending DispatchStatus.failed h = absurd cc

module _ (client : Client) (lawful : IsClient client) (db : Tables) where
  pub report_in-HasReport :
      (id workspace : String)
      → (1 ≤ count (report_in id workspace) db.report_snapshots) ↔ HasReport db id workspace
  report_in-HasReport id workspace = (
    λ h.
        let (row, (passes, there)) = row_of_count client lawful _ db.report_snapshots h in
        let named : str_eq row.id id ≡ true = ground arith in
        let own : str_eq row.workspace_id workspace ≡ true = ground arith in
        record {
          report = row;
          there = there;
          report_id = (str_eq_iff _ _).0 named;
          report_workspace = (str_eq_iff _ _).0 own;
        },
    λ k.
        k.there (report_in id workspace)
          (rw ((str_eq_iff _ _).1 k.report_id, (str_eq_iff _ _).1 k.report_workspace) refl),
  )

  pub active_approval-HasApproval :
      (id report : String)
      → (1 ≤ count (active_approval id report) db.report_approvals) ↔ HasApproval db id report
  active_approval-HasApproval id report = (
    λ h.
        let (row, (passes, there)) = row_of_count client lawful _ db.report_approvals h in
        let named : str_eq row.id id ≡ true = ground arith in
        let own : str_eq row.report_snapshot_id report ≡ true = ground arith in
        let valid_yet : not (is_some row.revoked_at) ≡ true = ground arith in
        record {
          approval = row;
          there = there;
          approval_id = (str_eq_iff _ _).0 named;
          approves = (str_eq_iff _ _).0 own;
          not_revoked = none_of_not_some row.revoked_at valid_yet;
        },
    λ k.
        k.there (active_approval id report) (
          rw ((str_eq_iff _ _).1 k.approval_id, (str_eq_iff _ _).1 k.approves, k.not_revoked) refl),
  )

  pub pending_dispatch-HasPending :
      (input : ExecuteDispatchInput)
      → (1 ≤ count (pending_dispatch input) db.report_dispatches) ↔ HasPending db input
  pending_dispatch-HasPending input = (
    λ h.
        let (row, (passes, there)) = row_of_count client lawful _ db.report_dispatches h in
        let named : str_eq row.id input.dispatch_id ≡ true = ground arith in
        let of_report : str_eq row.report_snapshot_id input.report_snapshot_id ≡ true =
          ground arith in
        let under : str_eq row.report_approval_id input.report_approval_id ≡ true = ground arith in
        let waiting : is_pending row.status ≡ true = ground arith in
        record {
          dispatch = row;
          there = there;
          dispatch_id = (str_eq_iff _ _).0 named;
          dispatch_report = (str_eq_iff _ _).0 of_report;
          dispatch_approval = (str_eq_iff _ _).0 under;
          waits = is_pending-pending row.status waiting;
        },
    λ k. k.there (pending_dispatch input) (
        rw
          (
            (str_eq_iff _ _).1 k.dispatch_id,
            (str_eq_iff _ _).1 k.dispatch_report,
            (str_eq_iff _ _).1 k.dispatch_approval,
            k.waits,
          )
          refl),
  )
