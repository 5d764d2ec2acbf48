-- ===== src/Report/Barred.antt =====
-- A report that is linked to a reopened close and has no active approval: none of it is sent.
pub mod Kept
pub mod Never
use mathlib.Core.Path.{subst}
use mathlib.Core.Bool.{true≢false}
use finance.Prelude.{
  ◌≤◌, ◌≡◌, refl, arith, Bool, true, false, not, ◌&&◌, Option, none, some, List, [], ◌∷◌, String,
  str_eq, str_eq_iff, is_nil, is_some, select, if◌then◌else◌, Bool-cases, Option-cases, inl, inr,
  ok, sym, ◌∙◌,
}
use finance.Prelude.Sums.{count, count-le, count-append}
use finance.Database.{IsClient}
use finance.Close.Tables.{PeriodClose, ReportApproval, ReportSnapshotLink, Tables}
use finance.Close.Create.{Env, close_row}
use finance.Close.Created.{create_period_close-IsCreated, new_row}
use finance.Close.Agreed.{strict-IsAgreed}
use finance.Close.Strict.Run.{close_data}
use finance.Close.Reopen.{
  AuditedReopenInput, AuditedReopenResult, active_for, contains, linked_snapshots, reopen_row,
  execute_audited_reopen,
}
use finance.Close.Revoked.{contains-count}
use finance.Close.Reachable.{reopened_in, IsReopened, reopen-IsReopened}
use finance.Report.Approve.{
  ApproveSnapshotInput, ApproveSnapshotResult, found_reopened, is_reopened, linked_close,
  reopened_links, approve_snapshot,
}
use finance.Report.Dispatch.{
  Mailer, PrepareDispatchInput, PrepareDispatchResult, ExecuteDispatchInput, ExecuteDispatchResult,
  active_approval, prepare_dispatch, execute_dispatch,
}
use finance.Report.Prepared.{prepare-IsPrepared, find_first_of_count}
use finance.Report.Executed.{execute-IsExecuted}
use finance.Report.Approved.{approve-IsApproved}
use finance.Report.Recorded.{create-IsRecorded}
use finance.Report.Trace.{
  Step, strict_close, reopen, record_report, approve, prepare, execute, Trace, here, then_step,
}

abbrev pub link_between : String → String → ReportSnapshotLink → Bool
link_between snap close l = str_eq l.report_snapshot_id snap && str_eq l.period_close_id close

abbrev pub has_id : String → PeriodClose → Bool
has_id close c = str_eq c.id close

abbrev pub still_open : String → PeriodClose → Bool
still_open close c = str_eq c.id close && not (is_reopened c.status)

-- A report that is linked to a close which is reopened, and has no active approval.
pub record IsBarred (snap close : String) (db : Tables) : Type 0 where
  pub linked : 1 ≤ count (link_between snap close) db.report_snapshot_links
  pub there : 1 ≤ count (has_id close) db.period_closes
  pub reopened_all : count (still_open close) db.period_closes ≡ 0
  pub inactive : count (active_for (snap ∷ [])) db.report_approvals ≡ 0

-- A selection that some row passes is not empty.
select_not_nil :
    {A : Type 0} (p : A → Bool) (xs : List A) → 1 ≤ count p xs → is_nil (select p xs) ≡ false
select_not_nil p [] h = absurd (ground arith)
select_not_nil p (x ∷ xs) h = elim (Bool-cases (p x)) [
  | inl e ↦ rw e refl
  | inr e ↦ rw e (select_not_nil p xs (rw e at h))
]

module _ {snap close : String} (db : Tables) (barred : IsBarred snap close db) (env : Env)
    (lawful : IsClient env.client) where
  link_is_reopened :
      (l : ReportSnapshotLink)
      → str_eq l.period_close_id close ≡ true
      → found_reopened (linked_close env db l) ≡ true
  link_is_reopened l h =
      let same : l.period_close_id ≡ close = (str_eq_iff _ _).0 h in
      let (c, found) =
        find_first_of_count env.client lawful (λ x. str_eq x.id l.period_close_id) db.period_closes
          (rw same barred.there) in
      let (own, occurs) = lawful.find_first_some _ db.period_closes c found in
      elim (Bool-cases (is_reopened c.status)) [
        | inl e ↦ rw found e
        | inr e ↦
            let once = occurs (still_open close) (rw (← same, own, e) refl) in
            absurd (omega (arith, once, barred.reopened_all))
      ]

  -- The report has a link to a reopened close.
  some_reopened : is_nil (reopened_links env db snap) ≡ false
  unfolding reopened_links
  some_reopened =
      let mine = λ (l : ReportSnapshotLink). str_eq l.report_snapshot_id snap in
      let bad = λ (l : ReportSnapshotLink). found_reopened (linked_close env db l) in
      let found = lawful.find_many_rows mine bad db.report_snapshot_links in
      let fewer =
        count-le (link_between snap close) (λ l. mine l && bad l) db.report_snapshot_links
          (λ l h. rw (link_is_reopened l (ground arith)) (ground arith)) in
      select_not_nil bad _ (omega (arith, found, fewer, barred.linked))

  active_is_active :
      (id : String) (a : ReportApproval)
      → active_approval id snap a ≡ true
      → active_for (snap ∷ []) a ≡ true
  active_is_active id a h = ground arith

  none_to_use : (id : String) → count (active_approval id snap) db.report_approvals ≤ 0
  none_to_use id = omega (
    arith,
    count-le (active_approval id snap) (active_for (snap ∷ [])) db.report_approvals
        (active_is_active id),
    barred.inactive,
  )

  pub barred-not_approved :
      (input : ApproveSnapshotInput) (out : ApproveSnapshotResult × Tables)
      → input.report_snapshot_id ≡ snap
      → approve_snapshot env db input ≡ ok out
      → ⊥
  barred-not_approved input out same h = true≢false (
      sym (approve-IsApproved env lawful db input out h).none_reopened
      ∙ subst (λ s. is_nil (reopened_links env db s) ≡ false) (sym same) some_reopened)

  pub barred-not_prepared :
      (input : PrepareDispatchInput) (out : PrepareDispatchResult × Tables)
      → input.report_snapshot_id ≡ snap
      → prepare_dispatch env db input ≡ ok out
      → ⊥
  barred-not_prepared input out same h =
      let approved = (prepare-IsPrepared env lawful db input out h).may.approved in
      let none_there = none_to_use input.report_approval_id in
      omega (arith, rw same at approved, none_there)

  pub barred-not_sent :
      (mailer : Mailer) (input : ExecuteDispatchInput) (out : ExecuteDispatchResult × Tables)
      → input.report_snapshot_id ≡ snap
      → execute_dispatch env mailer db input ≡ ok out
      → ⊥
  barred-not_sent mailer input out same h =
      let approved = (execute-IsExecuted env mailer lawful db input out h).may.approved in
      let none_there = none_to_use input.report_approval_id in
      omega (arith, rw same at approved, none_there)
