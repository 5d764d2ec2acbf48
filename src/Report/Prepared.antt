-- ===== src/Report/Prepared.antt =====
-- What `prepareDispatch` asks for, and what it has written when it returns.
use finance.Prelude.{
  suc, ◌≤◌, ◌≡◌, ◌↔◌, refl, arith, Bool, true, not, none, some, List, is_nil, is_some, Option-cases,
  inl, inr, ok, require, map_err, seq-ok, bind-ok, require-ok, map_err-ok, ok_injective, sym,
  if◌then◌else◌,
}
use finance.Prelude.Sums.{count}
use finance.Database.{Client, IsClient}
use finance.Close.{PeriodCloseError}
use finance.Close.Tables.{ReportDispatch, Tables}
use finance.Close.Create.{Env}
use finance.Close.Strict.{find_or}
use finance.Close.Agreed.{find_or-ok}
use finance.Report.{not_admin, no_recipients, report_not_found, no_active_approval, below, may_act}
use finance.Report.Approve.{report_in}
use finance.Report.Dispatch.{
  CreateReportDispatchInput, PrepareDispatchInput, PrepareDispatchResult, active_approval,
  new_dispatch, same_dispatch, dispatch_data, prepare_result, create_report_dispatch,
  prepare_dispatch,
}

-- A row that passes is found, and one that is found passes.
module _ (client : Client) (lawful : IsClient client) {A : Type 0} (p : A → Bool)
    (rows : List A) where
  pub found-count : (a : A) → client.find_first p rows ≡ some a → 1 ≤ count p rows
  found-count a h = let (passes, occurs) = lawful.find_first_some p rows a h in occurs p passes

  pub find_first_of_count : 1 ≤ count p rows → (a : A) × (client.find_first p rows ≡ some a)
  find_first_of_count h = elim (Option-cases (client.find_first p rows)) [
    | inl e ↦ absurd (omega (arith, lawful.find_first_none p rows e))
    | inr found ↦ found
  ]

  pub create_of_count :
      (a : A) → count p rows ≡ 0 → (rows' : List A) × (client.create p a rows ≡ some rows')
  create_of_count a h = elim (Option-cases (client.create p a rows)) [
    | inl e ↦ absurd (is_some_none (rw e at ((lawful.create_conflict p a rows).1 h)))
    | inr made ↦ made
  ]
    where
      is_some_none : is_some {A = List A} none ≡ true → ⊥
      is_some_none h = ground arith

abbrev pub row_of : Env → PrepareDispatchInput → ReportDispatch
row_of env input = new_dispatch env (dispatch_data input)

-- The guards of `prepareDispatch`.
pub record MayPrepare (env : Env) (db : Tables) (input : PrepareDispatchInput) : Type 0 where
  pub admin : may_act input.actor.role ≡ true
  pub addressed : not (is_nil input.recipients) ≡ true
  pub reported :
      1 ≤ count (report_in input.report_snapshot_id input.workspace_id) db.report_snapshots
  pub approved :
      1
      ≤ count
          (active_approval input.report_approval_id input.report_snapshot_id)
          db.report_approvals
  pub free : count (same_dispatch (row_of env input)) db.report_dispatches ≡ 0

-- What is written: the row of a pending dispatch, beside those that were there.
pub record IsPrepared (env : Env) (db : Tables) (input : PrepareDispatchInput)
    (out : PrepareDispatchResult × Tables) : Type 0 where
  pub may : MayPrepare env db input
  pub rows : List ReportDispatch
  pub counted :
      (q : ReportDispatch → Bool)
      → count q rows ≡ (
          if q (row_of env input)
          then suc (count q db.report_dispatches)
          else count q db.report_dispatches)
  pub out_is :
      out ≡ (prepare_result input (row_of env input), record db { report_dispatches = rows })

module _ (env : Env) (lawful : IsClient env.client) (db : Tables)
    (input : CreateReportDispatchInput) where
  create_dispatch-ok :
      (made : ReportDispatch × Tables)
      → create_report_dispatch env db input ≡ ok made
      → (rows : List ReportDispatch) × ((env.client.create
              (same_dispatch (new_dispatch env input))
              (new_dispatch env input)
              db.report_dispatches
            ≡ some rows)
          × (made ≡ (new_dispatch env input, record db { report_dispatches = rows })))
  unfolding create_report_dispatch
  create_dispatch-ok made h =
      let (given, h1) =
        seq-ok (require (not (is_nil input.recipients)) PeriodCloseError.no_recipients) _ h in
      let (approval, (approved, h2)) =
        bind-ok
          (find_or
            (env.client.find_first
              (active_approval input.report_approval_id input.report_snapshot_id)
              db.report_approvals)
            PeriodCloseError.no_active_approval)
          _ h1 in
      let row = new_dispatch env input in
      let (rows, (created, h3)) =
        bind-ok
          (find_or (env.client.create (same_dispatch row) row db.report_dispatches)
            PeriodCloseError.dispatch_refused)
          _ h2 in
      (rows, (find_or-ok _ PeriodCloseError.dispatch_refused created, sym (ok_injective h3)))

module _ (env : Env) (lawful : IsClient env.client) (db : Tables)
    (input : PrepareDispatchInput) where
  -- A call of `prepareDispatch` that returns had an administrator, recipients, the report in the
  -- workspace, an approval of it that is not revoked, and a key and an identifier that no dispatch
  -- has. It has written one dispatch, which is pending, and nothing else.
  pub prepare-IsPrepared :
      (out : PrepareDispatchResult × Tables)
      → prepare_dispatch env db input ≡ ok out
      → IsPrepared env db input out
  unfolding prepare_dispatch
  prepare-IsPrepared out h =
      let (admin, h1) = seq-ok (require (may_act input.actor.role) not_admin) _ h in
      let (given, h2) = seq-ok (require (not (is_nil input.recipients)) no_recipients) _ h1 in
      let (snapshot, (reported, h3)) =
        bind-ok
          (find_or
            (env.client.find_first (report_in input.report_snapshot_id input.workspace_id)
              db.report_snapshots)
            report_not_found)
          _ h2 in
      let (approval, (approved, h4)) =
        bind-ok
          (find_or
            (env.client.find_first
              (active_approval input.report_approval_id input.report_snapshot_id)
              db.report_approvals)
            no_active_approval)
          _ h3 in
      let create = create_report_dispatch env db (dispatch_data input) in
      let (made, (created, h5)) = bind-ok (map_err below create) _ h4 in
      let (rows, (added, made_is)) =
        create_dispatch-ok env lawful db (dispatch_data input) made
          (map_err-ok below create created) in
      let row = row_of env input in
      record {
        may = record {
          admin = require-ok _ _ admin;
          addressed = require-ok _ _ given;
          reported =
              found-count env.client lawful _ _ snapshot (find_or-ok _ report_not_found reported);
          approved =
              found-count env.client lawful _ _ approval (find_or-ok _ no_active_approval approved);
          free =
              (lawful.create_conflict (same_dispatch row) row db.report_dispatches).0
                (rw added refl);
        };
        rows = rows;
        counted = lawful.create_rows (same_dispatch row) row db.report_dispatches rows added;
        out_is = rw (← ok_injective h5, made_is) refl;
      }

  -- `prepareDispatch` returns exactly when its guards pass.
  pub prepare-MayPrepare :
      ((out : PrepareDispatchResult × Tables) × (prepare_dispatch env db input ≡ ok out))
      ↔ MayPrepare env db input
  unfolding prepare_dispatch create_report_dispatch
  prepare-MayPrepare = (
    λ (out, h). (prepare-IsPrepared out h).may,
    λ may.
        let (snapshot, reported) =
          find_first_of_count env.client lawful
            (report_in input.report_snapshot_id input.workspace_id) db.report_snapshots
            may.reported in
        let (approval, approved) =
          find_first_of_count env.client lawful
            (active_approval input.report_approval_id input.report_snapshot_id) db.report_approvals
            may.approved in
        let row = row_of env input in
        let (rows, made) =
          create_of_count env.client lawful (same_dispatch row) db.report_dispatches row may.free in
        (
          (prepare_result input row, record db { report_dispatches = rows }),
          rw (may.admin, may.addressed, reported, approved, made) refl,
        ),
  )
