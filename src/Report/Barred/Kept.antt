-- ===== src/Report/Barred/Kept.antt =====
-- Every step of the services keeps a report from being sent that is barred.
use mathlib.Core.Path.{subst}
use finance.Prelude.{
  suc, ◌≡◌, arith, Bool, false, List, [], ◌∷◌, String, str_eq, str_eq_iff, if◌then◌else◌,
  Bool-cases, inl, inr, sym, ◌∙◌,
}
use finance.Prelude.Sums.{count, count-le}
use finance.Close.Tables.{PeriodClose, ReportDispatch, Tables}
use finance.Close.Create.{Env, close_row}
use finance.Close.Created.{create_period_close-IsCreated}
use finance.Close.Agreed.{strict-IsAgreed}
use finance.Close.Strict.Run.{close_data}
use finance.Close.Reopen.{AuditedReopenInput, AuditedReopenResult, active_for, reopen_row}
use finance.Close.Reachable.{reopened_in, IsReopened, reopen-IsReopened}
use finance.Report.Prepared.{prepare-IsPrepared}
use finance.Report.Executed.{execute-IsExecuted}
use finance.Report.Approved.{approve-IsApproved}
use finance.Report.Recorded.{create-IsRecorded}
use finance.Report.Trace.{
  Step, strict_close, reopen, record_report, approve, prepare, execute, Trace, here, then_step,
}
use finance.Report.Barred.{link_between, has_id, still_open, IsBarred, barred-not_approved}

module _ (snap close : String) where
  -- A close that is written under a new identifier is not the reopened one.
  keep-close :
      (db : Tables) (rows : List PeriodClose) (row : PeriodClose)
      → ((q : PeriodClose → Bool)
          → count q rows
            ≡ (if q row then suc (count q db.period_closes) else count q db.period_closes))
      → count (λ (c : PeriodClose). str_eq c.id row.id) db.period_closes ≡ 0
      → IsBarred snap close db
      → IsBarred snap close (record db { period_closes = rows })
  keep-close db rows row counted fresh barred =
      let other : str_eq row.id close ≡ false = elim (Bool-cases (str_eq row.id close)) [
        | inl e ↦
            let same : row.id ≡ close = (str_eq_iff _ _).0 e in
            absurd (omega (arith, rw same at fresh, barred.there))
        | inr e ↦ e
      ] in
      record {
        linked = barred.linked;
        there = ground (arith, counted (has_id close), barred.there);
        reopened_all = ground (arith, counted (still_open close), barred.reopened_all);
        inactive = barred.inactive;
      }

  keep-dispatch :
      (db : Tables) (rows : List ReportDispatch)
      → IsBarred snap close db
      → IsBarred snap close (record db { report_dispatches = rows })
  keep-dispatch db rows barred = record {
    linked = barred.linked;
    there = barred.there;
    reopened_all = barred.reopened_all;
    inactive = barred.inactive;
  }

  keep-reopen :
      (env : Env) (db : Tables) (input : AuditedReopenInput) (out : AuditedReopenResult × Tables)
      → IsReopened env db input out
      → IsBarred snap close db
      → IsBarred snap close out.1
  unfolding reopen_row
  keep-reopen env db input out r barred =
      let fewer =
        count-le (has_id close) (λ c. has_id close (reopened_in env input c)) db.period_closes
          (λ c h. ground arith) in
      let none_more =
        count-le (λ c. still_open close (reopened_in env input c)) (still_open close)
          db.period_closes (λ c h. ground arith) in
      record {
        linked = rw r.untouched barred.linked;
        there = omega (arith, r.counted (has_id close), fewer, barred.there);
        reopened_all = omega (arith, r.counted (still_open close), none_more, barred.reopened_all);
        inactive = omega (arith, r.none_activated (snap ∷ []), barred.inactive);
      }

  Step-IsBarred : (db db' : Tables) → Step db db' → IsBarred snap close db → IsBarred snap close db'
  unfolding close_data close_row
  Step-IsBarred _ _ (strict_close env lawful db input out fresh h) barred =
      let agreed = (strict-IsAgreed env db input lawful out h).1.1 in
      let c = create_period_close-IsCreated env db _ agreed.made agreed.created in
      rw (agreed.tables_are, c.made_is)
        (keep-close db c.rows _ (lawful.create_rows _ _ db.period_closes c.rows c.rows_are) fresh
          barred)
  Step-IsBarred _ _ (reopen env lawful db input out h) barred =
      keep-reopen env db input out (reopen-IsReopened env lawful db input out h) barred
  Step-IsBarred _ _ (record_report env lawful db input out h) barred =
      let r = create-IsRecorded env lawful db input out h in
      record {
        linked = omega (arith, r.links (link_between snap close), barred.linked);
        there = rw r.untouched barred.there;
        reopened_all = rw r.untouched barred.reopened_all;
        inactive = rw r.untouched barred.inactive;
      }
  Step-IsBarred _ _ (approve env lawful db input out h) barred =
      let a = approve-IsApproved env lawful db input out h in
      let other : str_eq a.row.report_snapshot_id snap ≡ false =
        elim (Bool-cases (str_eq a.row.report_snapshot_id snap)) [
          | inl e ↦ absurd (
              barred-not_approved db barred env lawful input out
                (sym a.row_id ∙ (str_eq_iff _ _).0 e) h)
          | inr e ↦ e
        ] in
      rw a.tables_are (record {
        linked = barred.linked;
        there = barred.there;
        reopened_all = barred.reopened_all;
        inactive = ground (arith, a.counted (active_for (snap ∷ [])), barred.inactive);
      })
  Step-IsBarred _ _ (prepare env lawful db input out h) barred =
      let p = prepare-IsPrepared env lawful db input out h in
      subst (λ o. IsBarred snap close o.1) (sym p.out_is) (keep-dispatch db p.rows barred)
  Step-IsBarred _ _ (execute env lawful mailer db input out h) barred =
      let x = execute-IsExecuted env mailer lawful db input out h in
      subst (λ o. IsBarred snap close o.1) (sym x.out_is) (keep-dispatch db x.rows barred)

  pub Trace-IsBarred :
      (from db : Tables) → Trace from db → IsBarred snap close from → IsBarred snap close db
  Trace-IsBarred from db here barred = barred
  Trace-IsBarred from db (then_step before after t s) barred =
      Step-IsBarred before after s (Trace-IsBarred from before t barred)
