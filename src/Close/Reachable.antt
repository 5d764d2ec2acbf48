-- ===== src/Close/Reachable.antt =====
-- The states that strict closes and audited reopenings lead to, and what holds in all of them.
use finance.Prelude.{
  ◌≤◌, ◌≡◌, refl, arith, Bool, List, String, if◌then◌else◌, true, false, ◌&&◌, str_eq, str_eq_iff,
  or_else, ok, require, seq-ok, bind-ok, require-ok, ok_injective,
}
use finance.Prelude.Sums.{count}
use finance.Database.{IsClient}
use finance.Close.Tables.{PeriodClose, Tables}
use finance.Close.Create.{Env}
use finance.Close.Strict.{
  StrictPeriodCloseInput, StrictPeriodCloseResult, has_ink, is_closed, find_or,
}
use finance.Close.Strict.Run.{close_data, execute_strict_period_close}
use finance.Close.Agreed.{find_or-ok, strict-IsAgreed}
use finance.Close.Sound.{IsSound, create-IsSound}
use finance.Close.Revoked.{
  reopen-IsSound, reopen-none_closed, none_active, count-active, none_activated,
}
use finance.Close.Reopen.{
  AuditedReopenInput, AuditedReopenResult, not_admin, reason_missing, period_close_not_found,
  update_failed, not_closed, may_reopen, trim, reopen_row, active_for, linked_snapshots, reopen_log,
  reopen_result, reopen_rows, execute_audited_reopen,
}

-- A row of the closes after the reopening.
abbrev pub reopened_in : Env → AuditedReopenInput → PeriodClose → PeriodClose
reopened_in env input c =
    if str_eq c.id input.period_close_id
    then reopen_row (or_else input.actor.actor_id input.actor.user_id) env.now (trim input.reason) c
    else c

-- The close that is reopened was closed and is not any more, no approval of a report on it is active,
-- and the number of approvals that are reported as revoked is that of those that were active. What the
-- code does not touch is as it was, and no approval becomes active.
pub record IsReopened (env : Env) (db : Tables) (input : AuditedReopenInput)
    (out : AuditedReopenResult × Tables) : Type 0 where
  pub was_closed : is_closed out.0.prior_status ≡ true
  pub none_closed :
      count (λ c. str_eq c.id input.period_close_id && is_closed c.status) out.1.period_closes ≡ 0
  pub none_active :
      count (active_for (linked_snapshots env db input.period_close_id)) out.1.report_approvals ≡ 0
  pub revoked :
      out.0.revoked_approval_count
      ≡ count (active_for (linked_snapshots env db input.period_close_id)) db.report_approvals
  pub keeps_sound : IsSound db.period_closes → IsSound out.1.period_closes
  pub there : 1 ≤ count (λ c. str_eq c.id input.period_close_id) db.period_closes
  pub counted :
      (q : PeriodClose → Bool)
      → count q out.1.period_closes ≡ count (λ c. q (reopened_in env input c)) db.period_closes
  pub none_activated :
      (ids : List String)
      → count (active_for ids) out.1.report_approvals ≤ count (active_for ids) db.report_approvals
  pub untouched : out.1 ≡ record db {
    period_closes = out.1.period_closes;
    report_approvals = out.1.report_approvals;
    audit_logs = out.1.audit_logs;
  }

module _ (env : Env) (lawful : IsClient env.client) (db : Tables) (input : AuditedReopenInput)
    (out : AuditedReopenResult × Tables) where
  -- A reopening that succeeds found a close that was closed. After it no row with the identifier of
  -- the close is closed, and no approval of a report that is linked to the close is active; the
  -- number of revoked approvals that it returns is that of those that were active before; and if no
  -- ledger had two open closes nor two closes of one version, that holds after it. Every row of the
  -- closes with the identifier is reopened and the others are as they were, no approval has become
  -- active, and only closes, approvals and the audit log are touched.
  pub reopen-IsReopened : execute_audited_reopen env db input ≡ ok out → IsReopened env db input out
  unfolding execute_audited_reopen reopen_rows reopen_result
  reopen-IsReopened h =
      let by = or_else input.actor.actor_id input.actor.user_id in
      let row = reopen_row by env.now (trim input.reason) in
      let named = λ (c : PeriodClose). str_eq c.id input.period_close_id in
      let (admin, h1) = seq-ok (require (may_reopen input.actor.role) not_admin) _ h in
      let (given, h2) = seq-ok (require (has_ink input.reason) reason_missing) _ h1 in
      let (prior, (found, h3)) =
        bind-ok
          (find_or
            (env.client.find_first
              (λ c. str_eq c.id input.period_close_id && str_eq c.workspace_id input.workspace_id)
              db.period_closes)
            period_close_not_found)
          _ h2 in
      let (was_closed, h4) =
        seq-ok (require (is_closed prior.status) (not_closed prior.status)) _ h3 in
      let (updated, (changed, h5)) =
        bind-ok (find_or (env.client.update named row db.period_closes) update_failed) _ h4 in
      let (logs, (logged, h6)) =
        bind-ok
          (find_or (env.client.create (λ l. false) (reopen_log input) db.audit_logs) update_failed)
          _ h5 in
      let counted =
        lawful.update_rows named row db.period_closes updated.0 updated.1
          (find_or-ok _ update_failed changed) in
      let own =
        lawful.find_first_some _ db.period_closes prior
          (find_or-ok _ period_close_not_found found) in
      let own_id = own.0 in
      let same : prior.id ≡ input.period_close_id = (str_eq_iff _ _).0 (ground arith) in
      rw (← ok_injective h6) (record {
        was_closed = require-ok _ _ was_closed;
        none_closed = reopen-none_closed named by env.now (trim input.reason) _ _ counted;
        none_active =
            rw (← same) (none_active env lawful db by _ (linked_snapshots env db prior.id));
        revoked = rw (← same) (count-active env lawful db by by (linked_snapshots env db prior.id));
        keeps_sound = reopen-IsSound named by env.now (trim input.reason) _ _ counted;
        there = own.1 named (rw same ((str_eq_iff _ _).1 refl));
        counted = counted;
        none_activated = none_activated env lawful by _ db.report_approvals _;
        untouched = refl;
      })

-- One transaction on the tables: a strict close or an audited reopening that succeeds, with the
-- identifier and the time that it is given.
pub data Step : Tables → Tables → Type 1 where
  strict_close :
      (env : Env)
      → IsClient env.client
      → (db : Tables) → (input : StrictPeriodCloseInput) → (out : StrictPeriodCloseResult × Tables)
      → execute_strict_period_close env db input ≡ ok out
      → Step db out.1
  audited_reopen :
      (env : Env)
      → IsClient env.client
      → (db : Tables) → (input : AuditedReopenInput) → (out : AuditedReopenResult × Tables)
      → execute_audited_reopen env db input ≡ ok out
      → Step db out.1

pub data Reachable (from : Tables) : Tables → Type 1 where
  start : Reachable from from
  then_step : (db db' : Tables) → Reachable from db → Step db db' → Reachable from db'

Step-IsSound :
    (db db' : Tables) → Step db db' → IsSound db.period_closes → IsSound db'.period_closes
unfolding close_data
Step-IsSound _ _ (strict_close env lawful db input out h) sound =
    let (admin, (none_open, agreed)) = strict-IsAgreed env db input lawful out h in
    rw agreed.tables_are (create-IsSound env lawful db _ agreed.made agreed.created none_open sound)
Step-IsSound _ _ (audited_reopen env lawful db input out h) sound =
    (reopen-IsReopened env lawful db input out h).keeps_sound sound

-- In every state that strict closes and audited reopenings lead to from one in which no ledger has
-- two open closes and no version is given twice, that holds again.
pub Reachable-IsSound :
    (from db : Tables) → IsSound from.period_closes → Reachable from db → IsSound db.period_closes
Reachable-IsSound from db sound start = sound
Reachable-IsSound from db sound (then_step before after r s) =
    Step-IsSound before after s (Reachable-IsSound from before sound r)
