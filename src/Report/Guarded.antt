-- ===== src/Report/Guarded.antt =====
-- When `prepareDispatch` and `executeDispatch` of server/services/reportApprovalDispatchService.ts return.
use finance.Prelude.{
  ◌≤◌, ◌≡◌, ◌↔◌, refl, arith, true, not, List, [], ◌∷◌, is_nil, is_truthy, String, str_eq,
  Bool-cases, inl, inr, ok,
}
use finance.Prelude.Sums.{count, count-le}
use finance.Database.{IsClient}
use finance.Close.Tables.{Recipient, ReportDispatch, Tables}
use finance.Close.Create.{Env}
use finance.Close.Reopen.{trim}
use finance.Report.Email.{codes, is_email, normalize_recipient_emails}
use finance.Report.Dispatch.{
  PrepareDispatchInput, PrepareDispatchResult, Mailer, ExecuteDispatchInput, ExecuteDispatchResult,
  same_dispatch, prepare_dispatch, execute_dispatch,
}
use finance.Report.Prepared.{row_of, prepare-MayPrepare}
use finance.Report.Executed.{execute-MayExecute}
use finance.Report.Allowed.{
  IsAdministrator, HasReport, HasApproval, HasPending, HasAddress, may_act-IsAdministrator,
  report_in-HasReport, active_approval-HasApproval, pending_dispatch-HasPending,
}

-- Nothing stands against the preparation: an administrator, a recipient, the report and an approval of it
-- that is not revoked, and neither the new identifier nor the key of the delivery is in use.
pub record CanPrepare (env : Env) (db : Tables) (input : PrepareDispatchInput) : Type 0 where
  pub actor_allowed : IsAdministrator input.actor.role
  pub addressed : not (is_nil input.recipients) ≡ true
  pub reported : HasReport db input.report_snapshot_id input.workspace_id
  pub approved : HasApproval db input.report_approval_id input.report_snapshot_id
  pub id_unused : count (λ (d : ReportDispatch). str_eq d.id env.new_id) db.report_dispatches ≡ 0
  pub key_unused :
      count (λ (d : ReportDispatch). str_eq d.delivery_key input.delivery_key) db.report_dispatches
      ≡ 0

-- Nothing stands against the sending: an administrator, a sender, a subject, a hash of the content, a
-- recipient with a valid address, the report, an approval that is not revoked and a dispatch that waits.
pub record CanExecute (mailer : Mailer) (db : Tables) (input : ExecuteDispatchInput) : Type 0 where
  pub actor_allowed : IsAdministrator input.actor.role
  pub from_given : is_truthy input.from_address ≡ true
  pub subject_given : is_truthy input.subject ≡ true
  pub content_given : is_truthy input.content_hash ≡ true
  pub addressed : HasAddress mailer.lower_case input.recipients
  pub reported : HasReport db input.report_snapshot_id input.workspace_id
  pub approved : HasApproval db input.report_approval_id input.report_snapshot_id
  pub waiting : HasPending db input

module _ (lower : String → String) where
  address_there :
      (rs : List Recipient)
      → not (is_nil (normalize_recipient_emails lower rs)) ≡ true
      → HasAddress lower rs
  unfolding normalize_recipient_emails
  address_there [] h = absurd (ground arith)
  address_there (r ∷ rs) h = elim (Bool-cases (is_email (codes (lower (trim r.email))))) [
    | inl e ↦ record { recipient = r; there = λ q t. rw t (omega arith); valid = e }
    | inr e ↦
        let later = address_there rs (rw e at h) in
        record {
          recipient = later.recipient;
          there = λ q t. let k = later.there q t in ground arith;
          valid = later.valid;
        }
  ]

  address_counts :
      (rs : List Recipient)
      → 1 ≤ count (λ (r : Recipient). is_email (codes (lower (trim r.email)))) rs
      → not (is_nil (normalize_recipient_emails lower rs)) ≡ true
  unfolding normalize_recipient_emails
  address_counts [] h = absurd (omega (arith, h))
  address_counts (r ∷ rs) h = elim (Bool-cases (is_email (codes (lower (trim r.email))))) [
    | inl e ↦ rw e refl
    | inr e ↦ rw e (address_counts rs (rw e at h))
  ]

unused_both :
    (d : ReportDispatch) (rows : List ReportDispatch)
    → count (λ (e : ReportDispatch). str_eq e.id d.id) rows ≡ 0
    → count (λ (e : ReportDispatch). str_eq e.delivery_key d.delivery_key) rows ≡ 0
    → count (same_dispatch d) rows ≡ 0
unused_both d [] h k = refl
unused_both d (e ∷ rows) h k = ground (arith, unused_both d rows)

module _ (env : Env) (lawful : IsClient env.client) (db : Tables) where
  -- `prepareDispatch` returns exactly when the actor has no role or is an administrator, there is a
  -- recipient, the report is in the workspace, the approval is one of that report and not revoked, and
  -- no dispatch has the new identifier or the key of the delivery.
  pub prepare_iff :
      (input : PrepareDispatchInput)
      → ((out : PrepareDispatchResult × Tables) × (prepare_dispatch env db input ≡ ok out))
        ↔ CanPrepare env db input
  prepare_iff input =
      let row = row_of env input in
      (
        λ returns.
            let may = (prepare-MayPrepare env lawful db input).0 returns in
            let fewer_ids =
              count-le (λ (d : ReportDispatch). str_eq d.id env.new_id) (same_dispatch row)
                db.report_dispatches (λ d h. rw h refl) in
            let fewer_keys =
              count-le (λ (d : ReportDispatch). str_eq d.delivery_key input.delivery_key)
                (same_dispatch row) db.report_dispatches (λ d h. ground arith) in
            record {
              actor_allowed = (may_act-IsAdministrator input.actor.role).0 may.admin;
              addressed = may.addressed;
              reported = (report_in-HasReport env.client lawful db _ _).0 may.reported;
              approved = (active_approval-HasApproval env.client lawful db _ _).0 may.approved;
              id_unused = omega (arith, may.free, fewer_ids);
              key_unused = omega (arith, may.free, fewer_keys);
            },
        λ can. (prepare-MayPrepare env lawful db input).1 (record {
          admin = (may_act-IsAdministrator input.actor.role).1 can.actor_allowed;
          addressed = can.addressed;
          reported = (report_in-HasReport env.client lawful db _ _).1 can.reported;
          approved = (active_approval-HasApproval env.client lawful db _ _).1 can.approved;
          free = unused_both row db.report_dispatches can.id_unused can.key_unused;
        }),
      )

  -- `executeDispatch` returns exactly when the actor has no role or is an administrator, a sender, a
  -- subject and a hash of the content are given, a recipient has a valid address, the report is in the
  -- workspace, the approval is one of that report and not revoked, and the dispatch is pending, of that
  -- report and under that approval; whatever the provider answers.
  pub execute_iff :
      (mailer : Mailer) (input : ExecuteDispatchInput)
      → ((out : ExecuteDispatchResult × Tables) × (execute_dispatch env mailer db input ≡ ok out))
        ↔ CanExecute mailer db input
  execute_iff mailer input = (
    λ returns.
        let may = (execute-MayExecute env mailer lawful db input).0 returns in
        record {
          actor_allowed = (may_act-IsAdministrator input.actor.role).0 may.admin;
          from_given = may.from_given;
          subject_given = may.subject_given;
          content_given = may.content_given;
          addressed = address_there mailer.lower_case input.recipients may.addressed;
          reported = (report_in-HasReport env.client lawful db _ _).0 may.reported;
          approved = (active_approval-HasApproval env.client lawful db _ _).0 may.approved;
          waiting = (pending_dispatch-HasPending env.client lawful db input).0 may.waiting;
        },
    λ can. (execute-MayExecute env mailer lawful db input).1 (record {
      admin = (may_act-IsAdministrator input.actor.role).1 can.actor_allowed;
      from_given = can.from_given;
      subject_given = can.subject_given;
      content_given = can.content_given;
      addressed =
          address_counts mailer.lower_case input.recipients
            (can.addressed.there _ can.addressed.valid);
      reported = (report_in-HasReport env.client lawful db _ _).1 can.reported;
      approved = (active_approval-HasApproval env.client lawful db _ _).1 can.approved;
      waiting = (pending_dispatch-HasPending env.client lawful db input).1 can.waiting;
    }),
  )
