-- ===== src/Report/Delivery/Once.antt =====
-- A dispatch is sent at most once, and one that is prepared can be sent.
use mathlib.Core.Path.{subst}
use finance.Prelude.{
  ◌≤◌, ◌≡◌, refl, arith, Bool, true, false, not, String, str_eq_iff, is_truthy, is_nil,
  if◌then◌else◌, ok, sym, ap, ◌∙◌,
}
use finance.Prelude.Sums.{count}
use finance.Database.{IsClient}
use finance.Close.Tables.{Tables}
use finance.Close.Create.{Env}
use finance.Report.{may_act}
use finance.Report.Email.{normalize_recipient_emails}
use finance.Report.Dispatch.{
  Mailer, PrepareDispatchInput, PrepareDispatchResult, ExecuteDispatchInput, ExecuteDispatchResult,
  pending_dispatch, prepare_dispatch, execute_dispatch,
}
use finance.Report.Prepared.{row_of, prepare-IsPrepared}
use finance.Report.Executed.{execute-IsExecuted, execute-MayExecute}
use finance.Report.Trace.{Trace}
use finance.Report.Delivery.{
  Delivery, Move, stay, wait, deliver, fail, Course, no_move, then_move, delivery_of,
}
use finance.Report.Delivery.Moved.{settled, was-waiting, Trace-Course}

-- The states that no move leaves.
abbrev IsFinal : Delivery → Type 0
IsFinal Delivery.delivered = Unit
IsFinal Delivery.undelivered = Unit
IsFinal _ = ⊥

outcome-IsFinal :
    (success : Bool) → IsFinal (if success then Delivery.delivered else Delivery.undelivered)
outcome-IsFinal true = tt
outcome-IsFinal false = tt

Move-final : (s t : Delivery) → Move s t → IsFinal s → s ≡ t
Move-final _ _ (stay s) f = refl
Move-final _ _ wait f = absurd f
Move-final _ _ deliver f = absurd f
Move-final _ _ fail f = absurd f

Course-final : (s t : Delivery) → Course s t → IsFinal s → s ≡ t
Course-final s _ no_move f = refl
Course-final s _ (then_move t u c m) f =
    let same = Course-final s t c f in same ∙ Move-final t u m (subst IsFinal same f)

module _ (env : Env) (mailer : Mailer) (lawful : IsClient env.client) (db : Tables)
    (input : ExecuteDispatchInput) (out : ExecuteDispatchResult × Tables) where
  sent-settled :
      execute_dispatch env mailer db input ≡ ok out
      → delivery_of input.dispatch_id out.1.report_dispatches
        ≡ (if out.0.sends_email then Delivery.delivered else Delivery.undelivered)
  sent-settled h =
      let x = execute-IsExecuted env mailer lawful db input out h in
      subst
        (λ o.
          delivery_of input.dispatch_id o.1.report_dispatches
          ≡ (if o.0.sends_email then Delivery.delivered else Delivery.undelivered))
        (sym x.out_is)
        (settled env mailer input db.report_dispatches x.rows x.counted x.may.waiting)

  -- After a call of `executeDispatch` that returns, the dispatch is delivered if the provider sent
  -- the message and undelivered if not; that stays so in every state that closes, reopenings, new
  -- reports, approvals and dispatches lead to, and no later call for the dispatch returns.
  pub sent_once :
      (later : Tables)
      → execute_dispatch env mailer db input ≡ ok out
      → Trace out.1 later
      → (delivery_of input.dispatch_id later.report_dispatches
          ≡ (if out.0.sends_email then Delivery.delivered else Delivery.undelivered))
        × ((env' : Env) (mailer' : Mailer) (again : ExecuteDispatchInput)
              (out' : ExecuteDispatchResult × Tables)
            → IsClient env'.client
            → again.dispatch_id ≡ input.dispatch_id
            → ¬ (execute_dispatch env' mailer' later again ≡ ok out'))
  sent_once later h trace =
      let id = input.dispatch_id in
      let now = sent-settled h in
      let final : IsFinal (delivery_of id out.1.report_dispatches) =
        subst IsFinal (sym now) (outcome-IsFinal out.0.sends_email) in
      let kept = Course-final _ _ (Trace-Course id out.1 later trace) final in
      (
        sym kept ∙ now,
        λ e m i o l same k.
            let x = execute-IsExecuted e m l later i o k in
            let waits = was-waiting e m i later.report_dispatches x.rows x.counted x.may.waiting in
            subst IsFinal
              (kept ∙ ap (λ x. delivery_of x later.report_dispatches) (sym same) ∙ waits) final,
      )

-- A call of `executeDispatch` for the dispatch that was prepared, by an administrator, with a sender,
-- a subject, a content hash and a valid address.
pub record IsSendable (mailer : Mailer) (input : PrepareDispatchInput) (prepared : String)
    (send : ExecuteDispatchInput) : Type 0 where
  pub admin : may_act send.actor.role ≡ true
  pub from_given : is_truthy send.from_address ≡ true
  pub subject_given : is_truthy send.subject ≡ true
  pub content_given : is_truthy send.content_hash ≡ true
  pub addressed : not (is_nil (normalize_recipient_emails mailer.lower_case send.recipients)) ≡ true
  pub workspace : send.workspace_id ≡ input.workspace_id
  pub report : send.report_snapshot_id ≡ input.report_snapshot_id
  pub approval : send.report_approval_id ≡ input.report_approval_id
  pub dispatch : send.dispatch_id ≡ prepared

-- What `prepareDispatch` has prepared can be sent: after it `executeDispatch` returns, whatever the
-- provider answers, if it is called by an administrator for the dispatch that was prepared, its
-- approval, report and workspace, with a sender, a subject, a content hash and a valid address.
pub prepared_can_send :
    (env env' : Env) (mailer : Mailer) (lawful : IsClient env.client)
    (lawful' : IsClient env'.client) (db : Tables) (input : PrepareDispatchInput)
    (out : PrepareDispatchResult × Tables) (send : ExecuteDispatchInput)
    → prepare_dispatch env db input ≡ ok out
    → IsSendable mailer input out.0.dispatch_id send
    → (sent : ExecuteDispatchResult × Tables) × (execute_dispatch env' mailer out.1 send ≡ ok sent)
prepared_can_send env env' mailer lawful lawful' db input out send h s =
    let p = prepare-IsPrepared env lawful db input out h in
    let row = row_of env input in
    let dispatch : send.dispatch_id ≡ row.id = s.dispatch ∙ ap (λ o. o.0.dispatch_id) p.out_is in
    let own : pending_dispatch send row ≡ true =
      rw
        (
          dispatch,
          s.report,
          s.approval,
          (str_eq_iff row.id row.id).1 refl,
          (str_eq_iff input.report_snapshot_id input.report_snapshot_id).1 refl,
          (str_eq_iff input.report_approval_id input.report_approval_id).1 refl,
        )
        refl in
    let one : 1 ≤ count (pending_dispatch send) p.rows =
      rw (p.counted (pending_dispatch send), own) (omega arith) in
    (execute-MayExecute env' mailer lawful' out.1 send).1 (record {
      admin = s.admin;
      from_given = s.from_given;
      subject_given = s.subject_given;
      content_given = s.content_given;
      addressed = s.addressed;
      reported = rw (p.out_is, s.workspace, s.report) p.may.reported;
      approved = rw (p.out_is, s.report, s.approval) p.may.approved;
      waiting = rw p.out_is one;
    })
