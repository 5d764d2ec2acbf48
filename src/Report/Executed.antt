-- ===== src/Report/Executed.antt =====
-- What `executeDispatch` asks for, and what it has written when it returns.
use finance.Prelude.{
  ◌≤◌, ◌≡◌, ◌↔◌, refl, arith, Bool, true, not, some, List, [], ◌∷◌, String, str_eq, is_nil,
  is_truthy, if◌then◌else◌, Option-cases, inl, inr, ok, require, seq-ok, bind-ok, require-ok,
  ok_injective, sym,
}
use finance.Prelude.Sums.{count, count-le}
use finance.Database.{Client, IsClient}
use finance.Close.Tables.{ReportDispatch, Recipient, Tables}
use finance.Close.Create.{Env}
use finance.Close.Strict.{find_or}
use finance.Close.Agreed.{find_or-ok}
use finance.Report.{
  not_admin, no_from_address, no_subject, no_content_hash, no_recipients, no_valid_address,
  report_not_found, no_active_approval, dispatch_not_pending, update_failed, may_act,
}
use finance.Report.Approve.{report_in}
use finance.Report.Email.{normalize_recipient_emails}
use finance.Report.Dispatch.{
  Mailer, ReportEmailResult, ExecuteDispatchInput, ExecuteDispatchResult, active_approval,
  pending_dispatch, payload, sent_row, execute_result, execute_dispatch,
}
use finance.Report.Prepared.{found-count, find_first_of_count}

-- The guards of `executeDispatch`.
pub record MayExecute (mailer : Mailer) (db : Tables) (input : ExecuteDispatchInput) : Type 0 where
  pub admin : may_act input.actor.role ≡ true
  pub from_given : is_truthy input.from_address ≡ true
  pub subject_given : is_truthy input.subject ≡ true
  pub content_given : is_truthy input.content_hash ≡ true
  pub addressed :
      not (is_nil (normalize_recipient_emails mailer.lower_case input.recipients)) ≡ true
  pub reported :
      1 ≤ count (report_in input.report_snapshot_id input.workspace_id) db.report_snapshots
  pub approved :
      1
      ≤ count
          (active_approval input.report_approval_id input.report_snapshot_id)
          db.report_approvals
  pub waiting : 1 ≤ count (pending_dispatch input) db.report_dispatches

-- What the provider answers to the message.
abbrev pub answer : Mailer → ExecuteDispatchInput → ReportEmailResult
answer mailer input = mailer.send (payload mailer input)

abbrev pub after_send : Env → Mailer → ExecuteDispatchInput → ReportDispatch → ReportDispatch
after_send env mailer input d =
    if str_eq d.id input.dispatch_id then sent_row env.now (answer mailer input) d else d

pub record IsExecuted (env : Env) (mailer : Mailer) (db : Tables) (input : ExecuteDispatchInput)
    (out : ExecuteDispatchResult × Tables) : Type 0 where
  pub may : MayExecute mailer db input
  pub rows : List ReportDispatch
  pub counted :
      (q : ReportDispatch → Bool)
      → count q rows ≡ count (λ d. q (after_send env mailer input d)) db.report_dispatches
  pub out_is :
      out ≡ (execute_result input (answer mailer input), record db { report_dispatches = rows })

-- Someone is left among the addresses only if there were recipients.
recipients_given :
    (lower : String → String) (recipients : List Recipient)
    → not (is_nil (normalize_recipient_emails lower recipients)) ≡ true
    → not (is_nil recipients) ≡ true
unfolding normalize_recipient_emails
recipients_given lower [] h = absurd (ground arith)
recipients_given lower (r ∷ rs) h = refl

-- An update of rows of which there is one does not throw.
update_of_count :
    (client : Client) {A : Type 0} (p : A → Bool) (f : A → A) (rows : List A)
    → IsClient client
    → 1 ≤ count p rows
    → (changed : A × List A) × (client.update p f rows ≡ some changed)
update_of_count client p f rows lawful h = elim (Option-cases (client.update p f rows)) [
  | inl e ↦ absurd (omega (arith, lawful.update_none p f rows e))
  | inr changed ↦ changed
]

module _ (env : Env) (mailer : Mailer) (lawful : IsClient env.client) (db : Tables)
    (input : ExecuteDispatchInput) where
  -- A call of `executeDispatch` that returns had an administrator, a sender, a subject, a content
  -- hash and a valid address, the report in the workspace, an approval of it that is not revoked and
  -- a pending dispatch under that approval. It returns what the provider answers to the message, and
  -- has written that into the rows with the identifier of the dispatch and nothing else.
  pub execute-IsExecuted :
      (out : ExecuteDispatchResult × Tables)
      → execute_dispatch env mailer db input ≡ ok out
      → IsExecuted env mailer db input out
  unfolding execute_dispatch
  execute-IsExecuted out h =
      let emails = normalize_recipient_emails mailer.lower_case input.recipients in
      let named = λ (d : ReportDispatch). str_eq d.id input.dispatch_id in
      let change = sent_row env.now (answer mailer input) in
      let (admin, h1) = seq-ok (require (may_act input.actor.role) not_admin) _ h in
      let (from_given, h2) = seq-ok (require (is_truthy input.from_address) no_from_address) _ h1 in
      let (subject_given, h3) = seq-ok (require (is_truthy input.subject) no_subject) _ h2 in
      let (content_given, h4) =
        seq-ok (require (is_truthy input.content_hash) no_content_hash) _ h3 in
      let (given, h5) = seq-ok (require (not (is_nil input.recipients)) no_recipients) _ h4 in
      let (addressed, h6) = seq-ok (require (not (is_nil emails)) no_valid_address) _ h5 in
      let (snapshot, (reported, h7)) =
        bind-ok
          (find_or
            (env.client.find_first (report_in input.report_snapshot_id input.workspace_id)
              db.report_snapshots)
            report_not_found)
          _ h6 in
      let (approval, (approved, h8)) =
        bind-ok
          (find_or
            (env.client.find_first
              (active_approval input.report_approval_id input.report_snapshot_id)
              db.report_approvals)
            no_active_approval)
          _ h7 in
      let (dispatch, (waiting, h9)) =
        bind-ok
          (find_or (env.client.find_first (pending_dispatch input) db.report_dispatches)
            dispatch_not_pending)
          _ h8 in
      let (updated, (changed, h10)) =
        bind-ok (find_or (env.client.update named change db.report_dispatches) update_failed) _
          h9 in
      record {
        may = record {
          admin = require-ok _ _ admin;
          from_given = require-ok _ _ from_given;
          subject_given = require-ok _ _ subject_given;
          content_given = require-ok _ _ content_given;
          addressed = require-ok _ _ addressed;
          reported =
              found-count env.client lawful _ _ snapshot (find_or-ok _ report_not_found reported);
          approved =
              found-count env.client lawful _ _ approval (find_or-ok _ no_active_approval approved);
          waiting =
              found-count env.client lawful _ _ dispatch
                (find_or-ok _ dispatch_not_pending waiting);
        };
        rows = updated.1;
        counted =
            lawful.update_rows named change db.report_dispatches updated.0 updated.1
              (find_or-ok _ update_failed changed);
        out_is = sym (ok_injective h10);
      }

  waiting_is_named :
      (d : ReportDispatch) → pending_dispatch input d ≡ true → str_eq d.id input.dispatch_id ≡ true
  waiting_is_named d h = ground arith

  -- `executeDispatch` returns exactly when its guards pass, whatever the provider answers: an update
  -- that it starts after the message is sent does not fail.
  pub execute-MayExecute :
      ((out : ExecuteDispatchResult × Tables) × (execute_dispatch env mailer db input ≡ ok out))
      ↔ MayExecute mailer db input
  unfolding execute_dispatch
  execute-MayExecute = (
    λ (out, h). (execute-IsExecuted out h).may,
    λ may.
        let (snapshot, reported) =
          find_first_of_count env.client lawful
            (report_in input.report_snapshot_id input.workspace_id) db.report_snapshots
            may.reported in
        let (approval, approved) =
          find_first_of_count env.client lawful
            (active_approval input.report_approval_id input.report_snapshot_id) db.report_approvals
            may.approved in
        let (dispatch, waiting) =
          find_first_of_count env.client lawful (pending_dispatch input) db.report_dispatches
            may.waiting in
        let named = λ (d : ReportDispatch). str_eq d.id input.dispatch_id in
        let there : 1 ≤ count named db.report_dispatches = omega (
          arith,
          may.waiting,
          count-le (pending_dispatch input) named db.report_dispatches waiting_is_named,
        ) in
        let (changed, updated) =
          update_of_count env.client named (sent_row env.now (answer mailer input))
            db.report_dispatches lawful there in
        let given = recipients_given mailer.lower_case input.recipients may.addressed in
        (
          (execute_result input (answer mailer input), record db { report_dispatches = changed.1 }),
          rw
              (
                may.admin, may.from_given, may.subject_given, may.content_given, given,
                may.addressed, reported, approved, waiting, updated,
              )
              refl,
        ),
  )
