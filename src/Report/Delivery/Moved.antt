-- ===== src/Report/Delivery/Moved.antt =====
-- Every step of the services is a move of the machine of each dispatch.
use mathlib.Core.Path.{subst}
use finance.Prelude.{
  ℕ, zero, suc, ◌≤◌, ◌≡◌, refl, arith, Bool, true, false, List, [], ◌∷◌, String, str_eq, str_eq_iff,
  if◌then◌else◌, Bool-cases, inl, inr, sym, ◌∙◌,
}
use finance.Prelude.Sums.{count, count-le}
use finance.Close.Revoked.{count_never}
use finance.Close.Tables.{ReportDispatch, DispatchStatus, Tables}
use finance.Close.Create.{Env}
use finance.Close.Created.{create_period_close-IsCreated}
use finance.Close.Agreed.{strict-IsAgreed}
use finance.Close.Reachable.{reopen-IsReopened}
use finance.Report.Dispatch.{
  Mailer, ExecuteDispatchInput, is_pending, pending_dispatch, same_dispatch, new_status, sent_row,
}
use finance.Report.Prepared.{row_of, prepare-IsPrepared}
use finance.Report.Executed.{answer, after_send, execute-IsExecuted}
use finance.Report.Approved.{approve-IsApproved}
use finance.Report.Recorded.{create-IsRecorded}
use finance.Report.Trace.{
  Step, strict_close, reopen, record_report, approve, prepare, execute, Trace, here, then_step,
}
use finance.Report.Delivery.{
  Delivery, Move, stay, wait, deliver, fail, Course, no_move, then_move, is_sent, is_failed,
  in_status, view, delivery_of,
}

view-waiting : (p s f : ℕ) → 1 ≤ p → view p s f ≡ Delivery.waiting
view-waiting zero s f h = absurd (omega arith)
view-waiting (suc p) s f h = refl

view-delivered : (p s f : ℕ) → p ≡ 0 → 1 ≤ s → view p s f ≡ Delivery.delivered
view-delivered (suc p) s f e h = absurd (omega arith)
view-delivered zero zero f e h = absurd (omega arith)
view-delivered zero (suc s) f e h = refl

view-undelivered : (p s f : ℕ) → p ≡ 0 → s ≡ 0 → 1 ≤ f → view p s f ≡ Delivery.undelivered
view-undelivered (suc p) s f e e' h = absurd (omega arith)
view-undelivered zero (suc s) f e e' h = absurd (omega arith)
view-undelivered zero zero zero e e' h = absurd (omega arith)
view-undelivered zero zero (suc f) e e' h = refl

view-absent : (p s f : ℕ) → p ≡ 0 → s ≡ 0 → f ≡ 0 → view p s f ≡ Delivery.absent
view-absent p s f e e' e'' = rw (e, e', e'') refl

-- A dispatch whose rows in each status are as many as before stays.
unmoved :
    (id : String) (rows rows' : List ReportDispatch)
    → ((p : DispatchStatus → Bool) → count (in_status p id) rows' ≡ count (in_status p id) rows)
    → Move (delivery_of id rows) (delivery_of id rows')
unmoved id rows rows' same =
    rw (same is_pending, same is_sent, same is_failed) (stay (delivery_of id rows))

module _ (id : String) (row : ReportDispatch) (rows rows' : List ReportDispatch)
    (counted : (q : ReportDispatch → Bool)
      → count q rows' ≡ (if q row then suc (count q rows) else count q rows))
    (free : count (same_dispatch row) rows ≡ 0) (is_new : is_pending row.status ≡ true) where
  none_before :
      (p : DispatchStatus → Bool) → str_eq row.id id ≡ true → count (in_status p id) rows ≡ 0
  none_before p e =
      let same : row.id ≡ id = (str_eq_iff _ _).0 e in
      omega (
        arith,
        count-le (in_status p id) (same_dispatch row) rows (λ d h. rw same (ground arith)),
        free,
      )

  -- A new dispatch waits.
  prepare-Move : Move (delivery_of id rows) (delivery_of id rows')
  prepare-Move = elim (Bool-cases (str_eq row.id id)) [
    | inl e ↦
        let one : 1 ≤ count (in_status is_pending id) rows' =
          rw (counted (in_status is_pending id), e, is_new) (omega arith) in
        rw
          (
            view-absent _ _ _ (none_before is_pending e) (none_before is_sent e)
                (none_before is_failed e),
            view-waiting _ (count (in_status is_sent id) rows')
                (count (in_status is_failed id) rows') one,
          )
          wait
    | inr e ↦ unmoved id rows rows' (λ p. let c = counted (in_status p id) in rw e at c)
  ]

count_same {ℓ} :
    {A : Type ℓ} (p q : A → Bool) (xs : List A) → ((x : A) → p x ≡ q x) → count p xs ≡ count q xs
count_same p q [] f = refl
count_same p q (x ∷ xs) f = rw (f x, count_same p q xs f) refl

outcome-Move :
    (success : Bool)
    → Move Delivery.waiting (if success then Delivery.delivered else Delivery.undelivered)
outcome-Move true = deliver
outcome-Move false = fail

module _ (env : Env) (mailer : Mailer) (input : ExecuteDispatchInput)
    (rows rows' : List ReportDispatch)
    (counted : (q : ReportDispatch → Bool)
      → count q rows' ≡ count (λ d. q (after_send env mailer input d)) rows)
    (was_waiting : 1 ≤ count (pending_dispatch input) rows) where
  -- After the call all rows of the dispatch have the status of the answer.
  other_status :
      (p : DispatchStatus → Bool)
      → p (new_status (answer mailer input)) ≡ false
      → count (in_status p input.dispatch_id) rows' ≡ 0
  unfolding sent_row
  other_status p h =
      counted (in_status p input.dispatch_id)
      ∙ count_never _ rows (λ d. elim (Bool-cases (str_eq d.id input.dispatch_id)) [
        | inl e ↦ rw (e, e, h) refl
        | inr e ↦ rw (e, e) refl
      ])

  own_status :
      (p : DispatchStatus → Bool)
      → p (new_status (answer mailer input)) ≡ true
      → 1 ≤ count (in_status p input.dispatch_id) rows'
  unfolding sent_row
  own_status p h =
      let fewer =
        count-le (pending_dispatch input)
          (λ d. in_status p input.dispatch_id (after_send env mailer input d)) rows
          (λ d k.
            let e : str_eq d.id input.dispatch_id ≡ true = ground arith in rw (e, e, h) refl) in
      omega (arith, counted (in_status p input.dispatch_id), fewer, was_waiting)

  -- What the dispatch has become.
  pub settled :
      delivery_of input.dispatch_id rows'
      ≡ (if (answer mailer input).success then Delivery.delivered else Delivery.undelivered)
  settled = elim (Bool-cases (answer mailer input).success) [
    | inl e ↦ rw e (
        view-delivered _ _ _ (other_status is_pending (rw e refl)) (own_status is_sent (rw e refl)))
    | inr e ↦ rw e (
        view-undelivered _ _ _ (other_status is_pending (rw e refl))
          (other_status is_sent (rw e refl)) (own_status is_failed (rw e refl)))
  ]

  pub was-waiting : delivery_of input.dispatch_id rows ≡ Delivery.waiting
  was-waiting =
      let fewer =
        count-le (pending_dispatch input) (in_status is_pending input.dispatch_id) rows
          (λ d h. ground arith) in
      view-waiting _ _ _ (omega (arith, fewer, was_waiting))

  other_rows :
      (id : String) (p : DispatchStatus → Bool)
      → str_eq input.dispatch_id id ≡ false
      → count (in_status p id) rows' ≡ count (in_status p id) rows
  unfolding sent_row
  other_rows id p other =
      counted (in_status p id)
      ∙ count_same _ (in_status p id) rows (λ d. elim (Bool-cases (str_eq d.id input.dispatch_id)) [
        | inl e ↦
            let same : d.id ≡ input.dispatch_id = (str_eq_iff _ _).0 e in rw (e, same, other) refl
        | inr e ↦ rw e refl
      ])

  -- The dispatch is delivered or fails, and the others stay.
  execute-Move : (id : String) → Move (delivery_of id rows) (delivery_of id rows')
  execute-Move id = elim (Bool-cases (str_eq input.dispatch_id id)) [
    | inl e ↦
        let same : input.dispatch_id ≡ id = (str_eq_iff _ _).0 e in
        subst (λ x. Move (delivery_of x rows) (delivery_of x rows')) same
          (rw (was-waiting, settled) (outcome-Move (answer mailer input).success))
    | inr e ↦ unmoved id rows rows' (λ p. other_rows id p e)
  ]

Step-Move :
    (id : String) (db db' : Tables)
    → Step db db'
    → Move (delivery_of id db.report_dispatches) (delivery_of id db'.report_dispatches)
Step-Move id _ _ (strict_close env lawful db input out fresh h) =
    let agreed = (strict-IsAgreed env db input lawful out h).1.1 in
    let c = create_period_close-IsCreated env db _ agreed.made agreed.created in
    rw (agreed.tables_are, c.made_is) (stay (delivery_of id db.report_dispatches))
Step-Move id _ _ (reopen env lawful db input out h) =
    rw (reopen-IsReopened env lawful db input out h).untouched
      (stay (delivery_of id db.report_dispatches))
Step-Move id _ _ (record_report env lawful db input out h) =
    rw (create-IsRecorded env lawful db input out h).untouched
      (stay (delivery_of id db.report_dispatches))
Step-Move id _ _ (approve env lawful db input out h) =
    rw (approve-IsApproved env lawful db input out h).tables_are
      (stay (delivery_of id db.report_dispatches))
Step-Move id _ _ (prepare env lawful db input out h) =
    let p = prepare-IsPrepared env lawful db input out h in
    subst (λ o. Move (delivery_of id db.report_dispatches) (delivery_of id o.1.report_dispatches))
      (sym p.out_is)
      (prepare-Move id (row_of env input) db.report_dispatches p.rows p.counted p.may.free refl)
Step-Move id _ _ (execute env lawful mailer db input out h) =
    let x = execute-IsExecuted env mailer lawful db input out h in
    subst (λ o. Move (delivery_of id db.report_dispatches) (delivery_of id o.1.report_dispatches))
      (sym x.out_is)
      (execute-Move env mailer input db.report_dispatches x.rows x.counted x.may.waiting id)

-- The rows of the dispatches implement the machine: whatever closes, reopenings, new reports,
-- approvals and dispatches lead from one state to another, each dispatch has gone through moves of
-- the machine, from absent to waiting, and from waiting to delivered or undelivered.
pub Trace-Course :
    (id : String) (from db : Tables)
    → Trace from db
    → Course (delivery_of id from.report_dispatches) (delivery_of id db.report_dispatches)
Trace-Course id from db here = no_move
Trace-Course id from db (then_step before after t s) =
    then_move _ _ (Trace-Course id from before t) (Step-Move id before after s)
