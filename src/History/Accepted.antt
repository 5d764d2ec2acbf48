-- ===== src/History/Accepted.antt =====
-- What confirmed history is.
use finance.Prelude.{
  ◌≤◌, ◌≡◌, ◌↔◌, refl, arith, Bool, true, false, not, Option, none, some, String, ok, require,
  seq-ok, bind-ok, require-ok, ok_injective, sym, ap,
}
use finance.Prelude.Sums.{count}
use finance.Decision.{Hashing}
use finance.History.{
  ConfirmedHistoryExclusionReason, missing_current_booking, incomplete_dimensions,
  missing_booking_provenance, missing_review_decision, removed_by_latest_decision,
  latest_decision_not_eligible, current_booking_superseded, dimension_mismatch,
  missing_decision_provenance, suggestion_not_confirmed, ConfirmedHistoryDecision, CurrentBooking,
  ConfirmedHistoryCandidate, is_removal, is_eligible_action,
}
use finance.History.Confirmed.{
  EligibleConfirmedHistoryBooking, non_empty, some_non_empty, latest_decision, in_workspace,
  has_dimensions, has_booking_provenance, names, same_dimensions, has_decision_provenance,
  suggestion_confirmed, eligible_booking, there, confirm,
}
use finance.History.Means.{IsOwn, IsKept, IsSettled, IsOwn-iff, IsKept-iff, IsSettled-iff}
use finance.History.Latest.{later_than, latest_decision-is_latest}

-- A booking, and the latest decision, which confirms it.
pub record IsConfirmed (h : Hashing) (workspace : String) (c : ConfirmedHistoryCandidate)
    (b : CurrentBooking) (d : ConfirmedHistoryDecision) : Type 0 where
  pub booked : c.transaction_booking ≡ some b
  pub own : IsOwn workspace b c.review_decisions
  pub project_text : non_empty b.project_id ≡ true
  pub type_text : non_empty b.transaction_type_id ≡ true
  pub category_text : non_empty b.category_id ≡ true
  pub confirmer_text : some_non_empty b.confirmed_by ≡ true
  pub booking_evidence : non_empty b.evidence_hash ≡ true
  pub latest : latest_decision h c.review_decisions ≡ some d
  pub none_later : count (later_than d) c.review_decisions ≡ 0
  pub decided : (q : ConfirmedHistoryDecision → Bool) → q d ≡ true → 1 ≤ count q c.review_decisions
  pub kept : IsKept b d
  pub actor_text : non_empty d.actor_id ≡ true
  pub decision_evidence : non_empty d.evidence_hash ≡ true
  pub settled : IsSettled workspace d

there-ok {ℓ} :
    {A : Type ℓ} (o : Option A) (r : ConfirmedHistoryExclusionReason) {a : A}
    → there o r ≡ ok a
    → o ≡ some a
there-ok none r h = absurd cc
there-ok (some b) r h = ap some (ok_injective h)

eligible_of_kept :
    (d : ConfirmedHistoryDecision)
    → is_removal d.action ≡ false
    → is_eligible_action d.action ≡ true
eligible_of_kept d h = ground arith

module _ (h : Hashing) (workspace : String) (c : ConfirmedHistoryCandidate) where
  confirm-IsConfirmed :
      (e : EligibleConfirmedHistoryBooking)
      → confirm h workspace c ≡ ok e
      → (b : CurrentBooking) × ((d : ConfirmedHistoryDecision) × (IsConfirmed h workspace c b d
            × (e ≡ eligible_booking h workspace c b d)))
  unfolding confirm
  confirm-IsConfirmed e eq =
      let (b, (booked, h1)) = bind-ok (there c.transaction_booking missing_current_booking) _ eq in
      let (own, h2) =
        seq-ok
          (require (in_workspace workspace b c.review_decisions)
            ConfirmedHistoryExclusionReason.cross_workspace)
          _ h1 in
      let (dimensions, h3) = seq-ok (require (has_dimensions b) incomplete_dimensions) _ h2 in
      let (traced, h4) =
        seq-ok (require (has_booking_provenance b) missing_booking_provenance) _ h3 in
      let (d, (latest, h5)) =
        bind-ok (there (latest_decision h c.review_decisions) missing_review_decision) _ h4 in
      let (kept, h6) =
        seq-ok (require (not (is_removal d.action)) removed_by_latest_decision) _ h5 in
      let (able, h7) =
        seq-ok (require (is_eligible_action d.action) latest_decision_not_eligible) _ h6 in
      let (same_booking, h8) =
        seq-ok (require (names d.after_booking_id b.id) current_booking_superseded) _ h7 in
      let (matching, h9) = seq-ok (require (same_dimensions d b) dimension_mismatch) _ h8 in
      let (by, h10) =
        seq-ok (require (has_decision_provenance d) missing_decision_provenance) _ h9 in
      let (stands, h11) =
        seq-ok (require (suggestion_confirmed workspace d) suggestion_not_confirmed) _ h10 in
      let is_latest = there-ok _ _ latest in
      let (none_later, decided) = latest_decision-is_latest h c.review_decisions d is_latest in
      let with_dimensions = require-ok _ _ dimensions in
      let with_booking = require-ok _ _ traced in
      let with_decision = require-ok _ _ by in
      let not_removed : not (is_removal d.action) ≡ true = require-ok _ _ kept in
      (
        b,
        (
          d,
          (
            record {
              booked = there-ok _ _ booked;
              own = (IsOwn-iff workspace b c.review_decisions).0 (require-ok _ _ own);
              project_text = ground arith;
              type_text = ground arith;
              category_text = ground arith;
              confirmer_text = ground arith;
              booking_evidence = ground arith;
              latest = is_latest;
              none_later = none_later;
              decided = decided;
              kept =
                  (IsKept-iff b d).0
                    (not_removed, (require-ok _ _ same_booking, require-ok _ _ matching));
              actor_text = ground arith;
              decision_evidence = ground arith;
              settled = (IsSettled-iff workspace d).0 (require-ok _ _ stands);
            },
            sym (ok_injective h11),
          ),
        ),
      )

  confirm-of_IsConfirmed :
      (b : CurrentBooking) (d : ConfirmedHistoryDecision)
      → IsConfirmed h workspace c b d
      → confirm h workspace c ≡ ok (eligible_booking h workspace c b d)
  unfolding confirm
  confirm-of_IsConfirmed b d k =
      let (removed, (same, matching)) = (IsKept-iff b d).1 k.kept in
      rw
        (
          k.booked,
          (IsOwn-iff workspace b c.review_decisions).1 k.own,
          k.project_text,
          k.type_text,
          k.category_text,
          k.confirmer_text,
          k.booking_evidence,
          k.latest,
          eligible_of_kept d k.kept.not_removed,
          removed,
          same,
          matching,
          k.actor_text,
          k.decision_evidence,
          (IsSettled-iff workspace d).1 k.settled,
        )
        refl

  -- A booked transaction is taken into the confirmed history exactly when its booking and the decisions
  -- on it belong to the workspace, the booking has all dimensions and says who confirmed it on what
  -- evidence, and the latest decision, than which none is later, left this booking with these
  -- dimensions, has an actor and evidence, and if it accepted a suggestion, that one is accepted. The
  -- entry is then that of the booking and of this decision.
  pub confirm_iff :
      (e : EligibleConfirmedHistoryBooking)
      → (confirm h workspace c ≡ ok e) ↔ (
          (b : CurrentBooking) × ((d : ConfirmedHistoryDecision) × (IsConfirmed h workspace c b d
              × (e ≡ eligible_booking h workspace c b d))))
  confirm_iff e =
      (confirm-IsConfirmed e, λ (b, (d, (k, same))). rw same (confirm-of_IsConfirmed b d k))
