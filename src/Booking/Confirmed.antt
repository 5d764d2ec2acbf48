-- ===== src/Booking/Confirmed.antt =====
-- A booking by hand is confirmed history: what `assignManualBooking` writes passes the test of
-- server/services/confirmedHistoryEligibilityService.ts.
use finance.Prelude.{◌≡◌, refl, true, false, not, none, some, String, str_eq, str_eq_iff, any, ok}
use finance.Close.Create.{Env}
use finance.Database.{IsClient}
use finance.Decision.{Hashing}
use finance.History.{ConfirmedHistoryDecision, CurrentBooking, ConfirmedHistoryCandidate}
use finance.History.Confirmed.{non_empty, latest_decision, eligible_booking, confirm}
use finance.Booking.{TransactionRow, BookingRow, ReviewDecision, BookingTables}
use finance.Booking.Assign.{
  AssignManualBookingInput, own_transaction, actor_of, Chosen, assignment_hash, booking_row,
  decision_row,
}
use finance.Booking.Run.{AssignManualBookingResult, choose_rows, write_assignment}
use finance.Booking.Choice.{choose-IsChosen}
use finance.Booking.Assigned.{IsAssigned, write-IsAssigned}

-- The booking as `loadConfirmedHistoryEligibility` selects it, with the workspaces of its dimensions.
abbrev pub selected_booking : Chosen → BookingRow → CurrentBooking
selected_booking c b = record {
  id = b.id;
  workspace_id = b.workspace_id;
  project_id = b.project_id;
  transaction_type_id = b.transaction_type_id;
  category_id = b.category_id;
  source = b.source;
  evidence_hash = b.evidence_hash;
  confirmed_by = b.confirmed_by;
  confirmed_at = b.confirmed_at;
  project_workspace_id = c.project.workspace_id;
  type_workspace_id = c.type.workspace_id;
  category_workspace_id = c.category.workspace_id;
}

-- A decision without a suggestion, as it is selected.
abbrev pub selected_decision : ReviewDecision → ConfirmedHistoryDecision
selected_decision d = record {
  id = d.id;
  workspace_id = d.workspace_id;
  transaction_id = d.transaction_id;
  suggestion_id = d.suggestion_id;
  action = d.action;
  after_booking_id = d.after_booking_id;
  after_project_id = d.after_project_id;
  after_type_id = d.after_type_id;
  after_category_id = d.after_category_id;
  actor_id = d.actor_id;
  evidence_hash = d.evidence_hash;
  decided_at = d.decided_at;
  suggestion = none;
}

-- The candidate has the booking and the decision that were written, and the decision is its latest.
pub record IsCandidate (h : Hashing) (c : Chosen) (result : AssignManualBookingResult)
    (candidate : ConfirmedHistoryCandidate) : Type 0 where
  pub booking_selected : candidate.transaction_booking ≡ some (selected_booking c result.booking)
  pub decision_latest :
      latest_decision h candidate.review_decisions ≡ some (selected_decision result.decision)
  pub decisions_own :
      any
        (λ (d : ConfirmedHistoryDecision). not (str_eq d.workspace_id c.project.workspace_id))
        candidate.review_decisions
      ≡ false

-- The identifiers and the hash are not blank.
pub record HasText (env : Env) (input : AssignManualBookingInput) (c : Chosen) : Type 0 where
  pub project_text : non_empty c.project.id ≡ true
  pub type_text : non_empty c.type.id ≡ true
  pub category_text : non_empty c.category.id ≡ true
  pub actor_text : non_empty (actor_of input.actor) ≡ true
  pub hash_text : non_empty (assignment_hash env input c) ≡ true

str_eq_refl : (s : String) → str_eq s s ≡ true
str_eq_refl s = (str_eq_iff s s).1 refl

confirm-assigned :
    (h : Hashing) (env : Env) (db db' : BookingTables) (input : AssignManualBookingInput)
    (c : Chosen) (result : AssignManualBookingResult) (candidate : ConfirmedHistoryCandidate)
    → IsAssigned env db input c result db'
    → HasText env input c
    → IsCandidate h c result candidate
    → confirm h c.project.workspace_id candidate
      ≡ ok (
          eligible_booking h c.project.workspace_id candidate
            (selected_booking c result.booking)
            (selected_decision result.decision))
unfolding confirm booking_row decision_row
confirm-assigned h env db db' input c result candidate assigned texts selected =
    let type_own : str_eq c.type.workspace_id c.project.workspace_id ≡ true =
      (str_eq_iff _ _).1 assigned.chosen.type_workspace in
    let category_own : str_eq c.category.workspace_id c.project.workspace_id ≡ true =
      (str_eq_iff _ _).1 assigned.chosen.category_workspace in
    rw
      (
        selected.booking_selected,
        selected.decision_latest,
        selected.decisions_own,
        assigned.decision_is,
        assigned.booked,
        str_eq_refl c.project.workspace_id,
        type_own,
        category_own,
        texts.project_text,
        texts.type_text,
        texts.category_text,
        texts.actor_text,
        texts.hash_text,
        str_eq_refl c.project.id,
        str_eq_refl c.type.id,
        str_eq_refl c.category.id,
        str_eq_refl result.booking.id,
      )
      refl

-- Where `assignManualBooking` has chosen its rows and its writes succeed, the transaction is confirmed
-- history, under the booking and the decision that are returned: its candidate is taken by
-- `evaluateConfirmedHistoryEligibility`, if it has no decision of another workspace or later than the
-- one that was written, and the identifiers of the actor, the project, the type and the category and
-- the hash of the evidence are not blank.
pub confirm-write_assignment :
    (h : Hashing) (env : Env) (lawful : IsClient env.client) (db db' : BookingTables)
    (input : AssignManualBookingInput) (t : TransactionRow) (c : Chosen)
    (result : AssignManualBookingResult) (candidate : ConfirmedHistoryCandidate)
    → own_transaction input t ≡ true
    → choose_rows env db input t ≡ ok c
    → write_assignment env db input c ≡ ok (result, db')
    → HasText env input c
    → IsCandidate h c result candidate
    → confirm h c.project.workspace_id candidate
      ≡ ok (
          eligible_booking h c.project.workspace_id candidate
            (selected_booking c result.booking)
            (selected_decision result.decision))
confirm-write_assignment h env lawful db db' input t c result candidate own chose wrote =
    confirm-assigned h env db db' input c result candidate (
      write-IsAssigned env lawful db input c result db'
        (choose-IsChosen env lawful db input t c own chose).0 wrote)
