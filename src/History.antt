-- ===== src/History.antt =====
-- server/services/confirmedHistoryEligibilityService.ts: the booked transactions and the decisions on them,
-- from which confirmed history is taken.
pub mod Facts
pub mod Confirmed
pub mod Evaluate
pub mod Latest
pub mod Means
pub mod Accepted
pub mod Parts
pub mod Loaded
use finance.Prelude.{Bool, true, false, Option, List, String}
use finance.Prelude.Int.{ℤ}
use finance.Calendar.{Date}
use finance.Statement.{Direction}
use finance.Evidence.{Json}

pub data ReviewDecisionAction : Type 0 where
  accept_suggestion assign_manually change_booking remove_booking : ReviewDecisionAction

pub data SuggestionStatus : Type 0 where
  pending accepted rejected expired : SuggestionStatus

pub data BookingSource : Type 0 where
  historical rule manual : BookingSource

pub data ConfirmedHistoryExclusionReason : Type 0 where
  cross_workspace missing_current_booking incomplete_dimensions missing_booking_provenance
        missing_review_decision removed_by_latest_decision latest_decision_not_eligible
        current_booking_superseded dimension_mismatch missing_decision_provenance
        suggestion_not_confirmed :
      ConfirmedHistoryExclusionReason

abbrev pub exclusion_text : ConfirmedHistoryExclusionReason → String
exclusion_text ConfirmedHistoryExclusionReason.cross_workspace = "CROSS_WORKSPACE"
exclusion_text ConfirmedHistoryExclusionReason.missing_current_booking = "MISSING_CURRENT_BOOKING"
exclusion_text ConfirmedHistoryExclusionReason.incomplete_dimensions = "INCOMPLETE_DIMENSIONS"
exclusion_text ConfirmedHistoryExclusionReason.missing_booking_provenance =
    "MISSING_BOOKING_PROVENANCE"
exclusion_text ConfirmedHistoryExclusionReason.missing_review_decision = "MISSING_REVIEW_DECISION"
exclusion_text ConfirmedHistoryExclusionReason.removed_by_latest_decision =
    "REMOVED_BY_LATEST_DECISION"
exclusion_text ConfirmedHistoryExclusionReason.latest_decision_not_eligible =
    "LATEST_DECISION_NOT_ELIGIBLE"
exclusion_text ConfirmedHistoryExclusionReason.current_booking_superseded =
    "CURRENT_BOOKING_SUPERSEDED"
exclusion_text ConfirmedHistoryExclusionReason.dimension_mismatch = "DIMENSION_MISMATCH"
exclusion_text ConfirmedHistoryExclusionReason.missing_decision_provenance =
    "MISSING_DECISION_PROVENANCE"
exclusion_text ConfirmedHistoryExclusionReason.suggestion_not_confirmed = "SUGGESTION_NOT_CONFIRMED"

pub record DecidedSuggestion : Type 0 where
  pub workspace_id : String
  pub status : SuggestionStatus

pub record ConfirmedHistoryDecision : Type 0 where
  pub id : String
  pub workspace_id : String
  pub transaction_id : String
  pub suggestion_id : Option String
  pub action : ReviewDecisionAction
  pub after_booking_id : Option String
  pub after_project_id : Option String
  pub after_type_id : Option String
  pub after_category_id : Option String
  pub actor_id : String
  pub evidence_hash : String
  pub decided_at : Date
  pub suggestion : Option DecidedSuggestion

-- A booking with the workspaces of its project, type and category.
pub record CurrentBooking : Type 0 where
  pub id : String
  pub workspace_id : String
  pub project_id : String
  pub transaction_type_id : String
  pub category_id : String
  pub source : BookingSource
  pub evidence_hash : String
  pub confirmed_by : Option String
  pub confirmed_at : Date
  pub project_workspace_id : String
  pub type_workspace_id : String
  pub category_workspace_id : String

-- `ledger` is none where there is no ledger, and some none where it is not locked.
pub record ConfirmedHistoryCandidate : Type 0 where
  pub id : String
  pub user_id : String
  pub date : Date
  pub account_id : Option String
  pub direction : Direction
  pub amount_minor : ℤ
  pub counterparty : Option String
  pub reference : Option String
  pub description : String
  pub raw_row : Json
  pub ledger : Option (Option Date)
  pub transaction_booking : Option CurrentBooking
  pub review_decisions : List ConfirmedHistoryDecision

abbrev pub is_acceptance : ReviewDecisionAction → Bool
is_acceptance accept_suggestion = true
is_acceptance _ = false

abbrev pub is_removal : ReviewDecisionAction → Bool
is_removal remove_booking = true
is_removal _ = false

abbrev pub is_accepted : SuggestionStatus → Bool
is_accepted accepted = true
is_accepted _ = false

-- `ELIGIBLE_ACTIONS`
abbrev pub is_eligible_action : ReviewDecisionAction → Bool
is_eligible_action accept_suggestion = true
is_eligible_action assign_manually = true
is_eligible_action change_booking = true
is_eligible_action remove_booking = false
