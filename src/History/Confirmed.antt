-- ===== src/History/Confirmed.antt =====
-- server/services/confirmedHistoryEligibilityService.ts: which booked transactions are confirmed history, and
-- why the others are not.
use finance.Prelude.{
  Bool, not, ◌&&◌, ◌||◌, Option, none, some, List, [], ◌∷◌, String, str_eq, any, is_truthy, sort_by,
  Result, ok, err, ◌>>=◌, ◌>>◌, require,
}
use finance.Calendar.{Date}
use finance.Close.Reopen.{trim}
use finance.Decision.{Hashing, descending, text_le}
use finance.History.{
  ReviewDecisionAction, BookingSource, ConfirmedHistoryExclusionReason, missing_current_booking,
  incomplete_dimensions, missing_booking_provenance, missing_review_decision,
  removed_by_latest_decision, latest_decision_not_eligible, current_booking_superseded,
  dimension_mismatch, missing_decision_provenance, suggestion_not_confirmed, DecidedSuggestion,
  ConfirmedHistoryDecision, CurrentBooking, ConfirmedHistoryCandidate, is_acceptance, is_removal,
  is_accepted, is_eligible_action,
}
use finance.History.Facts.{HistorySuggestionFacts, to_history_suggestion_facts}

abbrev pub confirmed_history_eligibility_version : String
confirmed_history_eligibility_version = "confirmed-history-v1"

abbrev pub non_empty : String → Bool
non_empty s = is_truthy (trim s)

abbrev pub some_non_empty : Option String → Bool
some_non_empty none = Bool.false
some_non_empty (some s) = non_empty s

-- `value === id`, where the value may be null
abbrev pub names : Option String → String → Bool
names none id = Bool.false
names (some s) id = str_eq s id

-- The later decision stays first, and of two at one time the one with the greater identifier.
abbrev pub later_first : Hashing → ConfirmedHistoryDecision → ConfirmedHistoryDecision → Bool
later_first h left right = descending left.decided_at right.decided_at (text_le h right.id left.id)

abbrev pub first_of {ℓ} : {A : Type ℓ} → List A → Option A
first_of [] = none
first_of (x ∷ xs) = some x

unfoldable pub latest_decision :
    Hashing → List ConfirmedHistoryDecision → Option ConfirmedHistoryDecision
latest_decision h decisions = first_of (sort_by (later_first h) decisions)

-- The booking, its dimensions and every decision belong to the workspace.
abbrev pub in_workspace : String → CurrentBooking → List ConfirmedHistoryDecision → Bool
in_workspace workspace b decisions =
    str_eq b.workspace_id workspace
    && (str_eq b.project_workspace_id workspace
        && (str_eq b.type_workspace_id workspace
            && (str_eq b.category_workspace_id workspace
                && not (any (λ d. not (str_eq d.workspace_id workspace)) decisions))))

abbrev pub has_dimensions : CurrentBooking → Bool
has_dimensions b =
    non_empty b.project_id && (non_empty b.transaction_type_id && non_empty b.category_id)

abbrev pub has_booking_provenance : CurrentBooking → Bool
has_booking_provenance b = some_non_empty b.confirmed_by && non_empty b.evidence_hash

abbrev pub same_dimensions : ConfirmedHistoryDecision → CurrentBooking → Bool
same_dimensions d b =
    names d.after_project_id b.project_id
    && (names d.after_type_id b.transaction_type_id && names d.after_category_id b.category_id)

abbrev pub has_decision_provenance : ConfirmedHistoryDecision → Bool
has_decision_provenance d = non_empty d.actor_id && non_empty d.evidence_hash

abbrev pub accepts : String → Option DecidedSuggestion → Bool
accepts workspace none = Bool.false
accepts workspace (some s) = str_eq s.workspace_id workspace && is_accepted s.status

-- A suggestion that the decision accepts is accepted, in the workspace.
abbrev pub suggestion_confirmed : String → ConfirmedHistoryDecision → Bool
suggestion_confirmed workspace d = not (is_acceptance d.action) || accepts workspace d.suggestion

-- The dates are passed as they are, in place of their ISO texts.
pub record ProvenanceWithoutHash : Type 0 where
  pub eligibility_version : String
  pub workspace_id : String
  pub transaction_id : String
  pub booking_id : String
  pub review_decision_id : String
  pub review_action : ReviewDecisionAction
  pub actor_id : String
  pub booking_source : BookingSource
  pub booking_evidence_hash : String
  pub decision_evidence_hash : String
  pub confirmed_at : Date
  pub decided_at : Date
  pub project_id : String
  pub transaction_type_id : String
  pub category_id : String
  pub ledger_locked_at : Option Date

pub record ConfirmedHistoryProvenance : Type 0 where
  pub without_hash : ProvenanceWithoutHash
  pub provenance_hash : String

pub record EligibleConfirmedHistoryBooking : Type 0 where
  pub facts : HistorySuggestionFacts
  pub booking_id : String
  pub project_id : String
  pub transaction_type_id : String
  pub category_id : String
  pub booking_evidence_hash : String
  pub confirmed_history : ConfirmedHistoryProvenance

-- `candidate.ledger?.lockedAt ?? null`
abbrev pub locked_at : Option (Option Date) → Option Date
locked_at none = none
locked_at (some at) = at

unfoldable pub provenance_without_hash :
    String
    → ConfirmedHistoryCandidate
    → CurrentBooking
    → ConfirmedHistoryDecision
    → ProvenanceWithoutHash
provenance_without_hash workspace c b d = record {
  eligibility_version = confirmed_history_eligibility_version;
  workspace_id = workspace;
  transaction_id = c.id;
  booking_id = b.id;
  review_decision_id = d.id;
  review_action = d.action;
  actor_id = d.actor_id;
  booking_source = b.source;
  booking_evidence_hash = b.evidence_hash;
  decision_evidence_hash = d.evidence_hash;
  confirmed_at = b.confirmed_at;
  decided_at = d.decided_at;
  project_id = b.project_id;
  transaction_type_id = b.transaction_type_id;
  category_id = b.category_id;
  ledger_locked_at = locked_at c.ledger;
}

abbrev pub eligible_booking :
    Hashing
    → String
    → ConfirmedHistoryCandidate
    → CurrentBooking
    → ConfirmedHistoryDecision
    → EligibleConfirmedHistoryBooking
eligible_booking h workspace c b d = record {
  facts = to_history_suggestion_facts c;
  booking_id = b.id;
  project_id = b.project_id;
  transaction_type_id = b.transaction_type_id;
  category_id = b.category_id;
  booking_evidence_hash = b.evidence_hash;
  confirmed_history = record {
    without_hash = provenance_without_hash workspace c b d;
    provenance_hash = h.hash_of (provenance_without_hash workspace c b d);
  };
}

abbrev pub there {ℓ} :
    {A : Type ℓ}
    → Option A
    → ConfirmedHistoryExclusionReason
    → Result ConfirmedHistoryExclusionReason A
there none reason = err reason
there (some a) reason = ok a

-- The body of the loop: a booking, or the reason for which there is none.
unfoldable pub confirm :
    Hashing
    → String
    → ConfirmedHistoryCandidate
    → Result ConfirmedHistoryExclusionReason EligibleConfirmedHistoryBooking
confirm h workspace c = do
  b ← there c.transaction_booking missing_current_booking
  require (in_workspace workspace b c.review_decisions)
      ConfirmedHistoryExclusionReason.cross_workspace
  require (has_dimensions b) incomplete_dimensions
  require (has_booking_provenance b) missing_booking_provenance
  d ← there (latest_decision h c.review_decisions) missing_review_decision
  require (not (is_removal d.action)) removed_by_latest_decision
  require (is_eligible_action d.action) latest_decision_not_eligible
  require (names d.after_booking_id b.id) current_booking_superseded
  require (same_dimensions d b) dimension_mismatch
  require (has_decision_provenance d) missing_decision_provenance
  require (suggestion_confirmed workspace d) suggestion_not_confirmed
  ok (eligible_booking h workspace c b d)
