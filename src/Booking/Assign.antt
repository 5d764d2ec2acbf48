-- ===== src/Booking/Assign.antt =====
-- server/services/reviewDecisionService.ts, `assignManualBooking`.
use finance.Prelude.{Bool, ◌&&◌, Option, none, some, [], ◌∷◌, String, str_eq, is_truthy, or_else}
use finance.Evidence.{Json, object_of, stable_value}
use finance.Close.Tables.{AuditLog}
use finance.Close.Create.{Env, hash_evidence}
use finance.Close.Strict.{AppRole}
use finance.History.{manual, assign_manually}
use finance.Booking.{
  DimensionRow, WorkspaceMembership, by_hand, TransactionRow, BookingRow, ReviewDecision,
}

pub record ReviewDecisionActor : Type 0 where
  pub user_id : String
  pub role : Option AppRole
  pub actor_id : Option String
  pub actor_email : Option String

pub record AssignManualBookingInput : Type 0 where
  pub actor : ReviewDecisionActor
  pub transaction_id : String
  pub project_id : String
  pub transaction_type_id : String
  pub category_id : String
  pub reason : Option String

abbrev pub is_complete_review_assignment_payload : AssignManualBookingInput → Bool
is_complete_review_assignment_payload input =
    is_truthy input.project_id
    && (is_truthy input.transaction_type_id && is_truthy input.category_id)

abbrev pub own_transaction : AssignManualBookingInput → TransactionRow → Bool
own_transaction input t =
    str_eq t.facts.id input.transaction_id && str_eq t.facts.user_id input.actor.user_id

abbrev pub row_with_id : String → DimensionRow → Bool
row_with_id id row = str_eq row.id id

-- `assertSameWorkspace`, for the three of them
abbrev pub same_workspaces : DimensionRow → DimensionRow → DimensionRow → Bool
same_workspaces project type category =
    is_truthy project.workspace_id
    && (str_eq type.workspace_id project.workspace_id
        && str_eq category.workspace_id project.workspace_id)

abbrev pub is_active_admin : String → String → WorkspaceMembership → Bool
is_active_admin workspace user m =
    str_eq m.workspace_id workspace && (str_eq m.user_id user && (m.is_admin && m.is_active))

abbrev pub booking_of : String → BookingRow → Bool
booking_of transaction b = str_eq b.transaction_id transaction

-- The classification before: that of the booking, or of the transaction where there is none.
pub record Before : Type 0 where
  pub booking_id : Option String
  pub project_id : Option String
  pub transaction_type_id : Option String
  pub category_id : Option String

abbrev pub before_of : Option BookingRow → TransactionRow → Before
before_of none t = record {
  booking_id = none;
  project_id = t.project_id;
  transaction_type_id = t.transaction_type_id;
  category_id = t.category_id;
}
before_of (some b) t = record {
  booking_id = some b.id;
  project_id = some b.project_id;
  transaction_type_id = some b.transaction_type_id;
  category_id = some b.category_id;
}

abbrev pub or_null : Option String → Json
or_null none = Json.null
or_null (some s) = Json.text s

abbrev pub actor_of : ReviewDecisionActor → String
actor_of actor = or_else actor.actor_id actor.user_id

-- The rows that the booking is made from.
pub record Chosen : Type 0 where
  pub transaction : TransactionRow
  pub project : DimensionRow
  pub type : DimensionRow
  pub category : DimensionRow
  pub before : Before

unfoldable pub assignment_evidence : Env → AssignManualBookingInput → Chosen → Json
assignment_evidence env input c = stable_value env.locale_compare (
    object_of (
      ("action", Json.text "ASSIGN_MANUALLY")
      ∷ ("actorId", Json.text (actor_of input.actor))
      ∷ (
        "after",
        object_of (
            ("categoryId", Json.text c.category.id)
            ∷ ("projectId", Json.text c.project.id)
            ∷ ("transactionTypeId", Json.text c.type.id)
            ∷ []),
      )
      ∷ (
        "before",
        object_of (
            ("categoryId", or_null c.before.category_id)
            ∷ ("projectId", or_null c.before.project_id)
            ∷ ("transactionTypeId", or_null c.before.transaction_type_id)
            ∷ []),
      )
      ∷ ("reason", or_null input.reason)
      ∷ ("transactionId", Json.text c.transaction.facts.id)
      ∷ ("workspaceId", Json.text c.project.workspace_id)
      ∷ []))

abbrev pub assignment_hash : Env → AssignManualBookingInput → Chosen → String
assignment_hash env input c = hash_evidence env (assignment_evidence env input c)

-- `create` and `update` of the booking
unfoldable pub booking_row : Env → AssignManualBookingInput → Chosen → BookingRow
booking_row env input c = record {
  id = env.new_id;
  workspace_id = c.project.workspace_id;
  transaction_id = c.transaction.facts.id;
  project_id = c.project.id;
  transaction_type_id = c.type.id;
  category_id = c.category.id;
  source = manual;
  rule_id = none;
  historical_source_transaction_id = none;
  historical_match_key = none;
  evidence = assignment_evidence env input c;
  evidence_hash = assignment_hash env input c;
  confirmed_by = some (actor_of input.actor);
  confirmed_at = env.now;
  literal_project_label = c.project.label;
  literal_type_label = c.type.label;
  literal_category_label = c.category.label;
}

-- The identifier and the transaction stay.
abbrev pub rebook : Env → AssignManualBookingInput → Chosen → BookingRow → BookingRow
rebook env input c b = record (booking_row env input c) {
  id = b.id;
  transaction_id = b.transaction_id;
}

unfoldable pub decision_row : Env → AssignManualBookingInput → Chosen → BookingRow → ReviewDecision
decision_row env input c b = record {
  id = env.new_id;
  workspace_id = c.project.workspace_id;
  transaction_id = c.transaction.facts.id;
  suggestion_id = none;
  action = assign_manually;
  before_booking_id = c.before.booking_id;
  before_project_id = c.before.project_id;
  before_type_id = c.before.transaction_type_id;
  before_category_id = c.before.category_id;
  after_booking_id = some b.id;
  after_project_id = some c.project.id;
  after_type_id = some c.type.id;
  after_category_id = some c.category.id;
  actor_id = actor_of input.actor;
  actor_email = input.actor.actor_email;
  reason = input.reason;
  evidence = assignment_evidence env input c;
  evidence_hash = assignment_hash env input c;
  decided_at = env.now;
}

abbrev pub classify : Chosen → TransactionRow → TransactionRow
classify c t = record t {
  project_id = some c.project.id;
  transaction_type_id = some c.type.id;
  category_id = some c.category.id;
  classification_source = by_hand;
  classification_rule_id = none;
}

abbrev pub assignment_log : AssignManualBookingInput → Chosen → AuditLog
assignment_log input c = record {
  user_id = input.actor.user_id;
  actor_id = some (actor_of input.actor);
  actor_email = input.actor.actor_email;
  action = "transaction.booking.assigned";
  entity_type = "transaction";
  entity_id = some c.transaction.facts.id;
}
