-- ===== src/Booking/Run.antt =====
-- server/services/reviewDecisionService.ts, `assignManualBooking`: the guards and the writes.
use finance.Prelude.{Bool, List, str_eq, Result, ok, ◌>>=◌, ◌>>◌, require}
use finance.Close.Create.{Env}
use finance.Close.Strict.{is_admin_actor, find_or}
use finance.Booking.{
  TransactionRow, BookingRow, ReviewDecision, BookingTables, ReviewDecisionError, not_admin,
  incomplete_payload, transaction_not_found, other_workspaces, not_active_admin, write_failed,
}
use finance.Booking.Assign.{
  AssignManualBookingInput, is_complete_review_assignment_payload, own_transaction, row_with_id,
  same_workspaces, is_active_admin, booking_of, before_of, Chosen, booking_row, rebook,
  decision_row, classify, assignment_log,
}

pub record AssignManualBookingResult : Type 0 where
  pub booking : BookingRow
  pub decision : ReviewDecision
  pub transaction : TransactionRow

-- From the transaction on: the rows that are named, which are of one workspace with the actor.
unfoldable pub choose_rows :
    Env
    → BookingTables
    → AssignManualBookingInput
    → TransactionRow
    → Result ReviewDecisionError Chosen
choose_rows env db input t = do
  project ←
      find_or (env.client.find_first (row_with_id input.project_id) db.projects) incomplete_payload
  type ←
      find_or (env.client.find_first (row_with_id input.transaction_type_id) db.transaction_types)
        incomplete_payload
  category ←
      find_or (env.client.find_first (row_with_id input.category_id) db.categories)
        incomplete_payload
  require (same_workspaces project type category) other_workspaces
  member ←
      find_or
        (env.client.find_first (is_active_admin project.workspace_id input.actor.user_id)
          db.memberships)
        not_active_admin
  ok (record {
    transaction = t;
    project = project;
    type = type;
    category = category;
    before = before_of (env.client.find_first (booking_of t.facts.id) db.bookings) t;
  })

-- The booking, as it is returned, and the bookings after it.
unfoldable pub put_booking :
    Env → BookingTables → AssignManualBookingInput → Chosen → BookingRow × List BookingRow
put_booking env db input c =
    env.client.upsert (booking_of c.transaction.facts.id) (booking_row env input c)
      (rebook env input c) db.bookings

abbrev pub same_row : Chosen → TransactionRow → Bool
same_row c t = str_eq t.facts.id c.transaction.facts.id

unfoldable pub write_assignment :
    Env
    → BookingTables
    → AssignManualBookingInput
    → Chosen
    → Result ReviewDecisionError (AssignManualBookingResult × BookingTables)
write_assignment env db input c = do
  let booked = put_booking env db input c
  let decision = decision_row env input c booked.0
  decisions ← find_or (env.client.create (λ d. Bool.false) decision db.decisions) write_failed
  updated ← find_or (env.client.update (same_row c) (classify c) db.transactions) write_failed
  logs ←
      find_or (env.client.create (λ l. Bool.false) (assignment_log input c) db.audit_logs)
        write_failed
  ok (
    record { booking = booked.0; decision = decision; transaction = updated.0 },
    record db {
      transactions = updated.1;
      bookings = booked.1;
      decisions = decisions;
      audit_logs = logs;
    },
  )

unfoldable pub assign_manual_booking :
    Env
    → BookingTables
    → AssignManualBookingInput
    → Result ReviewDecisionError (AssignManualBookingResult × BookingTables)
assign_manual_booking env db input = do
  require (is_admin_actor input.actor.role) not_admin
  require (is_complete_review_assignment_payload input) incomplete_payload
  t ← find_or (env.client.find_first (own_transaction input) db.transactions) transaction_not_found
  c ← choose_rows env db input t
  write_assignment env db input c
