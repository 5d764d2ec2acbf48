-- ===== src/Examples/Bookings.antt =====
-- A booking by hand at concrete input.
use finance.Prelude.{◌≡◌, refl, true, none, some, [], ◌∷◌, ok, err}
use finance.Prelude.Int.{pos}
use finance.Import.Amounts.{is_space}
use finance.Evidence.{Json}
use finance.Statement.{debit}
use finance.Close.Create.{Env, hash_evidence}
use finance.Decision.{Hashing}
use finance.History.{ConfirmedHistoryCandidate}
use finance.History.Confirmed.{latest_decision, eligible_booking, confirm}
use finance.Booking.{unclassified, TransactionRow, BookingTables, other_workspaces}
use finance.Booking.Assign.{AssignManualBookingInput, Chosen, decision_row}
use finance.Booking.Run.{
  AssignManualBookingResult, choose_rows, write_assignment, assign_manual_booking,
}
use finance.Booking.Assigned.{IsAssigned}
use finance.Booking.Allowed.{IsAllowed, assign-IsAssigned}
use finance.Database.{Occurs}
use finance.Booking.Confirmed.{
  selected_booking, selected_decision, HasText, IsCandidate, confirm-write_assignment,
}
use finance.Examples.ListClient.{list_client, list_client-IsClient}

abbrev booking_env : Env
booking_env = record {
  client = list_client;
  new_id = "n";
  now = 1706500000000;
  digest = λ j. "hash";
  locale_compare = λ a b. pos 0;
}

abbrev invoice : TransactionRow
invoice = record {
  facts = record {
    id = "x";
    user_id = "u";
    account_id = some "a";
    import_batch_id = none;
    ledger_id = none;
    date = 1706200000000;
    amount_minor = pos 75000;
    currency = "EUR";
    direction = debit;
    description = "Rent January";
    counterparty = some "Landlord";
    reference = none;
    hash = "bank";
    import_fingerprint = none;
    raw_row = none;
  };
  project_id = none;
  transaction_type_id = none;
  category_id = none;
  classification_source = unclassified;
  classification_rule_id = none;
}

abbrev booking_db : BookingTables
booking_db = record {
  transactions = invoice ∷ [];
  bookings = [];
  decisions = [];
  projects = record { id = "p"; workspace_id = "w"; label = "Office" } ∷ [];
  transaction_types = record { id = "t"; workspace_id = "w"; label = "Costs" } ∷ [];
  categories =
      record { id = "c"; workspace_id = "w"; label = "Rent" }
      ∷ record { id = "d"; workspace_id = "v"; label = "Rent" }
      ∷ [];
  memberships =
      record { workspace_id = "w"; user_id = "u"; is_admin = true; is_active = true } ∷ [];
  audit_logs = [];
}

abbrev assign_input : AssignManualBookingInput
assign_input = record {
  actor = record { user_id = "u"; role = none; actor_id = none; actor_email = none };
  transaction_id = "x";
  project_id = "p";
  transaction_type_id = "t";
  category_id = "c";
  reason = none;
}

rows_chosen : (c : Chosen) × (choose_rows booking_env booking_db assign_input invoice ≡ ok c)
unfolding choose_rows
rows_chosen = (_, refl)

assignment_written :
    (out : AssignManualBookingResult × BookingTables) × (write_assignment booking_env booking_db
        assign_input rows_chosen.0
      ≡ ok out)
unfolding write_assignment rows_chosen
assignment_written = (_, refl)

manual_assigned :
    (out : AssignManualBookingResult × BookingTables) × (assign_manual_booking booking_env
        booking_db assign_input
      ≡ ok out)
unfolding assign_manual_booking choose_rows write_assignment
manual_assigned = (_, refl)

-- A category of another workspace is refused.
other_category :
    assign_manual_booking booking_env booking_db (record assign_input { category_id = "d" })
    ≡ err other_workspaces
unfolding assign_manual_booking choose_rows
other_category = refl

assign-IsAssigned_example :
    IsAllowed assign_input
    × ((c : Chosen) × (Occurs c.transaction booking_db.transactions
          × IsAssigned booking_env booking_db assign_input c manual_assigned.0.0
              manual_assigned.0.1))
assign-IsAssigned_example =
    assign-IsAssigned booking_env list_client-IsClient booking_db assign_input manual_assigned.0.0
      manual_assigned.0.1 manual_assigned.1

abbrev booking_hashing : Hashing
booking_hashing = record { hash_of = λ a. "hash"; locale_compare = λ a b. pos 0 }

abbrev written : AssignManualBookingResult
written = assignment_written.0.0

abbrev invoice_candidate : ConfirmedHistoryCandidate
invoice_candidate = record {
  id = "x";
  user_id = "u";
  date = 1706200000000;
  account_id = some "a";
  direction = debit;
  amount_minor = pos 75000;
  counterparty = some "Landlord";
  reference = none;
  description = "Rent January";
  raw_row = Json.null;
  ledger = none;
  transaction_booking = some (selected_booking rows_chosen.0 written.booking);
  review_decisions = selected_decision written.decision ∷ [];
}

invoice-HasText : HasText booking_env assign_input rows_chosen.0
unfolding rows_chosen choose_rows is_space hash_evidence
invoice-HasText = record {
  project_text = refl;
  type_text = refl;
  category_text = refl;
  actor_text = refl;
  hash_text = refl;
}

invoice-IsCandidate : IsCandidate booking_hashing rows_chosen.0 written invoice_candidate
unfolding rows_chosen choose_rows assignment_written write_assignment latest_decision decision_row
invoice-IsCandidate = record {
  booking_selected = refl;
  decision_latest = refl;
  decisions_own = refl;
}

confirm-write_assignment_example :
    confirm booking_hashing rows_chosen.0.project.workspace_id invoice_candidate
    ≡ ok (
        eligible_booking booking_hashing rows_chosen.0.project.workspace_id invoice_candidate
          (selected_booking rows_chosen.0 written.booking)
          (selected_decision written.decision))
confirm-write_assignment_example =
    confirm-write_assignment booking_hashing booking_env list_client-IsClient booking_db
      assignment_written.0.1 assign_input invoice rows_chosen.0 written invoice_candidate refl
      rows_chosen.1 assignment_written.1 invoice-HasText invoice-IsCandidate
