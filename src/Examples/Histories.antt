-- ===== src/Examples/Histories.antt =====
-- Confirmed history at concrete input.
use finance.Prelude.{◌≡◌, ◌↔◌, refl, none, some, [], ◌∷◌, ok, err}
use finance.Prelude.Int.{pos}
use finance.Import.Amounts.{is_space}
use finance.Evidence.{Json, object_of}
use finance.Statement.{debit}
use finance.Decision.{Hashing}
use finance.History.{
  manual, assign_manually, accept_suggestion, remove_booking, pending, ConfirmedHistoryDecision,
  CurrentBooking, ConfirmedHistoryCandidate, suggestion_not_confirmed,
}
use finance.History.Facts.{read_suggestion_raw_string}
use finance.History.Confirmed.{latest_decision, eligible_booking, confirm}
use finance.History.Evaluate.{LoadConfirmedHistoryInput, load_confirmed_history_eligibility}
use finance.History.Accepted.{IsConfirmed, confirm_iff}
use finance.History.Loaded.{IsLoaded, load-IsLoaded}
use finance.Examples.ListClient.{list_client, list_client-IsClient}

abbrev history_hashing : Hashing
history_hashing = record { hash_of = λ a. "hash"; locale_compare = λ a b. pos 0 }

abbrev rent_booking : CurrentBooking
rent_booking = record {
  id = "b1";
  workspace_id = "w";
  project_id = "p";
  transaction_type_id = "t";
  category_id = "c";
  source = manual;
  evidence_hash = "e1";
  confirmed_by = some "u";
  confirmed_at = 1706400000000;
  project_workspace_id = "w";
  type_workspace_id = "w";
  category_workspace_id = "w";
}

abbrev assigned : ConfirmedHistoryDecision
assigned = record {
  id = "d1";
  workspace_id = "w";
  transaction_id = "x1";
  suggestion_id = none;
  action = assign_manually;
  after_booking_id = some "b1";
  after_project_id = some "p";
  after_type_id = some "t";
  after_category_id = some "c";
  actor_id = "u";
  evidence_hash = "e2";
  decided_at = 1706400000000;
  suggestion = none;
}

-- An earlier decision, which does not count.
abbrev removed_before : ConfirmedHistoryDecision
removed_before = record assigned {
  id = "d0";
  action = remove_booking;
  after_booking_id = none;
  decided_at = 1706300000000;
}

abbrev rent : ConfirmedHistoryCandidate
rent = record {
  id = "x1";
  user_id = "u";
  date = 1706200000000;
  account_id = some "a";
  direction = debit;
  amount_minor = pos 75000;
  counterparty = some "Landlord";
  reference = none;
  description = "Rent January";
  raw_row = object_of (
      ("columns", object_of (("IBAN/BBAN", Json.text " MT01 ") ∷ []))
      ∷ ("Notifications", Json.text "Rent")
      ∷ []);
  ledger = some none;
  transaction_booking = some rent_booking;
  review_decisions = removed_before ∷ assigned ∷ [];
}

-- The latest decision accepts a suggestion that is not accepted.
abbrev unsettled : ConfirmedHistoryCandidate
unsettled = record rent {
  id = "x2";
  review_decisions =
      record assigned {
        action = accept_suggestion;
        suggestion = some (record { workspace_id = "w"; status = pending });
      }
      ∷ [];
}

rent_iban :
    read_suggestion_raw_string rent.raw_row ("Counterparty IBAN" ∷ "IBAN/BBAN" ∷ []) ≡ some "MT01"
unfolding read_suggestion_raw_string is_space
rent_iban = refl

rent_confirmed :
    confirm history_hashing "w" rent
    ≡ ok (eligible_booking history_hashing "w" rent rent_booking assigned)
unfolding confirm latest_decision is_space
rent_confirmed = refl

unsettled_excluded : confirm history_hashing "w" unsettled ≡ err suggestion_not_confirmed
unfolding confirm latest_decision is_space
unsettled_excluded = refl

confirm_iff_example :
    (confirm history_hashing "w" rent
      ≡ ok (eligible_booking history_hashing "w" rent rent_booking assigned))
    ↔ ((b : CurrentBooking) × ((d : ConfirmedHistoryDecision) × (IsConfirmed history_hashing "w"
              rent b d
            × (eligible_booking history_hashing "w" rent rent_booking assigned
                ≡ eligible_booking history_hashing "w" rent b d))))
confirm_iff_example =
    confirm_iff history_hashing "w" rent
      (eligible_booking history_hashing "w" rent rent_booking assigned)

abbrev load_input : LoadConfirmedHistoryInput
load_input = record {
  workspace_id = "w";
  user_id = "u";
  maximum_rows = some 1;
  not_before = none;
  not_after = some 1706900000000;
}

load-IsLoaded_example : IsLoaded history_hashing (unsettled ∷ rent ∷ []) load_input (
    load_confirmed_history_eligibility history_hashing list_client
      (unsettled ∷ rent ∷ [])
      load_input)
load-IsLoaded_example =
    load-IsLoaded history_hashing list_client list_client-IsClient (unsettled ∷ rent ∷ [])
      load_input
