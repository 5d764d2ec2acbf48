-- ===== src/Booking/Assigned.antt =====
-- What a booking by hand has written when it returns.
use finance.Prelude.{
  str_eq, suc, ◌≤◌, ◌≡◌, refl, none, some, or_else, Bool, false, not, ◌&&◌, if◌then◌else◌,
  Bool-cases, inl, inr, ok, bind-ok, ok_injective, sym, ap, ◌∙◌,
}
use finance.Prelude.Sums.{count}
use finance.Database.{IsClient}
use finance.Close.Create.{Env}
use finance.Close.Strict.{find_or}
use finance.Close.Agreed.{find_or-ok}
use finance.History.{manual, assign_manually}
use finance.Booking.{
  by_hand, BankFacts, TransactionRow, BookingRow, ReviewDecision, BookingTables, write_failed,
}
use finance.Booking.Assign.{
  AssignManualBookingInput, booking_of, Chosen, booking_row, decision_row, classify, assignment_log,
}
use finance.Booking.Choice.{IsChosen}
use finance.Booking.Put.{IsBooking, count-imp, IsPut, put-IsPut}
use finance.Booking.Run.{AssignManualBookingResult, put_booking, same_row, write_assignment}

-- What the booking and the decision say.
pub record IsManual (input : AssignManualBookingInput) (c : Chosen)
    (result : AssignManualBookingResult) : Type 0 where
  pub booking_of_transaction : result.booking.transaction_id ≡ input.transaction_id
  pub booking_workspace : result.booking.workspace_id ≡ c.project.workspace_id
  pub booking_project : result.booking.project_id ≡ input.project_id
  pub booking_type : result.booking.transaction_type_id ≡ input.transaction_type_id
  pub booking_category : result.booking.category_id ≡ input.category_id
  pub booking_manual : result.booking.source ≡ manual
  pub booking_without_rule : result.booking.rule_id ≡ none
  pub booking_without_match : result.booking.historical_match_key ≡ none
  pub booking_by :
      result.booking.confirmed_by ≡ some (or_else input.actor.actor_id input.actor.user_id)
  pub decision_of_transaction : result.decision.transaction_id ≡ input.transaction_id
  pub decision_action : result.decision.action ≡ assign_manually
  pub decision_booking : result.decision.after_booking_id ≡ some result.booking.id
  pub decision_project : result.decision.after_project_id ≡ some input.project_id
  pub decision_type : result.decision.after_type_id ≡ some input.transaction_type_id
  pub decision_category : result.decision.after_category_id ≡ some input.category_id
  pub decision_before_booking : result.decision.before_booking_id ≡ c.before.booking_id
  pub decision_before_project : result.decision.before_project_id ≡ c.before.project_id
  pub decision_before_type : result.decision.before_type_id ≡ c.before.transaction_type_id
  pub decision_before_category : result.decision.before_category_id ≡ c.before.category_id
  pub decision_by : result.decision.actor_id ≡ or_else input.actor.actor_id input.actor.user_id
  pub same_evidence : result.decision.evidence_hash ≡ result.booking.evidence_hash

-- The classification that a transaction has after a booking by hand.
abbrev pub reclassified : AssignManualBookingInput → TransactionRow → TransactionRow
reclassified input t = record t {
  project_id = some input.project_id;
  transaction_type_id = some input.transaction_type_id;
  category_id = some input.category_id;
  classification_source = by_hand;
  classification_rule_id = none;
}

pub record IsAssigned (env : Env) (db : BookingTables) (input : AssignManualBookingInput)
    (c : Chosen) (result : AssignManualBookingResult) (db' : BookingTables) : Type 0 where
  pub chosen : IsChosen env db input c
  pub says : IsManual input c result
  pub booked : IsBooking env input c result.booking
  pub one_booking :
      count (booking_of c.transaction.facts.id) db.bookings ≤ 1
      → count (booking_of c.transaction.facts.id) db'.bookings ≡ 1
  pub others_kept :
      (q : BookingRow → Bool)
      → count (λ b. not (booking_of c.transaction.facts.id b) && q b) db'.bookings
        ≡ count (λ b. not (booking_of c.transaction.facts.id b) && q b) db.bookings
  pub facts_kept :
      (q : BankFacts → Bool)
      → count (λ (t : TransactionRow). q t.facts) db'.transactions
        ≡ count (λ (t : TransactionRow). q t.facts) db.transactions
  pub classified :
      (q : TransactionRow → Bool)
      → count q db'.transactions
        ≡ count
            (λ t. q (if str_eq t.facts.id input.transaction_id then reclassified input t else t))
            db.transactions
  pub decision_is : result.decision ≡ decision_row env input c result.booking
  pub decision_added :
      (q : ReviewDecision → Bool)
      → count q db'.decisions
        ≡ (if q result.decision then suc (count q db.decisions) else count q db.decisions)

module _ (env : Env) (lawful : IsClient env.client) (db : BookingTables)
    (input : AssignManualBookingInput) (c : Chosen) where
  abbrev put : IsPut env db input c (put_booking env db input c)
  put = put-IsPut env lawful db input c

  write-IsManual :
      IsChosen env db input c
      → (b : BookingRow) → IsBooking env input c b
      → (t : TransactionRow)
      → IsManual input c
          (record { booking = b; decision = decision_row env input c b; transaction = t })
  unfolding booking_row decision_row
  write-IsManual k b is t = record {
    booking_of_transaction = ap (λ (x : BookingRow). x.transaction_id) is ∙ k.transaction_named;
    booking_workspace = ap (λ (x : BookingRow). x.workspace_id) is;
    booking_project = ap (λ (x : BookingRow). x.project_id) is ∙ k.project_named;
    booking_type = ap (λ (x : BookingRow). x.transaction_type_id) is ∙ k.type_named;
    booking_category = ap (λ (x : BookingRow). x.category_id) is ∙ k.category_named;
    booking_manual = ap (λ (x : BookingRow). x.source) is;
    booking_without_rule = ap (λ (x : BookingRow). x.rule_id) is;
    booking_without_match = ap (λ (x : BookingRow). x.historical_match_key) is;
    booking_by = ap (λ (x : BookingRow). x.confirmed_by) is;
    decision_of_transaction = k.transaction_named;
    decision_action = refl;
    decision_booking = refl;
    decision_project = ap some k.project_named;
    decision_type = ap some k.type_named;
    decision_category = ap some k.category_named;
    decision_before_booking = refl;
    decision_before_project = refl;
    decision_before_type = refl;
    decision_before_category = refl;
    decision_by = refl;
    same_evidence = sym (ap (λ (x : BookingRow). x.evidence_hash) is);
  }

  same_facts :
      (q : BankFacts → Bool) (t : TransactionRow)
      → q (if same_row c t then classify c t else t).facts ≡ q t.facts
  same_facts q t = elim (Bool-cases (same_row c t)) [ inl e ↦ rw e refl | inr e ↦ rw e refl ]

  same_classification :
      IsChosen env db input c
      → (q : TransactionRow → Bool) (t : TransactionRow)
      → q (if same_row c t then classify c t else t)
        ≡ q (if str_eq t.facts.id input.transaction_id then reclassified input t else t)
  same_classification k q t =
      rw (k.transaction_named, k.project_named, k.type_named, k.category_named) refl

  pub write-IsAssigned :
      (result : AssignManualBookingResult) (db' : BookingTables)
      → IsChosen env db input c
      → write_assignment env db input c ≡ ok (result, db')
      → IsAssigned env db input c result db'
  unfolding write_assignment
  write-IsAssigned result db' chosen h =
      let booked = put_booking env db input c in
      let decision = decision_row env input c booked.0 in
      let (decisions, (d, h1)) =
        bind-ok (find_or (env.client.create (λ x. false) decision db.decisions) write_failed) _ h in
      let (updated, (u, h2)) =
        bind-ok (find_or (env.client.update (same_row c) (classify c) db.transactions) write_failed)
          _ h1 in
      let (logs, (l, h3)) =
        bind-ok
          (find_or (env.client.create (λ x. false) (assignment_log input c) db.audit_logs)
            write_failed)
          _ h2 in
      let made = sym (ok_injective h3) in
      let result_is = ap (λ (r : AssignManualBookingResult × BookingTables). r.0) made in
      let db_is = ap (λ (r : AssignManualBookingResult × BookingTables). r.1) made in
      rw (result_is, db_is)
        (record {
          chosen = chosen;
          says = write-IsManual chosen booked.0 put.row_booked updated.0;
          booked = put.row_booked;
          one_booking = put.row_alone;
          others_kept = put.rest_kept;
          facts_kept = λ q.
              lawful.update_rows _ _ _ _ _ (find_or-ok _ _ u) (λ t. q t.facts)
              ∙ count-imp _ (λ (t : TransactionRow). q t.facts) db.transactions (same_facts q);
          classified = λ q.
              lawful.update_rows _ _ _ _ _ (find_or-ok _ _ u) q
              ∙ count-imp _ _ db.transactions (same_classification chosen q);
          decision_is = refl;
          decision_added = lawful.create_rows _ decision _ _ (find_or-ok _ _ d);
        })
