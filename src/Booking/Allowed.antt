-- ===== src/Booking/Allowed.antt =====
-- A booking by hand that returns was allowed.
use mathlib.Core.Path.{subst}
use finance.Prelude.{◌≡◌, arith, true, some, is_truthy, ok, require, seq-ok, bind-ok, require-ok}
use finance.Database.{Occurs, IsClient}
use finance.Close.Create.{Env}
use finance.Close.Strict.{AppRole, is_admin_actor, find_or}
use finance.Close.Agreed.{find_or-ok, role_admin}
use finance.Booking.{BookingTables, not_admin, incomplete_payload, transaction_not_found}
use finance.Booking.Assign.{
  AssignManualBookingInput, is_complete_review_assignment_payload, own_transaction, Chosen,
}
use finance.Booking.Choice.{choose-IsChosen}
use finance.Booking.Run.{AssignManualBookingResult, choose_rows, assign_manual_booking}
use finance.Booking.Assigned.{IsAssigned, write-IsAssigned}

-- The actor is no mere viewer, and a project, a type and a category are given.
pub record IsAllowed (input : AssignManualBookingInput) : Type 0 where
  pub role_allowed : (r : AppRole) → input.actor.role ≡ some r → r ≡ AppRole.admin
  pub project_given : is_truthy input.project_id ≡ true
  pub type_given : is_truthy input.transaction_type_id ≡ true
  pub category_given : is_truthy input.category_id ≡ true

module _ (env : Env) (lawful : IsClient env.client) (db : BookingTables)
    (input : AssignManualBookingInput) where
  -- A call of `assignManualBooking` that returns had an actor without a role or with that of an
  -- administrator, and a project, a type and a category that are given. In the tables are the transaction of
  -- the user, a project, a type and a category with the identifiers of the input and of one workspace, and
  -- an active membership of the user in it as an administrator. The booking that it returns is by
  -- hand, of that transaction, with that project, type and category and without a rule; where the
  -- transaction had at most one booking it has one, and the bookings of others are as before. The
  -- transaction has that project, type and category, by hand and without a rule; no bank fact of any
  -- transaction and no other classification changes. One decision is added, which names that booking
  -- and says what the classification was before and what it is now.
  pub assign-IsAssigned :
      (result : AssignManualBookingResult) (db' : BookingTables)
      → assign_manual_booking env db input ≡ ok (result, db')
      → IsAllowed input
        × ((c : Chosen) × (Occurs c.transaction db.transactions
              × IsAssigned env db input c result db'))
  unfolding assign_manual_booking
  assign-IsAssigned result db' h =
      let (admin, h1) = seq-ok (require (is_admin_actor input.actor.role) not_admin) _ h in
      let (complete, h2) =
        seq-ok (require (is_complete_review_assignment_payload input) incomplete_payload) _ h1 in
      let (t, (found, h3)) =
        bind-ok
          (find_or (env.client.find_first (own_transaction input) db.transactions)
            transaction_not_found)
          _ h2 in
      let (c, (chose, h4)) = bind-ok (choose_rows env db input t) _ h3 in
      let (own, there) = lawful.find_first_some _ _ t (find_or-ok _ _ found) in
      let given = require-ok (is_complete_review_assignment_payload input) _ complete in
      let (chosen, same) = choose-IsChosen env lawful db input t c own chose in
      (
        record {
          role_allowed = λ r e. role_admin input.actor.role r (require-ok _ _ admin) e;
          project_given = ground arith;
          type_given = ground arith;
          category_given = ground arith;
        },
        (
          c,
          (
            subst (λ x. Occurs x db.transactions) same there,
            write-IsAssigned env lawful db input c result db' chosen h4,
          ),
        ),
      )
