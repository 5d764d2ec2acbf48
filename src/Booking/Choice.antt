-- ===== src/Booking/Choice.antt =====
-- The rows that a booking by hand is made from.
use finance.Prelude.{
  ◌≡◌, refl, arith, str_eq, str_eq_iff, is_truthy, true, ok, require, seq-ok, bind-ok, require-ok,
  ok_injective, sym, ap,
}
use finance.Database.{Occurs, IsClient}
use finance.Close.Create.{Env}
use finance.Close.Strict.{find_or}
use finance.Close.Agreed.{find_or-ok}
use finance.Booking.{
  WorkspaceMembership, TransactionRow, BookingTables, incomplete_payload, other_workspaces,
  not_active_admin,
}
use finance.Booking.Assign.{
  AssignManualBookingInput, own_transaction, row_with_id, same_workspaces, is_active_admin,
  booking_of, before_of, Chosen,
}
use finance.Booking.Run.{choose_rows}

-- The rows that were chosen are in the tables, are those of the input, and are of one workspace.
pub record IsChosen (env : Env) (db : BookingTables) (input : AssignManualBookingInput) (c : Chosen)
    : Type 0 where
  pub transaction_named : c.transaction.facts.id ≡ input.transaction_id
  pub transaction_of_user : c.transaction.facts.user_id ≡ input.actor.user_id
  pub project_named : c.project.id ≡ input.project_id
  pub type_named : c.type.id ≡ input.transaction_type_id
  pub category_named : c.category.id ≡ input.category_id
  pub project_there : Occurs c.project db.projects
  pub type_there : Occurs c.type db.transaction_types
  pub category_there : Occurs c.category db.categories
  pub workspace_given : is_truthy c.project.workspace_id ≡ true
  pub type_workspace : c.type.workspace_id ≡ c.project.workspace_id
  pub category_workspace : c.category.workspace_id ≡ c.project.workspace_id
  pub before_is :
      c.before
      ≡ before_of
          (env.client.find_first (booking_of c.transaction.facts.id) db.bookings)
          c.transaction
  pub member : WorkspaceMembership
  pub member_there : Occurs member db.memberships
  pub member_of_workspace : member.workspace_id ≡ c.project.workspace_id
  pub member_is_user : member.user_id ≡ input.actor.user_id
  pub member_is_admin : member.is_admin ≡ true
  pub member_is_active : member.is_active ≡ true

module _ (env : Env) (lawful : IsClient env.client) (db : BookingTables)
    (input : AssignManualBookingInput) where
  pub choose-IsChosen :
      (t : TransactionRow) (c : Chosen)
      → own_transaction input t ≡ true
      → choose_rows env db input t ≡ ok c
      → IsChosen env db input c × (t ≡ c.transaction)
  unfolding choose_rows
  choose-IsChosen t c own h =
      let (project, (p, h1)) =
        bind-ok
          (find_or (env.client.find_first (row_with_id input.project_id) db.projects)
            incomplete_payload)
          _ h in
      let (type, (ty, h2)) =
        bind-ok
          (find_or
            (env.client.find_first (row_with_id input.transaction_type_id) db.transaction_types)
            incomplete_payload)
          _ h1 in
      let (category, (ca, h3)) =
        bind-ok
          (find_or (env.client.find_first (row_with_id input.category_id) db.categories)
            incomplete_payload)
          _ h2 in
      let (one, h4) =
        seq-ok (require (same_workspaces project type category) other_workspaces) _ h3 in
      let (member, (m, h5)) =
        bind-ok
          (find_or
            (env.client.find_first (is_active_admin project.workspace_id input.actor.user_id)
              db.memberships)
            not_active_admin)
          _ h4 in
      let (is_member, occurs) = lawful.find_first_some _ _ member (find_or-ok _ _ m) in
      let (p_named, p_there) = lawful.find_first_some _ _ project (find_or-ok _ _ p) in
      let (ty_named, ty_there) = lawful.find_first_some _ _ type (find_or-ok _ _ ty) in
      let (ca_named, ca_there) = lawful.find_first_some _ _ category (find_or-ok _ _ ca) in
      let made = sym (ok_injective h5) in
      let own_id : str_eq t.facts.id input.transaction_id ≡ true = ground arith in
      let own_user : str_eq t.facts.user_id input.actor.user_id ≡ true = ground arith in
      let same = require-ok (same_workspaces project type category) other_workspaces one in
      let type_own : str_eq type.workspace_id project.workspace_id ≡ true = ground arith in
      let category_own : str_eq category.workspace_id project.workspace_id ≡ true = ground arith in
      let m_workspace : str_eq member.workspace_id project.workspace_id ≡ true = ground arith in
      let m_user : str_eq member.user_id input.actor.user_id ≡ true = ground arith in
      (
        rw made (record {
          transaction_named = (str_eq_iff _ _).0 own_id;
          transaction_of_user = (str_eq_iff _ _).0 own_user;
          project_named = (str_eq_iff _ _).0 p_named;
          type_named = (str_eq_iff _ _).0 ty_named;
          category_named = (str_eq_iff _ _).0 ca_named;
          project_there = p_there;
          type_there = ty_there;
          category_there = ca_there;
          workspace_given = ground arith;
          type_workspace = (str_eq_iff _ _).0 type_own;
          category_workspace = (str_eq_iff _ _).0 category_own;
          before_is = refl;
          member = member;
          member_there = occurs;
          member_of_workspace = (str_eq_iff _ _).0 m_workspace;
          member_is_user = (str_eq_iff _ _).0 m_user;
          member_is_admin = ground arith;
          member_is_active = ground arith;
        }),
        ap (λ (k : Chosen). k.transaction) (ok_injective h5),
      )
