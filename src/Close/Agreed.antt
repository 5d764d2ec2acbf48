-- ===== src/Close/Agreed.antt =====
-- What a strict close that succeeds has checked and written.
use finance.Prelude.{
  ◌≡◌, refl, arith, true, not, ◌&&◌, Option, none, some, String, str_eq, str_eq_iff, is_some,
  or_else, ok, require, map_err, seq-ok, bind-ok, map_err-ok, require-ok, ok_injective, ap,
}
use finance.Prelude.Sums.{count}
use finance.Statement.{is_complete}
use finance.Reconciliation.{BalancedReconciliationEvidence}
use finance.Reconciliation.Combined.{
  CombinedCloseControlPreview, to_combined_reconciliation_evidence,
}
use finance.Database.{Occurs, IsClient}
use finance.Close.Tables.{PeriodClose, StatementPeriod, Ledger, Tables}
use finance.Close.Create.{Env, create_period_close}
use finance.Close.Strict.{
  AppRole, StrictPeriodCloseInput, StrictPeriodCloseResult, StrictPeriodCloseError, hash_outdated,
  not_eligible, no_evidence, not_admin, not_confirmed, hash_missing, statement_period_not_found,
  ledger_not_found, already_closed, month_not_covered, find_or, closed_of, is_admin_actor, has_text,
}
use finance.Close.Strict.Hash.{build_close_control_hash_from_parts}
use finance.Close.Strict.Reads.{source_slice, close_preview}
use finance.Close.Strict.Run.{
  close_data, close_under_hash, close_result, hash_matches, close_month,
  execute_strict_period_close,
}

pub find_or-ok :
    {E : Type 0} {A : Type 0} (o : Option A) (e : E) {a : A} → find_or o e ≡ ok a → o ≡ some a
find_or-ok none e h = absurd cc
find_or-ok (some b) e h = ap some (ok_injective h)

pub role_admin :
    (role : Option AppRole) (r : AppRole)
    → is_admin_actor role ≡ true
    → role ≡ some r
    → r ≡ AppRole.admin
role_admin none r h e = absurd cc
role_admin (some AppRole.admin) r h e = cc
role_admin (some AppRole.viewer) r h e = absurd cc

-- The period and the ledger are in the tables, are those of the input, and the ledger is the user's.
pub record IsNamed (db : Tables) (input : StrictPeriodCloseInput) (sp : StatementPeriod)
    (ledger : Ledger) : Type 0 where
  pub period_there : Occurs sp db.statement_periods
  pub period_named : sp.id ≡ input.statement_period_id
  pub ledger_there : Occurs ledger db.ledgers
  pub ledger_named : ledger.id ≡ input.ledger_id
  pub ledger_of_user : ledger.user_id ≡ input.actor.user_id

-- The month is covered, the preview that is returned is that of the tables and the one under the
-- expected hash, it lets the period close, and the
-- close is made with its evidence.
pub record IsAgreed (env : Env) (db : Tables) (input : StrictPeriodCloseInput)
    (out : StrictPeriodCloseResult × Tables) : Type 0 where
  pub sp : StatementPeriod
  pub ledger : Ledger
  pub named : IsNamed db input sp ledger
  pub covered :
      is_complete (source_slice env db input.actor.user_id sp ledger).coverage_status ≡ true
  pub previewed :
      close_preview env db input.actor.user_id sp ledger
        (source_slice env db input.actor.user_id sp ledger)
      ≡ ok out.0.combined_preview
  pub evidence : BalancedReconciliationEvidence
  pub made : PeriodClose × Tables
  pub hash_is :
      out.0.close_control_hash
      ≡ build_close_control_hash_from_parts env input.statement_period_id input.ledger_id
          out.0.combined_preview
  pub hash_expected :
      (h : String) → input.expected_close_control_hash ≡ some h → h ≡ out.0.close_control_hash
  pub eligible : out.0.combined_preview.combined_close_eligible ≡ true
  pub evidence_is : to_combined_reconciliation_evidence out.0.combined_preview ≡ some evidence
  pub created :
      create_period_close env db (
        close_data input sp
          (source_slice env db input.actor.user_id sp ledger)
          out.0.close_control_hash
          evidence)
      ≡ ok made
  pub close_is : out.0.close_id ≡ made.0.id
  pub version_is : out.0.version ≡ made.0.version
  pub tables_are : out.1 ≡ made.1

none_of_not : {A : Type 0} (o : Option A) → not (is_some o) ≡ true → o ≡ none
none_of_not none h = refl
none_of_not (some a) h = absurd (ground arith)

matches_lem :
    (o : Option String) (hash x : String) → o ≡ some x → hash_matches o hash ≡ true → x ≡ hash
matches_lem none hash x e h = absurd cc
matches_lem (some y) hash x e h = (str_eq_iff x hash).0 (rw (← ap (λ o. or_else o y) e) h)

module _ (env : Env) (db : Tables) (input : StrictPeriodCloseInput) where
  under_hash-IsAgreed :
      (sp : StatementPeriod) (ledger : Ledger) (combined : CombinedCloseControlPreview)
      (out : StrictPeriodCloseResult × Tables)
      → IsNamed db input sp ledger
      → let slice = source_slice env db input.actor.user_id sp ledger in
        is_complete slice.coverage_status ≡ true
        → close_preview env db input.actor.user_id sp ledger slice ≡ ok combined
        → close_under_hash env db input sp slice combined ≡ ok out
        → IsAgreed env db input out
  unfolding close_under_hash close_result
  under_hash-IsAgreed sp ledger combined out named covered previewed h =
      let slice = source_slice env db input.actor.user_id sp ledger in
      let hash =
        build_close_control_hash_from_parts env input.statement_period_id input.ledger_id
          combined in
      let (matches, h1) =
        seq-ok (require (hash_matches input.expected_close_control_hash hash) hash_outdated) _ h in
      let (eligible, h2) =
        seq-ok (require combined.combined_close_eligible (not_eligible combined.combined_reasons)) _
          h1 in
      let (evidence, (evidence_is, h3)) =
        bind-ok (find_or (to_combined_reconciliation_evidence combined) no_evidence) _ h2 in
      let (made, (created, h4)) =
        bind-ok
          (map_err StrictPeriodCloseError.period_close
            (create_period_close env db (close_data input sp slice hash evidence)))
          _ h3 in
      let is = ok_injective h4 in
      rw (← is) (record {
        sp = sp;
        ledger = ledger;
        named = named;
        covered = covered;
        previewed = previewed;
        evidence = evidence;
        made = made;
        hash_is = refl;
        hash_expected = λ x e. matches_lem _ hash x e (require-ok _ _ matches);
        eligible = require-ok _ _ eligible;
        evidence_is = find_or-ok _ no_evidence evidence_is;
        created = map_err-ok StrictPeriodCloseError.period_close _ created;
        close_is = refl;
        version_is = refl;
        tables_are = refl;
      })

  month-IsAgreed :
      (sp : StatementPeriod) (ledger : Ledger) (out : StrictPeriodCloseResult × Tables)
      → IsNamed db input sp ledger
      → close_month env db input sp ledger ≡ ok out
      → IsAgreed env db input out
  unfolding close_month
  month-IsAgreed sp ledger out named h =
      let slice = source_slice env db input.actor.user_id sp ledger in
      let (covered, h1) =
        seq-ok (require (is_complete slice.coverage_status) month_not_covered) _ h in
      let (combined, (previewed, h2)) =
        bind-ok (close_preview env db input.actor.user_id sp ledger slice) _ h1 in
      under_hash-IsAgreed sp ledger combined out named (require-ok _ _ covered) previewed h2

  -- A strict close that succeeds was asked for by an actor without a role or with that of an
  -- administrator, and no close of the ledger was open. The period and the ledger are in the tables under
  -- the identifiers of the input, the ledger being the user's. The slice of the month is complete, and the
  -- preview that it returns is the one built from the tables. The hash that it returns is that of
  -- the preview, and the expected one if one is expected; the preview lets the period close, and
  -- `createPeriodClose` has made the close, with the evidence of that preview.
  pub strict-IsAgreed :
      (lawful : IsClient env.client) (out : StrictPeriodCloseResult × Tables)
      → execute_strict_period_close env db input ≡ ok out
      → (is_admin_actor input.actor.role ≡ true)
        × ((count (closed_of input.ledger_id) db.period_closes ≡ 0) × IsAgreed env db input out)
  unfolding execute_strict_period_close
  strict-IsAgreed lawful out h =
      let (is_admin, h1) = seq-ok (require (is_admin_actor input.actor.role) not_admin) _ h in
      let (confirmed, h2) = seq-ok (require input.confirmed not_confirmed) _ h1 in
      let (given, h3) =
        seq-ok (require (has_text input.expected_close_control_hash) hash_missing) _ h2 in
      let (sp, (sp_is, h4)) =
        bind-ok
          (find_or
            (env.client.find_first (λ x. str_eq x.id input.statement_period_id)
              db.statement_periods)
            statement_period_not_found)
          _ h3 in
      let (ledger, (ledger_is, h5)) =
        bind-ok
          (find_or
            (env.client.find_first
              (λ x. str_eq x.id input.ledger_id && str_eq x.user_id input.actor.user_id) db.ledgers)
            ledger_not_found)
          _ h4 in
      let (sp_passes, sp_there) = lawful.find_first_some _ _ sp (find_or-ok _ _ sp_is) in
      let (ledger_passes, ledger_there) =
        lawful.find_first_some _ _ ledger (find_or-ok _ _ ledger_is) in
      let ledger_id : str_eq ledger.id input.ledger_id ≡ true = ground arith in
      let ledger_user : str_eq ledger.user_id input.actor.user_id ≡ true = ground arith in
      let named : IsNamed db input sp ledger = record {
        period_there = sp_there;
        period_named = (str_eq_iff _ _).0 sp_passes;
        ledger_there = ledger_there;
        ledger_named = (str_eq_iff _ _).0 ledger_id;
        ledger_of_user = (str_eq_iff _ _).0 ledger_user;
      } in
      let open_close = env.client.find_first (closed_of input.ledger_id) db.period_closes in
      let (none_open, h6) = seq-ok (require (not (is_some open_close)) already_closed) _ h5 in
      (
        require-ok _ _ is_admin,
        (
          lawful.find_first_none (closed_of input.ledger_id) db.period_closes
              (none_of_not open_close (require-ok _ _ none_open)),
          month-IsAgreed sp ledger out named h6,
        ),
      )
