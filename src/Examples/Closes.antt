-- ===== src/Examples/Closes.antt =====
-- A month that is closed under its hash, reopened, and closed again.
use finance.Prelude.{◌≡◌, ◌↔◌, refl, arith, true, none, some, [], ◌∷◌, ok}
use finance.Prelude.Int.{pos, negsuc, ◌+ℤ◌, ◌-ℤ◌, abs}
use finance.Prelude.Sums.{count}
use finance.Statement.{complete, credit, debit, AddsUp}
use finance.Calendar.{to_utc_date, calendar_month_bounds}
use finance.Import.Amounts.{is_space}
use finance.Statement.{assert_statement_totals}
use finance.Statement.MonthSlice.{build_statement_period_month_slice}
use finance.Reconciliation.Monthly.{transaction_running_balance, is_booked}
use finance.Reconciliation.Monthly.Order.{order_transactions_for_reconciliation}
use finance.Reconciliation.Monthly.Checks.{check_all}
use finance.Reconciliation.Monthly.Build.{inspect_monthly_transaction_integrity}
use finance.Reconciliation.Preview.{
  build_statement_reconciliation_preview, preview_of, compute_booked_totals, differences_of,
  month_chain_broken?,
}
use finance.Reconciliation.Category.{
  build_category_control_totals, category_reasons, category_status, upsert_line, new_line,
  bump_line, line_key, make_line_key, key_eq,
}
use finance.Reconciliation.Combined.{
  build_close_control_preview, to_combined_reconciliation_evidence,
}
use finance.Close.{assert_can_close}
use finance.Reconciliation.{balanced}
use finance.Close.Tables.{
  closed, PeriodClose, StatementPeriod, Transaction, TransactionBooking, Tables,
}
use finance.Close.Create.{Env, CreatePeriodCloseInput, create_period_close, insert_close, close_row}
use finance.Close.Created.{create_iff}
use finance.Close.Strict.{
  AppRole, StrictPeriodCloseInput, StrictPeriodCloseResult, closed_of, is_admin_actor,
}
use finance.Close.Strict.Hash.{build_close_control_hash_from_parts}
use finance.Close.Strict.Reads.{
  previous_period, integrity_transaction, booked_summary, category_transaction,
}
use finance.Close.Strict.Run.{close_data, execute_strict_period_close}
use finance.Close.Agreed.{IsAgreed, strict-IsAgreed}
use finance.Close.Sound.{IsSound}
use finance.Close.Reopen.{AuditedReopenInput, AuditedReopenResult, execute_audited_reopen}
use finance.Close.Reachable.{IsReopened, reopen-IsReopened, Reachable, Step, Reachable-IsSound}
use finance.Examples.ListClient.{list_client, list_client-IsClient}

abbrev pub closing_env : Env
closing_env = record {
  client = list_client;
  new_id = "c1";
  now = 1707000000000;
  digest = λ j. "hash";
  locale_compare = λ a b. pos 0;
}

abbrev booking : TransactionBooking
booking = record {
  project_id = "p";
  transaction_type_id = "y";
  category_id = "c";
  literal_project_label = "P";
  literal_type_label = "Y";
  literal_category_label = "C";
}

abbrev income : Transaction
income = record {
  id = "t1";
  user_id = "u";
  account_id = some "a";
  date = 1704067200000;
  amount_minor = pos 50;
  direction = credit;
  import_fingerprint = some "f1";
  raw_row = none;
  transaction_booking = some booking;
  pending_suggestions = [];
}

abbrev expense : Transaction
expense = record income {
  id = "t2";
  amount_minor = negsuc 19;
  direction = debit;
  import_fingerprint = some "f2";
}

abbrev january : StatementPeriod
january = record {
  id = "s";
  workspace_id = "w";
  statement_id = "st";
  statement_workspace_id = "w";
  bank_account_identifier = "NL01";
  account_id = "a";
  period_start = 1704067200000;
  period_end = 1706659200000;
  coverage_status = complete;
  opening_balance_minor = pos 100;
  income_minor = pos 50;
  expense_minor = pos 20;
  closing_balance_minor = pos 130;
  transaction_count = pos 2;
}

abbrev before_close : Tables
before_close = record {
  period_closes = [];
  statement_periods = january ∷ [];
  ledgers = record { id = "l"; user_id = "u"; year = 2024; month = 1 } ∷ [];
  transactions = income ∷ expense ∷ [];
  report_approvals = [];
  report_snapshots = [];
  report_snapshot_links = [];
  report_dispatches = [];
  audit_logs = [];
}

abbrev close_input : StrictPeriodCloseInput
close_input = record {
  actor = record { user_id = "u"; role = some AppRole.admin; actor_id = none; actor_email = none };
  workspace_id = "w";
  ledger_id = "l";
  statement_period_id = "s";
  expected_close_control_hash = some "hash";
  confirmed = true;
}

strict_ran :
    (out : StrictPeriodCloseResult × Tables) × (execute_strict_period_close closing_env before_close
        close_input
      ≡ ok out)
unfolding execute_strict_period_close is_space build_statement_period_month_slice to_utc_date
    calendar_month_bounds inspect_monthly_transaction_integrity
    build_statement_reconciliation_preview assert_statement_totals ◌+ℤ◌ ◌-ℤ◌ check_all
    order_transactions_for_reconciliation integrity_transaction transaction_running_balance
    is_booked build_close_control_hash_from_parts build_close_control_preview
    build_category_control_totals category_reasons category_status upsert_line new_line bump_line
    line_key make_line_key key_eq preview_of compute_booked_totals differences_of
    month_chain_broken? abs to_combined_reconciliation_evidence create_period_close insert_close
    close_row assert_can_close booked_summary category_transaction close_data previous_period
strict_ran = (_, refl)

before-IsSound : IsSound before_close.period_closes
before-IsSound = record { one_open = λ l. omega arith; one_version = λ l v. omega arith }

strict-IsAgreed_example :
    (is_admin_actor (some AppRole.admin) ≡ true)
    × ((count (closed_of "l") before_close.period_closes ≡ 0)
        × IsAgreed closing_env before_close close_input strict_ran.0)
strict-IsAgreed_example =
    strict-IsAgreed closing_env before_close close_input list_client-IsClient strict_ran.0
      strict_ran.1

Reachable-IsSound_example : IsSound strict_ran.0.1.period_closes
Reachable-IsSound_example = Reachable-IsSound before_close strict_ran.0.1 before-IsSound (
    Reachable.then_step before_close strict_ran.0.1 Reachable.start (
      Step.strict_close closing_env list_client-IsClient before_close close_input strict_ran.0
        strict_ran.1))

abbrev create_input : CreatePeriodCloseInput
create_input = record {
  totals = record {
    opening_balance_minor = pos 100;
    income_minor = pos 50;
    expense_minor = pos 20;
    closing_balance_minor = pos 130;
  };
  workspace_id = "w";
  ledger_id = "l";
  statement_id = "st";
  statement_period_id = "s";
  period_start = 1704067200000;
  period_end = 1706659200000;
  transaction_count = pos 2;
  closed_by = "u";
  reconciliation_evidence = record {
    status = balanced;
    coverage_status = complete;
    balance_difference_minor = pos 0;
    category_income_difference_minor = pos 0;
    category_expense_difference_minor = pos 0;
    running_balance_error_count = pos 0;
    transaction_count = pos 2;
    booked_transaction_count = pos 2;
    unresolved_transaction_count = pos 0;
    validator_version = [];
  };
  classification_evidence = none;
  source_data_evidence = none;
}

create_iff_example :
    ((made : PeriodClose × Tables) × (create_period_close closing_env before_close create_input
        ≡ ok made))
    ↔ ((assert_can_close create_input.reconciliation_evidence ≡ ok tt) × AddsUp create_input.totals)
create_iff_example = create_iff closing_env before_close create_input list_client-IsClient

create_made :
    (made : PeriodClose × Tables) × (create_period_close closing_env before_close create_input
      ≡ ok made)
unfolding assert_can_close ◌+ℤ◌ ◌-ℤ◌
create_made = create_iff_example.1 (refl, refl)

abbrev pub closed_january : PeriodClose
closed_january = record {
  id = "c1";
  workspace_id = "w";
  ledger_id = "l";
  statement_id = "st";
  statement_period_id = "s";
  version = 1;
  status = closed;
  period_start = 1704067200000;
  period_end = 1706659200000;
  opening_balance_minor = pos 100;
  income_minor = pos 50;
  expense_minor = pos 20;
  net_minor = pos 30;
  closing_balance_minor = pos 130;
  transaction_count = pos 2;
  classification_hash = "hash";
  source_data_hash = "hash";
  closed_by = "u";
  closed_at = 1707000000000;
  reopened_by = none;
  reopened_at = none;
  reopen_reason = none;
  reconciliation_evidence = create_input.reconciliation_evidence;
}

abbrev pub after_close : Tables
after_close = record before_close {
  period_closes = closed_january ∷ [];
  report_approvals =
      record {
        id = "ap";
        report_snapshot_id = "r";
        approved_by = "u";
        approved_at = 1707000000000;
        snapshot_hash = "hash";
        revoked_by = none;
        revoked_at = none;
        revoke_reason = none;
      }
      ∷ [];
  report_snapshot_links =
      record { report_snapshot_id = "r"; period_close_id = "c1"; sort_order = 1 } ∷ [];
}

abbrev pub reopen_input : AuditedReopenInput
reopen_input = record {
  actor = record { user_id = "u"; role = some "admin"; actor_id = none; actor_email = none };
  workspace_id = "w";
  period_close_id = "c1";
  reason = " correction ";
}

pub reopen_ran :
    (out : AuditedReopenResult × Tables) × (execute_audited_reopen closing_env after_close
        reopen_input
      ≡ ok out)
unfolding execute_audited_reopen is_space
reopen_ran = (_, refl)

reopen-IsReopened_example : IsReopened closing_env after_close reopen_input reopen_ran.0
reopen-IsReopened_example =
    reopen-IsReopened closing_env list_client-IsClient after_close reopen_input reopen_ran.0
      reopen_ran.1
