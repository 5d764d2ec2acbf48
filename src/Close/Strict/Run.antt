-- ===== src/Close/Strict/Run.antt =====
-- server/services/strictPeriodCloseService.ts, `executeStrictPeriodClose`.
use Prim.Native.String.{◌++◌ as concat}
use finance.Prelude.{
  Bool, true, not, ◌&&◌, Option, none, some, List, [], ◌∷◌, String, str_eq, or_else, is_some,
  Result, ok, ◌>>=◌, ◌>>◌, require, map_err,
}
use finance.Calendar.{to_utc_date}
use finance.Statement.{is_complete}
use finance.Statement.MonthSlice.{StatementPeriodMonthSlice}
use finance.Reconciliation.{BalancedReconciliationEvidence}
use finance.Reconciliation.Combined.{
  CombinedCloseControlPreview, to_combined_reconciliation_evidence,
}
use finance.Evidence.{Json, object_of}
use finance.Close.Tables.{PeriodClose, StatementPeriod, Ledger, Tables}
use finance.Close.Create.{Env, CreatePeriodCloseInput, create_period_close}
use finance.Close.Strict.{
  StrictPeriodCloseInput, StrictPeriodCloseError, StrictPeriodCloseResult, not_admin, not_confirmed,
  hash_missing, statement_period_not_found, ledger_not_found, already_closed, month_not_covered,
  hash_outdated, no_evidence, not_eligible, period_close, has_text, is_admin_actor, closed_of,
  find_or,
}
use finance.Close.Strict.Reads.{source_slice, close_preview}
use finance.Close.Strict.Hash.{build_close_control_hash_from_parts}

-- The versions of both validators, joined by a plus sign.
abbrev join_plus : List String → String
join_plus [] = ""
join_plus (s ∷ []) = s
join_plus (s ∷ t ∷ ts) = concat s (concat "+" (join_plus (t ∷ ts)))

-- The data of the close.
unfoldable pub close_data :
    StrictPeriodCloseInput
    → StatementPeriod
    → StatementPeriodMonthSlice
    → String
    → BalancedReconciliationEvidence
    → CreatePeriodCloseInput
close_data input sp slice hash evidence = record {
  totals = record {
    opening_balance_minor = slice.opening_balance_minor;
    income_minor = slice.income_minor;
    expense_minor = slice.expense_minor;
    closing_balance_minor = slice.closing_balance_minor;
  };
  workspace_id = input.workspace_id;
  ledger_id = input.ledger_id;
  statement_id = sp.statement_id;
  statement_period_id = input.statement_period_id;
  period_start = slice.period_start;
  period_end = slice.period_end;
  transaction_count = slice.transaction_count;
  closed_by = or_else input.actor.actor_id input.actor.user_id;
  reconciliation_evidence = evidence;
  classification_evidence = some (
      object_of (
        ("closeControlHash", Json.text hash)
        ∷ ("validatorVersion", Json.text (join_plus evidence.validator_version))
        ∷ []));
  source_data_evidence = some (
      object_of (
        ("statementPeriodId", Json.text input.statement_period_id)
        ∷ ("closeControlHash", Json.text hash)
        ∷ []));
}

unfoldable pub close_result :
    StrictPeriodCloseInput
    → StatementPeriodMonthSlice
    → String
    → CombinedCloseControlPreview
    → PeriodClose
    → StrictPeriodCloseResult
close_result input slice hash combined close = record {
  close_id = close.id;
  version = close.version;
  statement_period_id = input.statement_period_id;
  ledger_id = input.ledger_id;
  period_start = to_utc_date slice.period_start;
  period_end = to_utc_date slice.period_end;
  close_control_hash = hash;
  combined_preview = combined;
}

-- `expectedCloseControlHash != null && expectedCloseControlHash !== closeControlHash` does not hold.
abbrev pub hash_matches : Option String → String → Bool
hash_matches none hash = true
hash_matches (some expected) hash = str_eq expected hash

-- From the preview on: the hash, the eligibility, the evidence and the new row.
unfoldable pub close_under_hash :
    Env
    → Tables
    → StrictPeriodCloseInput
    → StatementPeriod
    → StatementPeriodMonthSlice
    → CombinedCloseControlPreview
    → Result StrictPeriodCloseError (StrictPeriodCloseResult × Tables)
unfolding close_result
close_under_hash env db input sp slice combined = do
  let hash =
      build_close_control_hash_from_parts env input.statement_period_id input.ledger_id combined
  require (hash_matches input.expected_close_control_hash hash) hash_outdated
  require combined.combined_close_eligible (not_eligible combined.combined_reasons)
  evidence ← find_or (to_combined_reconciliation_evidence combined) no_evidence
  made ← map_err period_close (create_period_close env db (close_data input sp slice hash evidence))
  ok (close_result input slice hash combined made.0, made.1)

-- From the slice on.
unfoldable pub close_month :
    Env
    → Tables
    → StrictPeriodCloseInput
    → StatementPeriod
    → Ledger
    → Result StrictPeriodCloseError (StrictPeriodCloseResult × Tables)
unfolding close_under_hash close_preview source_slice
close_month env db input sp ledger = do
  let slice = source_slice env db input.actor.user_id sp ledger
  require (is_complete slice.coverage_status) month_not_covered
  combined ← close_preview env db input.actor.user_id sp ledger slice
  close_under_hash env db input sp slice combined

unfoldable pub execute_strict_period_close :
    Env
    → Tables
    → StrictPeriodCloseInput
    → Result StrictPeriodCloseError (StrictPeriodCloseResult × Tables)
unfolding close_month
execute_strict_period_close env db input = do
  require (is_admin_actor input.actor.role) not_admin
  require input.confirmed not_confirmed
  require (has_text input.expected_close_control_hash) hash_missing
  sp ←
      find_or
        (env.client.find_first (λ x. str_eq x.id input.statement_period_id) db.statement_periods)
        statement_period_not_found
  ledger ←
      find_or
        (env.client.find_first
          (λ x. str_eq x.id input.ledger_id && str_eq x.user_id input.actor.user_id) db.ledgers)
        ledger_not_found
  require (not (is_some (env.client.find_first (closed_of input.ledger_id) db.period_closes)))
      already_closed
  close_month env db input sp ledger
