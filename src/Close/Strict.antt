-- ===== src/Close/Strict.antt =====
-- server/services/strictPeriodCloseService.ts: the close of a month under the hash of its controls;
-- its types and its first guards.
pub mod Reads
pub mod Hash
pub mod Run
use Prim.Native.Char.{code}
use Prim.Native.String.{◌++◌ as concat, ◌∷◌ as cons, [] as str_nil}
use finance.Prelude.{
  ℕ, ◌≡◌, Bool, true, false, not, ◌&&◌, ◌||◌, Option, none, some, List, [], ◌∷◌, map, String,
  str_eq, ltb, leb, ◌==◌, if◌then◌else◌, or_else, is_some, is_nil, is_truthy, Result, ok, err,
  ◌>>=◌, ◌>>◌, require, map_err,
}
use finance.Prelude.Int.{ℤ, pos}
use finance.Calendar.{Date, to_utc_date}
use finance.Import.Amounts.{is_space}
use finance.Statement.{is_complete}
use finance.Statement.MonthSlice.{
  StatementPeriodSliceTransaction, StatementPeriodMonthSlice, build_statement_period_month_slice,
}
use finance.Reconciliation.{CloseReason, BalancedReconciliationEvidence}
use finance.Reconciliation.Preview.{
  StatementReconciliationInput, StatementReconciliationPreview, ReconciliationError,
  BookedTransactionSummary, build_statement_reconciliation_preview,
}
use finance.Reconciliation.Category.{
  CategoryControlTransactionInput, CategoryControlTotalsInput, build_category_control_totals,
}
use finance.Reconciliation.Combined.{
  CombinedCloseControlPreview, build_close_control_preview, to_combined_reconciliation_evidence,
}
use finance.Reconciliation.Monthly.{MonthlyReconciliationTransactionInput}
use finance.Reconciliation.Monthly.Build.{MonthlyError, inspect_monthly_transaction_integrity}
use finance.Evidence.{Json, object_of}
use finance.Database.{Client}
use finance.Close.{PeriodCloseError}
use finance.Close.Tables.{
  PeriodClose, PeriodCloseStatus, closed, reopened, superseded, StatementPeriod, Ledger,
  Transaction, TransactionBooking, Tables,
}
use finance.Close.Create.{
  Env, hash_evidence, CreatePeriodCloseInput, of_ledger, create_period_close,
}

pub data AppRole : Type 0 where
  admin viewer : AppRole

pub record StrictCloseActor : Type 0 where
  pub user_id : String
  pub role : Option AppRole
  pub actor_id : Option String
  pub actor_email : Option String

pub record StrictPeriodCloseInput : Type 0 where
  pub actor : StrictCloseActor
  pub workspace_id : String
  pub ledger_id : String
  pub statement_period_id : String
  pub expected_close_control_hash : Option String
  pub confirmed : Bool

pub data StrictPeriodCloseError : Type 0 where
  not_admin not_confirmed hash_missing : StrictPeriodCloseError
  statement_period_not_found ledger_not_found already_closed : StrictPeriodCloseError
  month_not_covered hash_outdated no_evidence : StrictPeriodCloseError
  not_eligible : List CloseReason → StrictPeriodCloseError
  monthly : MonthlyError → StrictPeriodCloseError
  preview : ReconciliationError → StrictPeriodCloseError
  period_close : PeriodCloseError → StrictPeriodCloseError

pub record StrictPeriodCloseResult : Type 0 where
  pub close_id : String
  pub version : ℕ
  pub statement_period_id : String
  pub ledger_id : String
  pub period_start : Date
  pub period_end : Date
  pub close_control_hash : String
  pub combined_preview : CombinedCloseControlPreview

-- `!expectedHash || !expectedHash.trim()`: whether the hash has a character that is not white space.
abbrev pub has_ink : String → Bool
has_ink str_nil = false
has_ink (cons c s) = if is_space (code c) then has_ink s else true

abbrev pub has_text : Option String → Bool
has_text none = false
has_text (some s) = has_ink s

-- An actor without a role passes.
abbrev pub is_admin_actor : Option AppRole → Bool
is_admin_actor none = true
is_admin_actor (some AppRole.admin) = true
is_admin_actor (some AppRole.viewer) = false

abbrev pub is_closed : PeriodCloseStatus → Bool
is_closed closed = true
is_closed _ = false

-- `where: { ledgerId, status: 'CLOSED' }`
abbrev pub closed_of : String → PeriodClose → Bool
closed_of l c = of_ledger l c && is_closed c.status

abbrev pub find_or {ℓ} : {E : Type ℓ} {A : Type 0} → Option A → E → Result E A
find_or none e = err e
find_or (some a) e = ok a
