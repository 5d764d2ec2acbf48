-- ===== src/Reconciliation/Monthly.antt =====
-- server/services/monthlyReconciliationService.ts: one calendar month of a bank account. The dates
-- are valid ones, and strings are compared by the runtime's `localeCompare`, which is a parameter.
pub mod Order
pub mod Lines
pub mod Checks
pub mod Build
pub mod Round
pub mod Permutes
pub mod Fuel
pub mod LineLaws
pub mod Balances
pub mod Figures
pub mod Eligible
use finance.Prelude.{
  ℕ, ◌&&◌, Bool, true, false, not, Option, none, some, List, [], ◌∷◌, String, ltb, ◌==◌,
  if◌then◌else◌, is_present, str_eq, or_else,
}
use finance.Prelude.Int.{ℤ, pos, neg, abs, ltb_ℤ}
use finance.Calendar.{Date}
use finance.Statement.{Direction, is_credit}
use finance.Import.Amounts.{RawValue, to_minor_units}

-- A raw row as it was imported: its cells, and those under `columns` if that is an object.
pub record RawRow : Type 0 where
  pub cells : List (String × RawValue)
  pub columns : Option (List (String × RawValue))

pub record MonthlyReconciliationTransactionInput : Type 0 where
  pub transaction_id : String
  pub date : Date
  pub amount_minor : ℤ
  pub direction : Direction
  pub resulting_balance_minor : Option ℤ
  pub raw_row : Option RawRow
  pub import_fingerprint : Option String
  pub duplicate_fingerprint : Option String
  pub project_id : Option String
  pub transaction_type_id : Option String
  pub category_id : Option String
  pub literal_project_label : Option String
  pub literal_type_label : Option String
  pub literal_category_label : Option String
  pub unresolved : Bool
  pub source_file_hash : Option String

abbrev pub cell : String → List (String × RawValue) → Option RawValue
cell name [] = none
cell name ((k, v) ∷ cells) = if str_eq k name then some v else cell name cells

abbrev pub column : String → RawRow → Option RawValue
column name row = elim row.columns [ none ↦ none | some cells ↦ cell name cells ]

-- The first candidate that is an amount.
unfoldable pub first_amount : List (Option RawValue) → Option ℤ
first_amount [] = none
first_amount (c ∷ cs) = elim (to_minor_units 2 c) [ none ↦ first_amount cs | some n ↦ some n ]

unfoldable pub extract_running_balance_minor : Option RawRow → Option ℤ
unfolding first_amount
extract_running_balance_minor none = none
extract_running_balance_minor (some row) = first_amount (
    cell "Resulting balance" row.cells
    ∷ column "Resulting balance" row
    ∷ cell "resulting balance" row.cells
    ∷ column "resulting balance" row
    ∷ cell "Saldo" row.cells
    ∷ column "Saldo" row
    ∷ cell "Balance" row.cells
    ∷ column "Balance" row
    ∷ [])

unfoldable pub transaction_delta : MonthlyReconciliationTransactionInput → ℤ
transaction_delta tx =
    if is_credit tx.direction then abs tx.amount_minor else neg (abs tx.amount_minor)

unfoldable pub transaction_running_balance : MonthlyReconciliationTransactionInput → Option ℤ
unfolding extract_running_balance_minor
transaction_running_balance tx = elim tx.resulting_balance_minor [
  | none ↦ extract_running_balance_minor tx.raw_row
  | some n ↦ some n
]

unfoldable pub is_booked : MonthlyReconciliationTransactionInput → Bool
is_booked tx =
    is_present tx.project_id
    && (is_present tx.transaction_type_id && (is_present tx.category_id && not tx.unresolved))

module _ (locale_compare : String → String → ℤ) where
  -- `txSort`: by date, then by identifier.
  abbrev pub tx_le :
      MonthlyReconciliationTransactionInput → MonthlyReconciliationTransactionInput → Bool
  tx_le a b =
      if a.date == b.date
      then not (ltb_ℤ (pos 0) (locale_compare a.transaction_id b.transaction_id))
      else ltb a.date b.date
