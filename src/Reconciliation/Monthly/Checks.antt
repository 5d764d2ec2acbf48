-- ===== src/Reconciliation/Monthly/Checks.antt =====
-- server/services/monthlyReconciliationService.ts: the loop of `buildMonthlyReconciliation` over the
-- transactions of a month, in the bank's order.
use finance.Prelude.{
  ℕ, suc, not, Option, none, some, List, [], ◌∷◌, ◌++◌, String, if◌then◌else◌, or_else, str_eq, any,
  is_truthy,
}
use finance.Prelude.Int.{ℤ, ◌+ℤ◌, ◌-ℤ◌, eqb_ℤ}
use finance.Reconciliation.Monthly.{
  MonthlyReconciliationTransactionInput, transaction_delta, is_booked,
}

-- `set.add`, in the order of insertion.
unfoldable pub add_to_set : String → List String → List String
add_to_set s set = if any (str_eq s) set then set else set ++ s ∷ []

unfoldable pub set_of : List String → List String → List String
unfolding add_to_set
set_of acc [] = acc
set_of acc (s ∷ ss) = set_of (add_to_set s acc) ss

-- The variables of the loop over the transactions.
pub record Checks : Type 0 where
  pub running_balance_errors : ℕ
  pub derived_opening : Option ℤ
  pub previous_balance : Option ℤ
  pub seen : List String
  pub repeated : List String
  pub booked : ℕ
  pub unresolved : ℕ

-- The explicit balance of the first transaction, if it has one, against the opening balance.
unfoldable pub first_balance : Option ℤ → Option ℤ → ℤ → Checks → Checks
first_balance none none delta c = c
first_balance (some o) none delta c = record c { derived_opening = some o }
first_balance none (some actual) delta c = record c {
  derived_opening = some (actual -ℤ delta);
  previous_balance = some actual;
}
first_balance (some o) (some actual) delta c = record c {
  running_balance_errors =
      if not (eqb_ℤ actual (o +ℤ delta))
      then suc c.running_balance_errors
      else c.running_balance_errors;
  derived_opening = some (actual -ℤ delta);
  previous_balance = some actual;
}

unfoldable pub check_first : Option ℤ → MonthlyReconciliationTransactionInput → Checks → Checks
unfolding first_balance
check_first opening tx c = first_balance opening tx.resulting_balance_minor (transaction_delta tx) c

-- The explicit balance of a later one, if it has one, against the balance before it.
unfoldable pub next_balance : Option ℤ → Option ℤ → ℤ → Checks → Checks
next_balance none previous delta c = c
next_balance (some actual) none delta c = record c {
  running_balance_errors = suc c.running_balance_errors;
  previous_balance = some actual;
}
next_balance (some actual) (some previous) delta c = record c {
  running_balance_errors =
      if not (eqb_ℤ (previous +ℤ delta) actual)
      then suc c.running_balance_errors
      else c.running_balance_errors;
  previous_balance = some actual;
}

unfoldable pub check_next : MonthlyReconciliationTransactionInput → Checks → Checks
unfolding next_balance
check_next tx c =
    next_balance tx.resulting_balance_minor c.previous_balance (transaction_delta tx) c

-- `transaction.importFingerprint ?? transaction.duplicateFingerprint ?? null`
abbrev pub fingerprint_of : MonthlyReconciliationTransactionInput → String
fingerprint_of tx = elim tx.import_fingerprint [
  | some f ↦ f
  | none ↦ or_else tx.duplicate_fingerprint ""
]

unfoldable pub check_fingerprint : String → Checks → Checks
unfolding add_to_set
check_fingerprint f c =
    if is_truthy f
    then record c {
      repeated = if any (str_eq f) c.seen then add_to_set f c.repeated else c.repeated;
      seen = add_to_set f c.seen;
    }
    else c

unfoldable pub check_booking : MonthlyReconciliationTransactionInput → Checks → Checks
check_booking tx c =
    if is_booked tx
    then record c { booked = suc c.booked }
    else record c { unresolved = suc c.unresolved }

unfoldable pub check_rest : List MonthlyReconciliationTransactionInput → Checks → Checks
unfolding check_next check_fingerprint check_booking
check_rest [] c = c
check_rest (tx ∷ txs) c =
    check_rest txs (check_booking tx (check_fingerprint (fingerprint_of tx) (check_next tx c)))

abbrev pub no_checks : Checks
no_checks = record {
  running_balance_errors = 0;
  derived_opening = none;
  previous_balance = none;
  seen = [];
  repeated = [];
  booked = 0;
  unresolved = 0;
}

unfoldable pub check_all : Option ℤ → List MonthlyReconciliationTransactionInput → Checks
unfolding check_rest check_first
check_all opening [] = no_checks
check_all opening (tx ∷ txs) =
    check_rest txs
      (check_booking tx (check_fingerprint (fingerprint_of tx) (check_first opening tx no_checks)))
