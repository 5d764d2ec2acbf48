-- ===== src/Reconciliation/Monthly/Order.antt =====
-- server/services/monthlyReconciliationService.ts, `orderTransactionsForReconciliation`: the bank's
-- order within a day, rebuilt from the running balances.
use finance.Prelude.{
  ℕ, zero, suc, ◌&&◌, Bool, true, false, Option, none, some, List, [], ◌∷◌, ◌++◌, String, leb, ◌==◌,
  if◌then◌else◌, is_some, all, select, sort_by, length,
}
use finance.Prelude.Int.{ℤ, ◌+ℤ◌, eqb_ℤ}
use finance.Calendar.{Date, to_utc_date}
use finance.Reconciliation.Monthly.{
  MonthlyReconciliationTransactionInput, transaction_delta, transaction_running_balance, tx_le,
}

-- A pending transaction with its place in the group, which tells it from its equals.
abbrev pub Pending : Type 0
Pending = ℕ × MonthlyReconciliationTransactionInput

-- `groups`, by day, in the order of insertion.
unfoldable pub add_to_group :
    MonthlyReconciliationTransactionInput
    → List (Date × List MonthlyReconciliationTransactionInput)
    → List (Date × List MonthlyReconciliationTransactionInput)
add_to_group tx [] = (to_utc_date tx.date, tx ∷ []) ∷ []
add_to_group tx ((day, txs) ∷ groups) =
    if day == to_utc_date tx.date
    then (day, txs ++ tx ∷ []) ∷ groups
    else (day, txs) ∷ add_to_group tx groups

unfoldable pub group_by_day :
    List (Date × List MonthlyReconciliationTransactionInput)
    → List MonthlyReconciliationTransactionInput
    → List (Date × List MonthlyReconciliationTransactionInput)
group_by_day groups [] = groups
group_by_day groups (tx ∷ txs) = group_by_day (add_to_group tx groups) txs

abbrev pub day_le :
    Date × List MonthlyReconciliationTransactionInput
    → Date × List MonthlyReconciliationTransactionInput
    → Bool
day_le a b = leb a.0 b.0

-- Gives every transaction of a group its place.
abbrev pub number_from : ℕ → List MonthlyReconciliationTransactionInput → List Pending
number_from n [] = []
number_from n (tx ∷ txs) = (n, tx) ∷ number_from (suc n) txs

-- Whether a running balance is the one before it plus the amount.
unfoldable pub continues : ℤ → MonthlyReconciliationTransactionInput → Bool
continues previous tx = elim (transaction_running_balance tx) [
  | none ↦ false
  | some actual ↦ eqb_ℤ actual (previous +ℤ transaction_delta tx)
]

-- `pending.splice(pending.indexOf(next), 1)`
abbrev pub remove_place : ℕ → List Pending → List Pending
remove_place n [] = []
remove_place n (p ∷ ps) = if p.0 == n then ps else p ∷ remove_place n ps

abbrev pub balance_or : ℤ → MonthlyReconciliationTransactionInput → ℤ
balance_or previous tx = elim (transaction_running_balance tx) [ none ↦ previous | some n ↦ n ]

module _ (locale_compare : String → String → ℤ) where
  abbrev pub pending_le : Pending → Pending → Bool
  pending_le a b = tx_le locale_compare a.1 b.1

  -- The `while` loop. The flag says whether the group was rebuilt; the balance reached is kept in
  -- either case. A round takes one pending transaction, so their number is fuel enough.
  unfoldable pub rebuild :
      ℕ
      → List Pending
      → List MonthlyReconciliationTransactionInput
      → ℤ
      → Bool × List MonthlyReconciliationTransactionInput × ℤ
  rebuild fuel [] done previous = (true, done, previous)
  rebuild zero (p ∷ ps) done previous = (false, done, previous)
  rebuild (suc fuel) (p ∷ ps) done previous =
      elim (sort_by pending_le (select (λ q. continues previous q.1) (p ∷ ps))) [
        | [] ↦ (false, done, previous)
        | next ∷ _ ↦
            rebuild fuel (remove_place next.0 (p ∷ ps)) (done ++ next.1 ∷ [])
              (balance_or previous next.1)
      ]

  -- The loop over the days.
  unfoldable pub order_groups :
      List (Date × List MonthlyReconciliationTransactionInput)
      → List MonthlyReconciliationTransactionInput
      → ℤ
      → List MonthlyReconciliationTransactionInput
  unfolding rebuild continues
  order_groups [] ordered previous = ordered
  order_groups ((day, txs) ∷ groups) ordered previous =
      let group = sort_by (tx_le locale_compare) txs in
      let complete = all (λ tx. is_some (transaction_running_balance tx)) group in
      let (rebuilt, bank_order, reached) =
        rebuild (length group) (number_from 0 group) [] previous in
      order_groups groups (ordered ++ (if complete && rebuilt then bank_order else group))
        (if complete then reached else previous)

  unfoldable pub order_transactions_for_reconciliation :
      List MonthlyReconciliationTransactionInput
      → Option ℤ
      → List MonthlyReconciliationTransactionInput
  unfolding order_groups group_by_day add_to_group
  order_transactions_for_reconciliation input none = sort_by (tx_le locale_compare) input
  order_transactions_for_reconciliation input (some opening) =
      order_groups (sort_by day_le (group_by_day [] (sort_by (tx_le locale_compare) input))) []
        opening
