-- ===== src/Close/Strict/Hash.antt =====
-- server/services/strictPeriodCloseService.ts, `buildCloseControlHashFromParts`.
use Prim.Native.String.{◌++◌ as concat}
use finance.Prelude.{[], ◌∷◌, String}
use finance.Prelude.Int.{pos}
use finance.Reconciliation.Combined.{CombinedCloseControlPreview}
use finance.Evidence.{Json, object_of}
use finance.Close.Create.{Env, hash_evidence}

-- `buildCloseControlHashFromParts`, up to the hash.
unfoldable pub close_control_parts : String → String → CombinedCloseControlPreview → Json
close_control_parts statement_period_id ledger_id combined =
    let p = combined.statement_reconciliation in
    let c = combined.category_controls in
    object_of (
      ("statementPeriodId", Json.text statement_period_id)
      ∷ ("ledgerId", Json.text ledger_id)
      ∷ ("periodStart", Json.date p.period_start)
      ∷ ("periodEnd", Json.date p.period_end)
      ∷ (
        "statementTotals",
        object_of (
            ("incomeMinor", Json.bigint p.source.income_minor)
            ∷ ("expenseMinor", Json.bigint p.source.expense_minor)
            ∷ ("balanceDifferenceMinor", Json.bigint p.differences.balance_difference_minor)
            ∷ ("transactionCount", Json.number p.source_transaction_count)
            ∷ []),
      )
      ∷ (
        "bookedTotals",
        object_of (
            ("incomeMinor", Json.bigint p.booked.income_minor)
            ∷ ("expenseMinor", Json.bigint p.booked.expense_minor)
            ∷ ("transactionCount", Json.number (pos p.booked.transaction_count))
            ∷ ("bookedTransactionCount", Json.number (pos p.booked.booked_transaction_count))
            ∷ (
              "unresolvedTransactionCount",
              Json.number (pos p.booked.unresolved_transaction_count),
            )
            ∷ []),
      )
      ∷ (
        "categoryDifferences",
        object_of (
            (
              "categoryIncomeDifferenceMinor",
              Json.bigint c.differences.category_income_difference_minor,
            )
            ∷ (
              "categoryExpenseDifferenceMinor",
              Json.bigint c.differences.category_expense_difference_minor,
            )
            ∷ ("transactionCountDifference", Json.number c.differences.transaction_count_difference)
            ∷ []),
      )
      ∷ (
        "integrity",
        object_of (
            ("duplicateFingerprintCount", Json.number p.integrity.duplicate_fingerprint_count)
            ∷ ("runningBalanceErrorCount", Json.number p.integrity.running_balance_error_count)
            ∷ ("monthChainErrorCount", Json.number p.integrity.month_chain_error_count)
            ∷ []),
      )
      ∷ ("closeEligible", Json.bool combined.combined_close_eligible)
      ∷ (
        "validatorVersions",
        Json.text (concat p.validator_version (concat "+" c.validator_version)),
      )
      ∷ [])

unfoldable pub build_close_control_hash_from_parts :
    Env → String → String → CombinedCloseControlPreview → String
unfolding close_control_parts hash_evidence
build_close_control_hash_from_parts env statement_period_id ledger_id combined =
    hash_evidence env (close_control_parts statement_period_id ledger_id combined)
