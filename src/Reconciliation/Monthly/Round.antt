-- ===== src/Reconciliation/Monthly/Round.antt =====
-- One round of the loop that rebuilds the bank's order of a day.
use finance.Prelude.{ℕ, suc, ◌≡◌, refl, Bool, false, List, [], ◌∷◌, ◌++◌, String, select, sort_by}
use finance.Prelude.Int.{ℤ}
use finance.Reconciliation.Monthly.{MonthlyReconciliationTransactionInput}
use finance.Reconciliation.Monthly.Order.{
  Pending, continues, remove_place, balance_or, pending_le, rebuild,
}

module _ (locale_compare : String → String → ℤ) where
  -- A round of the loop, given the candidates in their order.
  abbrev pub round :
      ℕ
      → List Pending
      → List MonthlyReconciliationTransactionInput
      → ℤ
      → List Pending
      → Bool × List MonthlyReconciliationTransactionInput × ℤ
  round fuel ps done previous [] = (false, done, previous)
  round fuel ps done previous (next ∷ cs) =
      rebuild locale_compare fuel (remove_place next.0 ps) (done ++ next.1 ∷ [])
        (balance_or previous next.1)

  pub rebuild-round :
      (fuel : ℕ) (p : Pending) (ps : List Pending)
      (done : List MonthlyReconciliationTransactionInput) (previous : ℤ)
      → rebuild locale_compare (suc fuel) (p ∷ ps) done previous
        ≡ round fuel
            (p ∷ ps)
            done
            previous
            (sort_by (pending_le locale_compare) (select (λ q. continues previous q.1) (p ∷ ps)))
  unfolding rebuild
  rebuild-round fuel p ps done previous =
      elim (sort_by (pending_le locale_compare) (select (λ q. continues previous q.1) (p ∷ ps))) [
        | [] ↦ refl
        | next ∷ cs ↦ refl
      ]
