-- ===== src/Reconciliation/Monthly/Fuel.antt =====
-- The fuel of the loop that rebuilds a day: a round takes one pending transaction.
use finance.Prelude.{
  ℕ, zero, suc, ◌≤◌, ◌<◌, ◌≡◌, refl, arith, ◌==◌, List, [], ◌∷◌, String, All, select, sort_by,
  length, inl, inr, Bool-cases, sym, ◌∙◌,
}
use finance.Prelude.Int.{ℤ}
use finance.Prelude.Throughout.{All-select, All-sort_by, All-imp}
use finance.Reconciliation.Monthly.{MonthlyReconciliationTransactionInput}
use finance.Reconciliation.Monthly.Round.{round, rebuild-round}
use finance.Reconciliation.Monthly.Order.{Pending, continues, remove_place, pending_le, rebuild}

-- Taking a pending transaction out leaves fewer.
abbrev Shortens : List Pending → Pending → Type 0
Shortens ps q = length (remove_place q.0 ps) < length ps

Shortens-later :
    (p : Pending) (ps : List Pending) (q : Pending) → Shortens ps q → Shortens (p ∷ ps) q
Shortens-later p ps q h = elim (Bool-cases (p.0 == q.0)) [
  | inl e ↦ rw e (omega arith)
  | inr e ↦ rw e (omega (arith, h))
]

Shortens-head : (p : Pending) (ps : List Pending) → Shortens (p ∷ ps) p
Shortens-head p ps = elim (Bool-cases (p.0 == p.0)) [
  | inl e ↦ rw e (omega arith)
  | inr e ↦ absurd (ground arith)
]

Shortens-All : (ps : List Pending) → All (Shortens ps) ps
Shortens-All [] = tt
Shortens-All (p ∷ ps) = (
  Shortens-head p ps,
  All-imp (Shortens ps) (Shortens (p ∷ ps)) ps (Shortens-later p ps) (Shortens-All ps),
)

module _ (locale_compare : String → String → ℤ) where
  abbrev candidates : ℤ → List Pending → List Pending
  candidates previous ps =
      sort_by (pending_le locale_compare) (select (λ q. continues previous q.1) ps)

  candidates-Shortens :
      (previous : ℤ) (ps : List Pending) → All (Shortens ps) (candidates previous ps)
  candidates-Shortens previous ps =
      All-sort_by (Shortens ps) (pending_le locale_compare) _
        (All-select (Shortens ps) (λ q. continues previous q.1) ps (Shortens-All ps))

  round-fuel :
      (fuel fuel' : ℕ) (ps : List Pending) (done : List MonthlyReconciliationTransactionInput)
      (previous : ℤ) (cs : List Pending)
      → ((qs : List Pending) (d : List MonthlyReconciliationTransactionInput) (b : ℤ)
          → length qs < length ps
          → rebuild locale_compare fuel qs d b ≡ rebuild locale_compare fuel' qs d b)
      → All (Shortens ps) cs
      → round locale_compare fuel ps done previous cs
        ≡ round locale_compare fuel' ps done previous cs
  round-fuel fuel fuel' ps done previous [] same a = refl
  round-fuel fuel fuel' ps done previous (next ∷ cs) same (h, a) = same _ _ _ h

  -- The loop gives the same with any fuel that is no less than the number of pending transactions.
  pub rebuild-fuel :
      (fuel fuel' : ℕ) (ps : List Pending) (done : List MonthlyReconciliationTransactionInput)
      (previous : ℤ)
      → length ps ≤ fuel
      → length ps ≤ fuel'
      → rebuild locale_compare fuel ps done previous ≡ rebuild locale_compare fuel' ps done previous
  unfolding rebuild
  rebuild-fuel fuel fuel' [] done previous h h' = refl
  rebuild-fuel zero fuel' (p ∷ ps) done previous h h' = absurd (ground arith)
  rebuild-fuel (suc fuel) zero (p ∷ ps) done previous h h' = absurd (ground arith)
  rebuild-fuel (suc fuel) (suc fuel') (p ∷ ps) done previous h h' =
      rebuild-round locale_compare fuel p ps done previous
      ∙ round-fuel fuel fuel' (p ∷ ps) done previous _
          (λ qs d b k. rebuild-fuel fuel fuel' qs d b (omega arith) (omega arith))
          (candidates-Shortens previous (p ∷ ps))
      ∙ sym (rebuild-round locale_compare fuel' p ps done previous)
