-- ===== src/Reconciliation/Monthly/Permutes.antt =====
-- The bank's order keeps the transactions: no sum over them changes.
use finance.Prelude.{
  ℕ, zero, suc, ◌≤◌, ◌≡◌, refl, arith, ◌&&◌, ◌==◌, Bool, true, false, Option, none, some, List, [],
  ◌∷◌, ◌++◌, String, if◌then◌else◌, is_some, all, All, sort_by, length, inl, inr, Bool-cases,
}
use finance.Prelude.Int.{ℤ, ◌+ℤ◌, int_laws}
use finance.Prelude.Sums.{sum, sum-append, sum-sort_by}
use finance.Prelude.Throughout.{All-select, All-sort_by, All-imp, All-zip}
use finance.Calendar.{Date, to_utc_date}
use finance.Reconciliation.Monthly.{
  MonthlyReconciliationTransactionInput, transaction_running_balance, tx_le,
}
use finance.Reconciliation.Monthly.Round.{round, rebuild-round}
use finance.Reconciliation.Monthly.Order.{
  Pending, add_to_group, group_by_day, day_le, number_from, continues, remove_place, pending_le,
  rebuild, order_groups, order_transactions_for_reconciliation,
}

module _ (f : MonthlyReconciliationTransactionInput → ℤ) where
  abbrev group_sum : Date × List MonthlyReconciliationTransactionInput → ℤ
  group_sum g = sum f g.1

  abbrev pending_sum : List Pending → ℤ
  pending_sum ps = sum (λ p. f p.1) ps

  sum-add_to_group :
      (tx : MonthlyReconciliationTransactionInput)
      (gs : List (Date × List MonthlyReconciliationTransactionInput))
      → sum group_sum (add_to_group tx gs) ≡ f tx +ℤ sum group_sum gs
  unfolding add_to_group
  sum-add_to_group tx [] = omega int_laws
  sum-add_to_group tx ((day, txs) ∷ gs) = elim (Bool-cases (day == to_utc_date tx.date)) [
    | inl e ↦ rw (e, sum-append f txs (tx ∷ [])) (omega int_laws)
    | inr e ↦ rw (e, sum-add_to_group tx gs) (omega int_laws)
  ]

  sum-group_by_day :
      (gs : List (Date × List MonthlyReconciliationTransactionInput))
      (txs : List MonthlyReconciliationTransactionInput)
      → sum group_sum (group_by_day gs txs) ≡ sum group_sum gs +ℤ sum f txs
  unfolding group_by_day
  sum-group_by_day gs [] = omega int_laws
  sum-group_by_day gs (tx ∷ txs) =
      rw (sum-group_by_day (add_to_group tx gs) txs, sum-add_to_group tx gs) (omega int_laws)

  pending_sum-number :
      (n : ℕ) (txs : List MonthlyReconciliationTransactionInput)
      → pending_sum (number_from n txs) ≡ sum f txs
  pending_sum-number n [] = refl
  pending_sum-number n (tx ∷ txs) = rw (pending_sum-number (suc n) txs)

-- The places rise from `n` on.
abbrev Rising : ℕ → List Pending → Type 0
Rising n [] = Unit
Rising n (p ∷ ps) = (n ≤ p.0) × Rising (suc p.0) ps

Rising-number :
    (n : ℕ) (txs : List MonthlyReconciliationTransactionInput) → Rising n (number_from n txs)
Rising-number n [] = tt
Rising-number n (tx ∷ txs) = (omega arith, Rising-number (suc n) txs)

Rising-weaken : (n m : ℕ) (ps : List Pending) → m ≤ n → Rising n ps → Rising m ps
Rising-weaken n m [] h r = tt
Rising-weaken n m (p ∷ ps) h (a, r) = (omega arith, r)

Rising-remove : (n k : ℕ) (ps : List Pending) → Rising n ps → Rising n (remove_place k ps)
Rising-remove n k [] r = tt
Rising-remove n k (p ∷ ps) (a, r) = elim (Bool-cases (p.0 == k)) [
  | inl e ↦ rw e (Rising-weaken (suc p.0) n ps (omega arith) r)
  | inr e ↦ rw e (a, Rising-remove (suc p.0) k ps r)
]

Rising-All : (n : ℕ) (ps : List Pending) → Rising n ps → All (λ q. n ≤ q.0) ps
Rising-All n [] r = tt
Rising-All n (p ∷ ps) (a, r) = (
  a,
  All-imp (λ q. suc p.0 ≤ q.0) (λ q. n ≤ q.0) ps (λ q h. omega arith) (Rising-All (suc p.0) ps r),
)

-- What `remove_place` takes out of the list is the transaction with that place.
abbrev Removes : (MonthlyReconciliationTransactionInput → ℤ) → List Pending → Pending → Type 0
Removes f ps q = pending_sum f ps ≡ f q.1 +ℤ pending_sum f (remove_place q.0 ps)

Removes-later :
    (f : MonthlyReconciliationTransactionInput → ℤ) (p : Pending) (ps : List Pending) (q : Pending)
    → suc p.0 ≤ q.0
    → Removes f ps q
    → Removes f (p ∷ ps) q
Removes-later f p ps q h r =
    let apart : (p.0 == q.0) ≡ false = ground arith in rw (apart, r) (omega int_laws)

Removes-head :
    (f : MonthlyReconciliationTransactionInput → ℤ) (p : Pending) (ps : List Pending)
    → Removes f (p ∷ ps) p
Removes-head f p ps = let same : (p.0 == p.0) ≡ true = ground arith in rw same refl

Removes-All :
    (f : MonthlyReconciliationTransactionInput → ℤ) (n : ℕ) (ps : List Pending)
    → Rising n ps
    → All (Removes f ps) ps
Removes-All f n [] r = tt
Removes-All f n (p ∷ ps) (a, r) = (
  Removes-head f p ps,
  All-zip (λ q. suc p.0 ≤ q.0) (Removes f ps) (Removes f (p ∷ ps)) ps (Removes-later f p ps)
      (Rising-All (suc p.0) ps r) (Removes-All f (suc p.0) ps r),
)

module _ (locale_compare : String → String → ℤ)
    (f : MonthlyReconciliationTransactionInput → ℤ) where
  -- A group that is rebuilt holds what was done before and what was pending.
  abbrev Keeps :
      List Pending
      → List MonthlyReconciliationTransactionInput
      → Bool × List MonthlyReconciliationTransactionInput × ℤ
      → Type 0
  Keeps ps done r = r.0 ≡ true → sum f r.1 ≡ sum f done +ℤ pending_sum f ps

  round-Keeps :
      (fuel n : ℕ) (ps : List Pending) (done : List MonthlyReconciliationTransactionInput)
      (previous : ℤ) (cs : List Pending)
      → ((qs : List Pending) (d : List MonthlyReconciliationTransactionInput) (b : ℤ)
          → Rising n qs
          → Keeps qs d (rebuild locale_compare fuel qs d b))
      → Rising n ps
      → All (Removes f ps) cs
      → Keeps ps done (round locale_compare fuel ps done previous cs)
  round-Keeps fuel n ps done previous [] ih r a h = absurd (ground arith)
  round-Keeps fuel n ps done previous (next ∷ cs) ih r (e, a) h =
      let later = ih _ _ _ (Rising-remove n next.0 ps r) h in
      rw (later, sum-append f done (next.1 ∷ []), e) (omega int_laws)

  rebuild-Keeps :
      (fuel n : ℕ) (ps : List Pending) (done : List MonthlyReconciliationTransactionInput)
      (previous : ℤ)
      → Rising n ps
      → Keeps ps done (rebuild locale_compare fuel ps done previous)
  unfolding rebuild
  rebuild-Keeps fuel n [] done previous r = λ h. omega int_laws
  rebuild-Keeps zero n (p ∷ ps) done previous r = λ h. absurd (ground arith)
  rebuild-Keeps (suc fuel) n (p ∷ ps) done previous r =
      rw (rebuild-round locale_compare fuel p ps done previous) (
        round-Keeps fuel n (p ∷ ps) done previous _ (λ qs d b. rebuild-Keeps fuel n qs d b) r
          (All-sort_by (Removes f (p ∷ ps)) (pending_le locale_compare) _ (
            All-select (Removes f (p ∷ ps)) (λ q. continues previous q.1) (p ∷ ps)
              (Removes-All f n (p ∷ ps) r))))

  sum-chosen :
      (complete : Bool) (group : List MonthlyReconciliationTransactionInput)
      (r : Bool × List MonthlyReconciliationTransactionInput × ℤ)
      → (r.0 ≡ true → sum f r.1 ≡ sum f group)
      → sum f (if complete && r.0 then r.1 else group) ≡ sum f group
  sum-chosen false group r k = refl
  sum-chosen true group (false, out, b) k = refl
  sum-chosen true group (true, out, b) k = k refl

  sum-rebuilt :
      (group : List MonthlyReconciliationTransactionInput) (previous : ℤ)
      → let r = rebuild locale_compare (length group) (number_from 0 group) [] previous in
        r.0 ≡ true → sum f r.1 ≡ sum f group
  sum-rebuilt group previous h =
      rw
        (
          rebuild-Keeps (length group) 0 (number_from 0 group) [] previous (Rising-number 0 group)
              h,
          pending_sum-number f 0 group,
        )
        (omega int_laws)

  sum-order_groups :
      (gs : List (Date × List MonthlyReconciliationTransactionInput))
      (done : List MonthlyReconciliationTransactionInput) (previous : ℤ)
      → sum f (order_groups locale_compare gs done previous) ≡ sum f done +ℤ sum (group_sum f) gs
  unfolding order_groups
  sum-order_groups [] done previous = omega int_laws
  sum-order_groups ((day, txs) ∷ gs) done previous =
      let group = sort_by (tx_le locale_compare) txs in
      let complete = all (λ tx. is_some (transaction_running_balance tx)) group in
      let r = rebuild locale_compare (length group) (number_from 0 group) [] previous in
      let chosen = if complete && r.0 then r.1 else group in
      rw
        (
          sum-order_groups gs (done ++ chosen) (if complete then r.2 else previous),
          sum-append f done chosen,
          sum-chosen complete group r (sum-rebuilt group previous),
          sum-sort_by (tx_le locale_compare) f txs,
        )
        (omega int_laws)

  -- Whatever is summed over the transactions, the bank's order gives the same sum as the order in
  -- which they came: none is lost, doubled or changed.
  pub sum-order :
      (txs : List MonthlyReconciliationTransactionInput) (opening : Option ℤ)
      → sum f (order_transactions_for_reconciliation locale_compare txs opening) ≡ sum f txs
  unfolding order_transactions_for_reconciliation
  sum-order txs none = sum-sort_by (tx_le locale_compare) f txs
  sum-order txs (some opening) =
      rw
        (
          sum-order_groups (sort_by day_le (group_by_day [] (sort_by (tx_le locale_compare) txs)))
              [] opening,
          sum-sort_by day_le (group_sum f) (group_by_day [] (sort_by (tx_le locale_compare) txs)),
          sum-group_by_day f [] (sort_by (tx_le locale_compare) txs),
          sum-sort_by (tx_le locale_compare) f txs,
        )
        (omega int_laws)
