-- ===== src/Reconciliation/Monthly/Balances.antt =====
-- What the loop over a month's transactions counts: bookings, and running balances that are wrong.
use finance.Prelude.{
  ℕ, suc, ◌+◌, ◌≡◌, refl, arith, Bool, true, false, not, Option, none, some, List, [], ◌∷◌, ◌↔◌,
  if◌then◌else◌, All, is_some, inl, inr, Option-cases, sym, ◌∙◌,
}
use finance.Prelude.Int.{ℤ, ◌+ℤ◌, eqb_ℤ, eqb_ℤ_iff, int_laws}
use finance.Prelude.Sums.{count}
use finance.Reconciliation.Monthly.{
  MonthlyReconciliationTransactionInput, transaction_delta, is_booked,
}
use finance.Reconciliation.Monthly.Checks.{
  Checks, no_checks, check_first, check_next, first_balance, next_balance, check_fingerprint,
  check_booking, check_rest, check_all, fingerprint_of,
}

-- The part of the loop that does not look at balances.
abbrev note : MonthlyReconciliationTransactionInput → Checks → Checks
note tx c = check_booking tx (check_fingerprint (fingerprint_of tx) c)

note-balances :
    (tx : MonthlyReconciliationTransactionInput) (c : Checks)
    → ((note tx c).running_balance_errors ≡ c.running_balance_errors)
      × ((note tx c).previous_balance ≡ c.previous_balance)
unfolding check_booking check_fingerprint
note-balances tx c = (ground arith, ground arith)

note-unresolved :
    (tx : MonthlyReconciliationTransactionInput) (c : Checks)
    → (note tx c).unresolved ≡ (if is_booked tx then c.unresolved else suc c.unresolved)
unfolding check_booking check_fingerprint
note-unresolved tx c = ground arith

check_next-unresolved :
    (tx : MonthlyReconciliationTransactionInput) (c : Checks)
    → (check_next tx c).unresolved ≡ c.unresolved
unfolding check_next next_balance
check_next-unresolved tx c = ground arith

check_first-unresolved :
    (o : Option ℤ) (tx : MonthlyReconciliationTransactionInput) (c : Checks)
    → (check_first o tx c).unresolved ≡ c.unresolved
unfolding check_first first_balance
check_first-unresolved o tx c = ground arith

abbrev pub is_open : MonthlyReconciliationTransactionInput → Bool
is_open tx = not (is_booked tx)

check_rest-unresolved :
    (txs : List MonthlyReconciliationTransactionInput) (c : Checks)
    → (check_rest txs c).unresolved ≡ c.unresolved + count is_open txs
unfolding check_rest
check_rest-unresolved [] c = omega arith
check_rest-unresolved (tx ∷ txs) c =
    let c' = check_next tx c in
    rw (check_rest-unresolved txs (note tx c'), note-unresolved tx c', check_next-unresolved tx c)
      (ground arith)

-- The unresolved transactions of a month are those that are not booked.
pub check_all-unresolved :
    (o : Option ℤ) (txs : List MonthlyReconciliationTransactionInput)
    → (check_all o txs).unresolved ≡ count is_open txs
unfolding check_all
check_all-unresolved o [] = refl
check_all-unresolved o (tx ∷ txs) =
    let c = check_first o tx no_checks in
    rw
      (
        check_rest-unresolved txs (note tx c),
        note-unresolved tx c,
        check_first-unresolved o tx no_checks,
      )
      (ground arith)

-- How many explicit balances do not follow from the explicit balance before them.
unfoldable pub wrong_balances : ℤ → List MonthlyReconciliationTransactionInput → ℕ
wrong_balances b [] = 0
wrong_balances b (tx ∷ txs) = elim tx.resulting_balance_minor [
  | none ↦ wrong_balances b txs
  | some a ↦
      let rest = wrong_balances a txs in
      if eqb_ℤ (b +ℤ transaction_delta tx) a then rest else suc rest
]

abbrev one_if_not : Bool → ℕ
one_if_not true = 0
one_if_not false = 1

check_next-none :
    (tx : MonthlyReconciliationTransactionInput) (c : Checks)
    → tx.resulting_balance_minor ≡ none
    → check_next tx c ≡ c
unfolding check_next next_balance
check_next-none tx c e = rw e refl

check_next-some :
    (tx : MonthlyReconciliationTransactionInput) (c : Checks) (a b : ℤ)
    → tx.resulting_balance_minor ≡ some a
    → c.previous_balance ≡ some b
    → ((check_next tx c).running_balance_errors
        ≡ c.running_balance_errors + one_if_not (eqb_ℤ (b +ℤ transaction_delta tx) a))
      × ((check_next tx c).previous_balance ≡ some a)
unfolding check_next next_balance
check_next-some tx c a b e h = rw (e, h) (ground arith, refl)

wrong_balances-none :
    (b : ℤ) (tx : MonthlyReconciliationTransactionInput)
    (txs : List MonthlyReconciliationTransactionInput)
    → tx.resulting_balance_minor ≡ none
    → wrong_balances b (tx ∷ txs) ≡ wrong_balances b txs
unfolding wrong_balances
wrong_balances-none b tx txs e = simp e refl

wrong_balances-some :
    (b a : ℤ) (tx : MonthlyReconciliationTransactionInput)
    (txs : List MonthlyReconciliationTransactionInput)
    → tx.resulting_balance_minor ≡ some a
    → wrong_balances b (tx ∷ txs)
      ≡ one_if_not (eqb_ℤ (b +ℤ transaction_delta tx) a) + wrong_balances a txs
unfolding wrong_balances
wrong_balances-some b a tx txs e = simp e (ground arith)

check_rest-errors :
    (txs : List MonthlyReconciliationTransactionInput) (c : Checks) (b : ℤ)
    → c.previous_balance ≡ some b
    → (check_rest txs c).running_balance_errors ≡ c.running_balance_errors + wrong_balances b txs
unfolding check_rest wrong_balances
check_rest-errors [] c b h = omega arith
check_rest-errors (tx ∷ txs) c b h =
    let c' = check_next tx c in
    let (errors, previous) = note-balances tx c' in
    elim (Option-cases tx.resulting_balance_minor) [
      | inl e ↦
          let same = check_next-none tx c e in
          let later = check_rest-errors txs (note tx c') b (previous ∙ rw same h) in
          later ∙ rw (errors, wrong_balances-none b tx txs e, same) refl
      | inr (a, e) ↦
          let (more, now) = check_next-some tx c a b e h in
          let later = check_rest-errors txs (note tx c') a (previous ∙ now) in
          later ∙ rw (errors, wrong_balances-some b a tx txs e, more) (omega arith)
    ]

-- Each transaction has an explicit balance, and it is the balance before it plus its amount.
abbrev pub Continuous : ℤ → List MonthlyReconciliationTransactionInput → Type 0
Continuous b [] = Unit
Continuous b (tx ∷ txs) =
    (tx.resulting_balance_minor ≡ some (b +ℤ transaction_delta tx))
    × Continuous (b +ℤ transaction_delta tx) txs

abbrev pub IsExplicit : MonthlyReconciliationTransactionInput → Type 0
IsExplicit tx = is_some tx.resulting_balance_minor ≡ true

wrong-Continuous :
    (b : ℤ) (txs : List MonthlyReconciliationTransactionInput)
    → Continuous b txs
    → wrong_balances b txs ≡ 0
unfolding wrong_balances
wrong-Continuous b [] h = refl
wrong-Continuous b (tx ∷ txs) (h, hs) =
    rw
      (
        wrong_balances-some b _ tx txs h,
        (eqb_ℤ_iff _ _).1 refl,
        wrong-Continuous (b +ℤ transaction_delta tx) txs hs,
      )
      refl

Continuous-of_wrong :
    (b : ℤ) (txs : List MonthlyReconciliationTransactionInput)
    → All IsExplicit txs
    → wrong_balances b txs ≡ 0
    → Continuous b txs
Continuous-of_wrong b [] x h = tt
Continuous-of_wrong b (tx ∷ txs) (x, xs) h = elim (Option-cases tx.resulting_balance_minor) [
  | inl e ↦ absurd (ground arith)
  | inr (a, e) ↦
      let k = sym (wrong_balances-some b a tx txs e) ∙ h in
      let same : b +ℤ transaction_delta tx ≡ a = (eqb_ℤ_iff _ _).0 (ground arith) in
      rw same (e, Continuous-of_wrong a txs xs (ground arith))
]

check_first-errors :
    (o : ℤ) (tx : MonthlyReconciliationTransactionInput) (a : ℤ)
    → tx.resulting_balance_minor ≡ some a
    → let c = check_first (some o) tx no_checks in
      (c.running_balance_errors ≡ one_if_not (eqb_ℤ (o +ℤ transaction_delta tx) a))
      × (c.previous_balance ≡ some a)
unfolding check_first first_balance
check_first-errors o tx a e = rw e (grind int_laws, refl)

-- Where every balance is explicit, the loop counts the balances that do not follow.
check_all-errors :
    (o : ℤ) (txs : List MonthlyReconciliationTransactionInput)
    → All IsExplicit txs
    → (check_all (some o) txs).running_balance_errors ≡ wrong_balances o txs
unfolding check_all wrong_balances
check_all-errors o [] x = refl
check_all-errors o (tx ∷ txs) (x, xs) = elim (Option-cases tx.resulting_balance_minor) [
  | inl e ↦ absurd (ground arith)
  | inr (a, e) ↦
      let c = check_first (some o) tx no_checks in
      let (errors, previous) = note-balances tx c in
      let (first, now) = check_first-errors o tx a e in
      check_rest-errors txs (note tx c) a (previous ∙ now)
      ∙ rw (errors, first, wrong_balances-some o a tx txs e) refl
]

-- Where every balance is explicit, none is counted as wrong exactly when they are continuous.
pub errors-Continuous :
    (o : ℤ) (txs : List MonthlyReconciliationTransactionInput)
    → All IsExplicit txs
    → ((check_all (some o) txs).running_balance_errors ≡ 0) ↔ Continuous o txs
errors-Continuous o txs x = (
  λ h. Continuous-of_wrong o txs x (sym (check_all-errors o txs x) ∙ h),
  λ k. check_all-errors o txs x ∙ wrong-Continuous o txs k,
)

pub errors-Continuous-some :
    (opening : Option ℤ) (o : ℤ) (txs : List MonthlyReconciliationTransactionInput)
    → opening ≡ some o
    → All IsExplicit txs
    → ((check_all opening txs).running_balance_errors ≡ 0) ↔ Continuous o txs
errors-Continuous-some opening o txs e x = rw e (errors-Continuous o txs x)
