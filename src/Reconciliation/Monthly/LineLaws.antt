-- ===== src/Reconciliation/Monthly/LineLaws.antt =====
-- The lines of a month hold the booked amounts of each direction.
use finance.Prelude.{
  ℕ, suc, ◌≡◌, refl, arith, Bool, true, ◌↔◌, List, [], ◌∷◌, String, if◌then◌else◌, All, select, inl,
  inr, Bool-cases, sym, ◌∙◌,
}
use finance.Prelude.Int.{ℤ, pos, ◌+ℤ◌, abs, int_laws}
use finance.Prelude.Sums.{sum, sum-sort_by}
use finance.Statement.{Direction, credit, debit}
use finance.Reconciliation.Category.{same_direction}
use finance.Reconciliation.Monthly.{MonthlyReconciliationTransactionInput, is_booked}
use finance.Reconciliation.Monthly.Lines.{
  LineKind, category, subcategory, GroupKey, line_key, same_key, MonthlyReconciliationLine,
  first_line, add_to_line, add_to_lines, group_lines, number_lines, labels_le, build_lines,
}
use finance.Reconciliation.Monthly.Build.{line_total, sum_by_direction}

sum-select {ℓ} :
    {A : Type ℓ} (f : A → ℤ) (p : A → Bool) (xs : List A)
    → sum f (select p xs) ≡ sum (λ x. if p x then f x else pos 0) xs
sum-select f p [] = refl
sum-select f p (x ∷ xs) = grind (int_laws, sum-select f p xs)

same_direction_iff : (a b : Direction) → (same_direction a b ≡ true) ↔ (a ≡ b)
same_direction_iff credit credit = (λ h. refl, λ h. refl)
same_direction_iff credit debit = (λ h. absurd (ground arith), λ h. absurd cc)
same_direction_iff debit credit = (λ h. absurd (ground arith), λ h. absurd cc)
same_direction_iff debit debit = (λ h. refl, λ h. refl)

same_key-direction : (a b : GroupKey) → same_key a b ≡ true → a.direction ≡ b.direction
unfolding same_key
same_key-direction a b h = ground (arith, same_direction_iff a.direction b.direction)

line_key-direction :
    (kind : LineKind) (tx : MonthlyReconciliationTransactionInput)
    → (line_key kind tx).direction ≡ tx.direction
unfolding line_key
line_key-direction category tx = refl
line_key-direction subcategory tx = refl

-- The amount of a line, for a line of the direction.
abbrev weight : Direction → MonthlyReconciliationLine → ℤ
weight d l = if same_direction l.direction d then l.amount_minor else pos 0

-- A line has the direction of its key.
abbrev IsKeyed : MonthlyReconciliationLine → Type 0
IsKeyed l = l.group_key.direction ≡ l.direction

module _ (kind : LineKind) (tx : MonthlyReconciliationTransactionInput) where
  add_to_lines-IsKeyed :
      (ls : List MonthlyReconciliationLine) → All IsKeyed ls → All IsKeyed (add_to_lines kind tx ls)
  unfolding add_to_lines first_line add_to_line
  add_to_lines-IsKeyed [] h = (line_key-direction kind tx, tt)
  add_to_lines-IsKeyed (l ∷ ls) (h, hs) =
      elim (Bool-cases (same_key l.group_key (line_key kind tx))) [
        | inl e ↦ rw e (h, hs)
        | inr e ↦ rw e (h, add_to_lines-IsKeyed ls hs)
      ]

  module _ (d : Direction) where
    weight-add :
        (l : MonthlyReconciliationLine)
        → l.direction ≡ tx.direction
        → weight d (add_to_line tx l)
          ≡ weight d l +ℤ (if same_direction tx.direction d then abs tx.amount_minor else pos 0)
    unfolding add_to_line
    weight-add l k = simp k (grind int_laws)

    sum-add_to_lines :
        (ls : List MonthlyReconciliationLine)
        → All IsKeyed ls
        → sum (weight d) (add_to_lines kind tx ls)
          ≡ sum (weight d) ls
            +ℤ (if same_direction tx.direction d then abs tx.amount_minor else pos 0)
    unfolding add_to_lines first_line add_to_line
    sum-add_to_lines [] h = grind int_laws
    sum-add_to_lines (l ∷ ls) (h, hs) =
        elim (Bool-cases (same_key l.group_key (line_key kind tx))) [
          | inl e ↦
              rw (e, weight-add l (sym h ∙ same_key-direction _ _ e ∙ line_key-direction kind tx))
                (omega int_laws)
          | inr e ↦ rw (e, sum-add_to_lines ls hs) (omega int_laws)
        ]

module _ (d : Direction) where
  -- What a transaction adds to the lines of a direction, and what it adds to the month.
  abbrev pub booked_amount : MonthlyReconciliationTransactionInput → ℤ
  booked_amount tx =
      if is_booked tx
      then (if same_direction tx.direction d then abs tx.amount_minor else pos 0)
      else pos 0

  abbrev pub amount : MonthlyReconciliationTransactionInput → ℤ
  amount tx = if same_direction tx.direction d then abs tx.amount_minor else pos 0

  sum-group_lines :
      (kind : LineKind) (txs : List MonthlyReconciliationTransactionInput)
      (ls : List MonthlyReconciliationLine)
      → All IsKeyed ls
      → sum (weight d) (group_lines kind txs ls) ≡ sum (weight d) ls +ℤ sum booked_amount txs
  unfolding group_lines
  sum-group_lines kind [] ls h = omega int_laws
  sum-group_lines kind (tx ∷ txs) ls h = elim (Bool-cases (is_booked tx)) [
    | inl e ↦
        rw
          (
            e,
            sum-group_lines kind txs (add_to_lines kind tx ls) (add_to_lines-IsKeyed kind tx ls h),
            sum-add_to_lines kind tx d ls h,
          )
          (omega int_laws)
    | inr e ↦ rw (e, sum-group_lines kind txs ls h) (omega int_laws)
  ]

  sum-number_lines :
      (n : ℕ) (ls : List MonthlyReconciliationLine)
      → sum (weight d) (number_lines n ls) ≡ sum (weight d) ls
  sum-number_lines n [] = refl
  sum-number_lines n (l ∷ ls) = rw (sum-number_lines (suc n) ls)

  -- The lines of a direction hold what is booked in that direction.
  pub line_total-build_lines :
      (locale_compare : String → String → ℤ) (kind : LineKind)
      (txs : List MonthlyReconciliationTransactionInput)
      → line_total d (build_lines locale_compare txs kind) ≡ sum booked_amount txs
  unfolding build_lines
  line_total-build_lines locale_compare kind txs =
      rw
        (
          sum-select {A = MonthlyReconciliationLine} (λ l. l.amount_minor)
              (λ l. same_direction l.direction d),
          sum-number_lines 0,
          sum-sort_by (labels_le locale_compare) (weight d) (group_lines kind txs []),
          sum-group_lines kind txs [] tt,
        )
        (omega int_laws)

  pub sum_by_direction_lem :
      (txs : List MonthlyReconciliationTransactionInput) → sum_by_direction txs d ≡ sum amount txs
  unfolding sum_by_direction
  sum_by_direction_lem [] = refl
  sum_by_direction_lem (tx ∷ txs) = grind (int_laws, sum_by_direction_lem txs)
