-- ===== src/Reconciliation/Category/Lines.antt =====
-- The lines account for the booked transactions, each under its own key.
use finance.Prelude.{
  ◌≤◌, ◌≡◌, refl, arith, Bool, true, not, ◌&&◌, List, [], ◌∷◌, if◌then◌else◌, ◌==◌, ◌↔◌, inl, inr,
  Bool-cases, str_eq_iff,
}
use finance.Prelude.Int.{ℤ, pos, ◌+ℤ◌, abs, int_laws}
use finance.Prelude.Sums.{sum, count}
use finance.Statement.{is_credit}
use finance.Reconciliation.Category.{
  CategoryControlTransactionInput, CategoryControlLine, LineKey, make_line_key, line_key, key_eq,
  new_line, bump_line, upsert_line, CategoryTally, category_step, category_loop,
}

pub key_eq_iff : (a b : LineKey) → (key_eq a b ≡ true) ↔ (a ≡ b)
unfolding key_eq
key_eq_iff a b = ground (
  arith,
  str_eq_iff a.project b.project,
  str_eq_iff a.transaction_type b.transaction_type,
  str_eq_iff a.category b.category,
)

line_key-bump :
    (tx : CategoryControlTransactionInput) (a : ℤ) (l : CategoryControlLine)
    → line_key (bump_line tx a l) ≡ line_key l
unfolding line_key bump_line
line_key-bump tx a l = refl

line_key-new :
    (tx : CategoryControlTransactionInput) (a : ℤ) → line_key (new_line tx a) ≡ make_line_key tx
unfolding line_key new_line make_line_key
line_key-new tx a = refl

-- The sums over the lines whose key passes a test.
module _ (q : LineKey → Bool) where
  abbrev pub line_income : CategoryControlLine → ℤ
  line_income l = if q (line_key l) then l.income_minor else pos 0

  abbrev pub line_expense : CategoryControlLine → ℤ
  line_expense l = if q (line_key l) then l.expense_minor else pos 0

  -- The same sums over the transactions.
  abbrev pub booked_income : CategoryControlTransactionInput → ℤ
  booked_income tx =
      if tx.has_complete_booking && (q (make_line_key tx) && is_credit tx.direction)
      then abs tx.amount_minor
      else pos 0

  abbrev pub booked_expense : CategoryControlTransactionInput → ℤ
  booked_expense tx =
      if tx.has_complete_booking && (q (make_line_key tx) && not (is_credit tx.direction))
      then abs tx.amount_minor
      else pos 0

module _ (q : LineKey → Bool) (tx : CategoryControlTransactionInput) (a : ℤ) where
  upsert-income :
      (ls : List CategoryControlLine)
      → sum (line_income q) (upsert_line tx a ls)
        ≡ sum (line_income q) ls
          +ℤ (if q (make_line_key tx) && is_credit tx.direction then a else pos 0)
  unfolding upsert_line new_line bump_line
  upsert-income [] = rw (line_key-new tx a) (grind int_laws)
  upsert-income (l ∷ ls) = elim (Bool-cases (key_eq (line_key l) (make_line_key tx))) [
    | inl e ↦ rw e (rw (line_key-bump tx a l, (key_eq_iff _ _).0 e) (grind int_laws))
    | inr e ↦ rw e (rw (upsert-income ls) (omega int_laws))
  ]

  upsert-expense :
      (ls : List CategoryControlLine)
      → sum (line_expense q) (upsert_line tx a ls)
        ≡ sum (line_expense q) ls
          +ℤ (if q (make_line_key tx) && not (is_credit tx.direction) then a else pos 0)
  unfolding upsert_line new_line bump_line
  upsert-expense [] = rw (line_key-new tx a) (grind int_laws)
  upsert-expense (l ∷ ls) = elim (Bool-cases (key_eq (line_key l) (make_line_key tx))) [
    | inl e ↦ rw e (rw (line_key-bump tx a l, (key_eq_iff _ _).0 e) (grind int_laws))
    | inr e ↦ rw e (rw (upsert-expense ls) (omega int_laws))
  ]

step-income :
    (q : LineKey → Bool) (tx : CategoryControlTransactionInput) (t : CategoryTally)
    → sum (line_income q) (category_step tx t).line_map
      ≡ sum (line_income q) t.line_map +ℤ booked_income q tx
unfolding category_step
step-income q tx t = elim (Bool-cases tx.has_complete_booking) [
  | inl e ↦ simp e (upsert-income q tx (abs tx.amount_minor) t.line_map)
  | inr e ↦ simp e (omega int_laws)
]

step-expense :
    (q : LineKey → Bool) (tx : CategoryControlTransactionInput) (t : CategoryTally)
    → sum (line_expense q) (category_step tx t).line_map
      ≡ sum (line_expense q) t.line_map +ℤ booked_expense q tx
unfolding category_step
step-expense q tx t = elim (Bool-cases tx.has_complete_booking) [
  | inl e ↦ simp e (upsert-expense q tx (abs tx.amount_minor) t.line_map)
  | inr e ↦ simp e (omega int_laws)
]

pub loop-income :
    (q : LineKey → Bool) (txs : List CategoryControlTransactionInput) (t : CategoryTally)
    → sum (line_income q) (category_loop txs t).line_map
      ≡ sum (line_income q) t.line_map +ℤ sum (booked_income q) txs
unfolding category_loop
loop-income q [] t = omega int_laws
loop-income q (tx ∷ txs) t =
    rw (loop-income q txs (category_step tx t), step-income q tx t) (omega int_laws)

pub loop-expense :
    (q : LineKey → Bool) (txs : List CategoryControlTransactionInput) (t : CategoryTally)
    → sum (line_expense q) (category_loop txs t).line_map
      ≡ sum (line_expense q) t.line_map +ℤ sum (booked_expense q) txs
unfolding category_loop
loop-expense q [] t = omega int_laws
loop-expense q (tx ∷ txs) t =
    rw (loop-expense q txs (category_step tx t), step-expense q tx t) (omega int_laws)

-- How many lines stand under a key: one, once it has been seen.
abbrev pub has_key : LineKey → CategoryControlLine → Bool
has_key k l = key_eq (line_key l) k

upsert-count :
    (k : LineKey) (tx : CategoryControlTransactionInput) (a : ℤ) (ls : List CategoryControlLine)
    → count (has_key k) (upsert_line tx a ls) ≡ (
        if key_eq (make_line_key tx) k
        then (if count (has_key k) ls == 0 then 1 else count (has_key k) ls)
        else count (has_key k) ls)
unfolding upsert_line
upsert-count k tx a [] = rw (line_key-new tx a) (ground arith)
upsert-count k tx a (l ∷ ls) = elim (Bool-cases (key_eq (line_key l) (make_line_key tx))) [
  | inl e ↦ rw e (rw (line_key-bump tx a l, (key_eq_iff _ _).0 e) (ground arith))
  | inr e ↦ rw e (
      rw (upsert-count k tx a ls) (
        ground (
          arith,
          key_eq_iff (line_key l) k,
          key_eq_iff (make_line_key tx) k,
          key_eq_iff (line_key l) (make_line_key tx),
        )))
]

pub loop-count :
    (k : LineKey) (txs : List CategoryControlTransactionInput) (t : CategoryTally)
    → count (has_key k) t.line_map ≤ 1
    → count (has_key k) (category_loop txs t).line_map ≤ 1
unfolding category_loop category_step
loop-count k [] t h = h
loop-count k (tx ∷ txs) t h =
    loop-count k txs (category_step tx t)
      (ground (arith, upsert-count k tx (abs tx.amount_minor) t.line_map))
