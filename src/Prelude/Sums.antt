-- ===== src/Prelude/Sums.antt =====
-- Sums and counts over a list, and that sorting does not change them.
use Prim.Native.Nat.{ℕ, ◌+◌, ◌≤◌, suc}
use mathlib.Core.Path.{◌≡◌, refl}
use mathlib.Core.Bool.{Bool, true, false}
use mathlib.Core.Logic.{inl, inr}
use mathlib.Core.List.{List, [], ◌∷◌, ◌++◌}
use native.Mathlib.Omega.{arith}
use finance.Prelude.Tests.{if◌then◌else◌, Bool-cases}
use finance.Prelude.Lists.{insert_by, sort_by, length, All}
use finance.Prelude.Int.{ℤ, pos, ◌+ℤ◌, ◌-ℤ◌, int_laws}

module _ {ℓ} {A : Type ℓ} where
  abbrev pub sum : (A → ℤ) → List A → ℤ
  sum f [] = pos 0
  sum f (x ∷ xs) = f x +ℤ sum f xs

  abbrev pub count : (A → Bool) → List A → ℕ
  count p [] = 0
  count p (x ∷ xs) = if p x then suc (count p xs) else count p xs

  pub sum-append : (f : A → ℤ) (xs ys : List A) → sum f (xs ++ ys) ≡ sum f xs +ℤ sum f ys
  sum-append f [] ys = omega int_laws
  sum-append f (x ∷ xs) ys = rw (sum-append f xs ys) (omega int_laws)

  pub count-append : (p : A → Bool) (xs ys : List A) → count p (xs ++ ys) ≡ count p xs + count p ys
  count-append p [] ys = omega arith
  count-append p (x ∷ xs) ys = ground (arith, count-append p xs ys)

module _ {ℓ} {A : Type ℓ} (le : A → A → Bool) (f : A → ℤ) where
  sum-insert_by : (x : A) (xs : List A) → sum f (insert_by le x xs) ≡ f x +ℤ sum f xs
  sum-insert_by x [] = refl
  sum-insert_by x (y ∷ ys) = grind (int_laws, sum-insert_by x ys)

  pub sum-sort_by : (xs : List A) → sum f (sort_by le xs) ≡ sum f xs
  sum-sort_by [] = refl
  sum-sort_by (x ∷ xs) = rw (sum-insert_by x (sort_by le xs), sum-sort_by xs)

module _ {ℓ} {A : Type ℓ} (le : A → A → Bool) (p : A → Bool) where
  pub count-insert_by :
      (x : A) (xs : List A)
      → count p (insert_by le x xs) ≡ (if p x then suc (count p xs) else count p xs)
  count-insert_by x [] = refl
  count-insert_by x (y ∷ ys) = ground (arith, count-insert_by x ys)

  pub count-sort_by : (xs : List A) → count p (sort_by le xs) ≡ count p xs
  count-sort_by [] = refl
  count-sort_by (x ∷ xs) = ground (arith, count-sort_by xs, count-insert_by x (sort_by le xs))

-- A pointwise equation between summands carries over to the sums.
pub sum_regroup {ℓ} :
    {A : Type ℓ} (f g h k : A → ℤ) (xs : List A)
    → ((x : A) → f x ≡ g x +ℤ h x -ℤ k x)
    → sum f xs ≡ sum g xs +ℤ sum h xs -ℤ sum k xs
sum_regroup f g h k [] e = omega int_laws
sum_regroup f g h k (x ∷ xs) e = rw (e x, sum_regroup f g h k xs e) (omega int_laws)

module _ {ℓ} {A : Type ℓ} (p : A → Bool) where
  pub count-le-length : (xs : List A) → count p xs ≤ length xs
  count-le-length [] = omega arith
  count-le-length (x ∷ xs) = ground (arith, count-le-length xs)

  -- Every item passes the test exactly when as many do as there are.
  pub All-count : (xs : List A) → All (λ x. p x ≡ true) xs → count p xs ≡ length xs
  All-count [] h = refl
  All-count (x ∷ xs) h = ground (arith, All-count xs h.1)

  pub All-of_count : (xs : List A) → length xs ≤ count p xs → All (λ x. p x ≡ true) xs
  All-of_count [] h = tt
  All-of_count (x ∷ xs) h = elim (Bool-cases (p x)) [
    | inl e ↦ (e, All-of_count xs (ground arith))
    | inr e ↦ absurd (ground (arith, count-le-length xs))
  ]

  pub All-of_count_zero : (xs : List A) → count p xs ≡ 0 → All (λ x. p x ≡ false) xs
  All-of_count_zero [] h = tt
  All-of_count_zero (x ∷ xs) h = elim (Bool-cases (p x)) [
    | inl e ↦ absurd (ground arith)
    | inr e ↦ (e, All-of_count_zero xs (ground arith))
  ]

  pub count_zero_of_All : (xs : List A) → All (λ x. p x ≡ false) xs → count p xs ≡ 0
  count_zero_of_All [] h = refl
  count_zero_of_All (x ∷ xs) h = ground (arith, count_zero_of_All xs h.1)

-- A test that implies another is passed at most as often.
pub count-le {ℓ} :
    {A : Type ℓ} (p q : A → Bool) (xs : List A)
    → ((x : A) → p x ≡ true → q x ≡ true)
    → count p xs ≤ count q xs
count-le p q [] f = omega arith
count-le p q (x ∷ xs) f = elim (Bool-cases (p x)) [
  | inl e ↦ rw (e, f x e) (omega (arith, count-le p q xs f))
  | inr e ↦ ground (arith, count-le p q xs f)
]

module _ {ℓ} {A : Type ℓ} (f : A → ℕ) where
  -- A sum of natural numbers.
  abbrev pub total : List A → ℕ
  total [] = 0
  total (x ∷ xs) = f x + total xs

  total-insert_by :
      (le : A → A → Bool) (x : A) (xs : List A) → total (insert_by le x xs) ≡ f x + total xs
  total-insert_by le x [] = refl
  total-insert_by le x (y ∷ ys) = ground (arith, total-insert_by le x ys)

  pub total-sort_by : (le : A → A → Bool) (xs : List A) → total (sort_by le xs) ≡ total xs
  total-sort_by le [] = refl
  total-sort_by le (x ∷ xs) =
      omega (arith, total-insert_by le x (sort_by le xs), total-sort_by le xs)

module _ {ℓ} {A : Type ℓ} (le : A → A → Bool) where
  length-insert_by : (x : A) (xs : List A) → length (insert_by le x xs) ≡ suc (length xs)
  length-insert_by x [] = refl
  length-insert_by x (y ∷ ys) = ground (arith, length-insert_by x ys)

  pub length-sort_by : (xs : List A) → length (sort_by le xs) ≡ length xs
  length-sort_by [] = refl
  length-sort_by (x ∷ xs) = ground (arith, length-sort_by xs, length-insert_by x (sort_by le xs))
