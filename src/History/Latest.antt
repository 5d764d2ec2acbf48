-- ===== src/History/Latest.antt =====
-- The latest decision is one of the decisions, and none is later.
use mathlib.Core.Path.{subst}
use finance.Prelude.{
  ℕ, ◌≤◌, ◌≡◌, refl, arith, Bool, true, false, some, List, [], ◌∷◌, ltb, insert_by, sort_by,
  Bool-cases, inl, inr, sym, ◌∙◌,
}
use finance.Prelude.Sums.{count, count-le, count-insert_by, count-sort_by}
use finance.Decision.{Hashing}
use finance.History.{ConfirmedHistoryDecision}
use finance.History.Confirmed.{later_first, first_of, latest_decision}

some_injective {ℓ} : {A : Type ℓ} {a b : A} → some a ≡ some b → a ≡ b
some_injective h = cc

module _ {ℓ} {A : Type ℓ} (le : A → A → Bool) (key : A → ℕ)
    (le_key : (x y : A) → le x y ≡ true → key y ≤ key x)
    (not_le_key : (x y : A) → le x y ≡ false → key x ≤ key y) where
  abbrev above : A → A → Bool
  above a x = ltb (key a) (key x)

  -- Nothing in the list is above its first item.
  abbrev Tops : List A → Type 0
  Tops [] = Unit
  Tops (x ∷ xs) = count (above x) xs ≡ 0

  Tops-insert_by : (x : A) (ys : List A) → Tops ys → Tops (insert_by le x ys)
  Tops-insert_by x [] h = refl
  Tops-insert_by x (y ∷ ys) h = elim (Bool-cases (le x y)) [
    | inl e ↦
        let lower = le_key x y e in
        let fewer = count-le (above x) (above y) ys (λ z t. ground (arith, lower)) in
        let not_y : above x y ≡ false = ground (arith, lower) in
        rw (e, not_y) (omega (arith, h, fewer))
    | inr e ↦
        let lower = not_le_key x y e in
        let not_x : above y x ≡ false = ground (arith, lower) in
        rw (e, count-insert_by le (above y) x ys, not_x) h
  ]

  Tops-sort_by : (xs : List A) → Tops (sort_by le xs)
  Tops-sort_by [] = tt
  Tops-sort_by (x ∷ xs) = Tops-insert_by x (sort_by le xs) (Tops-sort_by xs)

  none_above : (xs : List A) (a : A) → Tops xs → first_of xs ≡ some a → count (above a) xs ≡ 0
  none_above [] a h e = absurd cc
  none_above (x ∷ xs) a h e =
      let same : x ≡ a = some_injective e in
      let own : count (above x) (x ∷ xs) ≡ 0 = ground (arith, h) in
      subst (λ b. count (above b) (x ∷ xs) ≡ 0) same own

  occurs :
      (xs : List A) (a : A) → first_of xs ≡ some a → (q : A → Bool) → q a ≡ true → 1 ≤ count q xs
  occurs [] a e q t = absurd cc
  occurs (x ∷ xs) a e q t = let same : x ≡ a = some_injective e in rw (same, t) (omega arith)

later_first-key :
    (h : Hashing) (x y : ConfirmedHistoryDecision)
    → later_first h x y ≡ true
    → y.decided_at ≤ x.decided_at
later_first-key h x y e = ground arith

not_later_first-key :
    (h : Hashing) (x y : ConfirmedHistoryDecision)
    → later_first h x y ≡ false
    → x.decided_at ≤ y.decided_at
not_later_first-key h x y e = ground arith

abbrev pub later_than : ConfirmedHistoryDecision → ConfirmedHistoryDecision → Bool
later_than d x = ltb d.decided_at x.decided_at

pub latest_decision-is_latest :
    (h : Hashing) (ds : List ConfirmedHistoryDecision) (d : ConfirmedHistoryDecision)
    → latest_decision h ds ≡ some d
    → (count (later_than d) ds ≡ 0)
      × ((q : ConfirmedHistoryDecision → Bool) → q d ≡ true → 1 ≤ count q ds)
unfolding latest_decision
latest_decision-is_latest h ds d e =
    let le = later_first h in
    let key = λ (x : ConfirmedHistoryDecision). x.decided_at in
    let sorted = sort_by le ds in
    let top =
      none_above le key (later_first-key h) (not_later_first-key h) sorted d
        (Tops-sort_by le key (later_first-key h) (not_later_first-key h) ds) e in
    (
      sym (count-sort_by le (later_than d) ds) ∙ top,
      λ q t.
          rw (← count-sort_by le q ds)
            (occurs le key (later_first-key h) (not_later_first-key h) sorted d e q t),
    )
