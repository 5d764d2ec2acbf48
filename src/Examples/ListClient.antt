-- ===== src/Examples/ListClient.antt =====
-- A database client over lists, which keeps the laws of one.
use mathlib.Core.Path.{subst}
use finance.Prelude.{
  ℕ, suc, ◌≤◌, ◌≡◌, ◌↔◌, refl, arith, Bool, true, ◌&&◌, Option, none, some, List, [], ◌∷◌, map, ltb,
  ◌==◌, if◌then◌else◌, select, is_some, Bool-cases, Option-cases, inl, inr, sym,
}
use finance.Prelude.Sums.{count, count-le}
use finance.Database.{Client, IsClient}

module _ {A : Type 0} where
  abbrev pub pick : (A → Bool) → List A → Option A
  pick p [] = none
  pick p (x ∷ xs) = if p x then some x else pick p xs

  abbrev pub better : (A → ℕ) → (A → Bool) → A → Option A → Option A
  better key p x none = if p x then some x else none
  better key p x (some a) = if p x && ltb (key a) (key x) then some x else some a

  abbrev pub latest : (A → ℕ) → (A → Bool) → List A → Option A
  latest key p [] = none
  latest key p (x ∷ xs) = better key p x (latest key p xs)

  abbrev pub put : (A → Bool) → A → List A → Option (List A)
  put conflict a rows = if count conflict rows == 0 then some (a ∷ rows) else none

  abbrev pub change : (A → Bool) → (A → A) → List A → List A
  change p f rows = map (λ x. if p x then f x else x) rows

  abbrev pub change_found : (A → Bool) → (A → A) → List A → Option A → Option (A × List A)
  change_found p f rows none = none
  change_found p f rows (some x) = some (f x, change p f rows)

  some_injective : {a b : A} → some a ≡ some b → a ≡ b
  some_injective h = cc

  none_is_not_some : {a : A} → some a ≡ none → ⊥
  none_is_not_some h = cc

  better_is_some : (key : A → ℕ) (p : A → Bool) (x b : A) → better key p x (some b) ≡ none → ⊥
  better_is_some key p x b h = elim (Bool-cases (p x && ltb (key b) (key x))) [
    | inl t ↦ none_is_not_some (rw t at h)
    | inr t ↦ none_is_not_some (rw t at h)
  ]

  pick-none : (p : A → Bool) (rows : List A) → pick p rows ≡ none → count p rows ≡ 0
  pick-none p [] h = refl
  pick-none p (x ∷ rows) h = elim (Bool-cases (p x)) [
    | inl e ↦ absurd (ground arith)
    | inr e ↦ ground (arith, pick-none p rows)
  ]

  pick-some :
      (p : A → Bool) (rows : List A) (a : A)
      → pick p rows ≡ some a
      → (p a ≡ true) × ((q : A → Bool) → q a ≡ true → 1 ≤ count q rows)
  pick-some p [] a h = absurd cc
  pick-some p (x ∷ rows) a h = elim (Bool-cases (p x)) [
    | inl e ↦
        let same : x ≡ a = some_injective (rw e at h) in
        (rw (← same) e, λ q t. rw (same, t) (omega arith))
    | inr e ↦
        let (passes, occurs) = pick-some p rows a (rw e at h) in
        (passes, λ q t. ground (arith, occurs q t))
  ]

  latest-none :
      (key : A → ℕ) (p : A → Bool) (rows : List A) → latest key p rows ≡ none → count p rows ≡ 0
  latest-none key p [] h = refl
  latest-none key p (x ∷ rows) h = elim (Option-cases (latest key p rows)) [
    | inl e ↦
        let none_there = latest-none key p rows e in
        let h' = rw e at h in
        elim (Bool-cases (p x)) [
          | inl t ↦ absurd (none_is_not_some (rw t at h'))
          | inr t ↦ rw t none_there
        ]
    | inr (b, e) ↦ absurd (better_is_some key p x b (rw e at h))
  ]

  -- No row that passes has a key above that of the latest.
  abbrev IsLatest : (A → ℕ) → (A → Bool) → List A → A → Type 0
  IsLatest key p rows a = (p a ≡ true) × (count (λ x. p x && ltb (key a) (key x)) rows ≡ 0)

  first-IsLatest :
      (key : A → ℕ) (p : A → Bool) (x : A) (rows : List A)
      → p x ≡ true
      → count (λ y. p y && ltb (key x) (key y)) rows ≡ 0
      → IsLatest key p (x ∷ rows) x
  first-IsLatest key p x rows t z = (t, ground arith)

  latest-IsLatest :
      (key : A → ℕ) (p : A → Bool) (rows : List A) (a : A)
      → latest key p rows ≡ some a
      → IsLatest key p rows a
  latest-IsLatest key p [] a h = absurd cc
  latest-IsLatest key p (x ∷ rows) a h = elim (Option-cases (latest key p rows)) [
    | inl e ↦
        let h' = rw e at h in
        elim (Bool-cases (p x)) [
          | inl t ↦
              let fewer = count-le (λ y. p y && ltb (key x) (key y)) p rows (λ y k. ground arith) in
              let zero : count (λ y. p y && ltb (key x) (key y)) rows ≡ 0 =
                omega (arith, fewer, latest-none key p rows e) in
              subst (IsLatest key p (x ∷ rows)) (some_injective (rw t at h'))
                (first-IsLatest key p x rows t zero)
          | inr t ↦ absurd (none_is_not_some (sym (rw t at h')))
        ]
    | inr (b, e) ↦
        let (passes, none_later) = latest-IsLatest key p rows b e in
        let h' = rw e at h in
        elim (Bool-cases (p x && ltb (key b) (key x))) [
          | inl t ↦
              let fewer =
                count-le (λ y. p y && ltb (key x) (key y)) (λ y. p y && ltb (key b) (key y)) rows
                  (λ y k. ground arith) in
              let zero : count (λ y. p y && ltb (key x) (key y)) rows ≡ 0 =
                omega (arith, fewer, none_later) in
              subst (IsLatest key p (x ∷ rows)) (some_injective (rw t at h'))
                (first-IsLatest key p x rows (ground arith) zero)
          | inr t ↦
              subst (IsLatest key p (x ∷ rows)) (some_injective (rw t at h'))
                (passes, rw t none_later)
        ]
  ]

  select_rows :
      (p q : A → Bool) (rows : List A) → count q (select p rows) ≡ count (λ x. p x && q x) rows
  select_rows p q [] = refl
  select_rows p q (x ∷ rows) = elim (Bool-cases (p x)) [
    | inl e ↦ rw e (ground (arith, select_rows p q rows))
    | inr e ↦ rw e (select_rows p q rows)
  ]

  change_rows :
      (p : A → Bool) (f : A → A) (rows : List A) (q : A → Bool)
      → count q (change p f rows) ≡ count (λ x. q (if p x then f x else x)) rows
  change_rows p f [] q = refl
  change_rows p f (x ∷ rows) q = rw (change_rows p f rows q) refl

  rows_injective : {xs ys : List A} → some xs ≡ some ys → xs ≡ ys
  rows_injective h = cc

  rows_none : {xs : List A} → some xs ≡ none → ⊥
  rows_none h = cc

  pair_none : {x : A × List A} → some x ≡ none → ⊥
  pair_none h = cc

  pair_injective :
      {a b : A} {xs ys : List A}
      → ◌≡◌ {A = Option (A × List A)} (some (a, xs)) (some (b, ys))
      → xs ≡ ys
  pair_injective h = cc

  put_rows :
      (conflict : A → Bool) (a : A) (rows rows' : List A)
      → put conflict a rows ≡ some rows'
      → (q : A → Bool) → count q rows' ≡ (if q a then suc (count q rows) else count q rows)
  put_rows conflict a rows rows' h q = elim (Bool-cases (count conflict rows == 0)) [
    | inl e ↦ rw (← rows_injective (rw e at h)) refl
    | inr e ↦ absurd (rows_none (sym (rw e at h)))
  ]

  put_conflict :
      (conflict : A → Bool) (a : A) (rows : List A)
      → (is_some (put conflict a rows) ≡ true) ↔ (count conflict rows ≡ 0)
  put_conflict conflict a rows = (λ h. ground arith, λ h. rw h refl)

  change_found_rows :
      (p : A → Bool) (f : A → A) (rows : List A) (a : A) (rows' : List A)
      → change_found p f rows (pick p rows) ≡ some (a, rows')
      → (q : A → Bool) → count q rows' ≡ count (λ x. q (if p x then f x else x)) rows
  change_found_rows p f rows a rows' h q = elim (Option-cases (pick p rows)) [
    | inl e ↦ absurd (pair_none (sym (rw e at h)))
    | inr (x, e) ↦ rw (← pair_injective (rw e at h)) (change_rows p f rows q)
  ]

  change_found-none :
      (p : A → Bool) (f : A → A) (rows : List A)
      → change_found p f rows (pick p rows) ≡ none
      → count p rows ≡ 0
  change_found-none p f rows h = elim (Option-cases (pick p rows)) [
    | inl e ↦ pick-none p rows e
    | inr (x, e) ↦ absurd (pair_none (rw e at h))
  ]

  abbrev pub upsert_found : (A → Bool) → A → (A → A) → List A → Option A → A × List A
  upsert_found p a f rows none = (a, a ∷ rows)
  upsert_found p a f rows (some b) = (f b, change p f rows)

  upsert_found-new :
      (p : A → Bool) (a : A) (f : A → A) (rows : List A)
      → count p rows ≡ 0
      → ((upsert_found p a f rows (pick p rows)).0 ≡ a)
        × ((q : A → Bool)
            → count q (upsert_found p a f rows (pick p rows)).1
              ≡ (if q a then suc (count q rows) else count q rows))
  upsert_found-new p a f rows h = elim (Option-cases (pick p rows)) [
    | inl e ↦ rw e (refl, λ q. refl)
    | inr (b, e) ↦
        let (passes, occurs) = pick-some p rows b e in absurd (omega (arith, occurs p passes, h))
  ]

  upsert_found-old :
      (p : A → Bool) (a : A) (f : A → A) (rows : List A)
      → 1 ≤ count p rows
      → (b : A) × ((p b ≡ true)
          × (((q : A → Bool) → q b ≡ true → 1 ≤ count q rows)
              × (((upsert_found p a f rows (pick p rows)).0 ≡ f b)
                  × ((q : A → Bool)
                      → count q (upsert_found p a f rows (pick p rows)).1
                        ≡ count (λ x. q (if p x then f x else x)) rows))))
  upsert_found-old p a f rows h = elim (Option-cases (pick p rows)) [
    | inl e ↦ absurd (omega (arith, pick-none p rows e, h))
    | inr (b, e) ↦
        let (passes, occurs) = pick-some p rows b e in
        (b, (passes, (occurs, rw e (refl, λ q. change_rows p f rows q))))
  ]

abbrev pub list_client : Client
list_client = record {
  find_first = λ p rows. pick p rows;
  find_latest = λ key p rows. latest key p rows;
  find_many = λ p rows. select p rows;
  create = λ conflict a rows. put conflict a rows;
  update = λ p f rows. change_found p f rows (pick p rows);
  upsert = λ p a f rows. upsert_found p a f rows (pick p rows);
  update_many = λ p f rows. change p f rows;
}

pub list_client-IsClient : IsClient list_client
list_client-IsClient = record {
  find_first_none = λ p rows h. pick-none p rows h;
  find_first_some = λ p rows a h. pick-some p rows a h;
  find_latest_none = λ key p rows h. latest-none key p rows h;
  find_latest_some = λ key p rows a h. latest-IsLatest key p rows a h;
  find_many_rows = λ p q rows. select_rows p q rows;
  create_rows = λ conflict a rows rows' h q. put_rows conflict a rows rows' h q;
  create_conflict = λ conflict a rows. put_conflict conflict a rows;
  update_rows = λ p f rows a rows' h q. change_found_rows p f rows a rows' h q;
  update_none = λ p f rows h. change_found-none p f rows h;
  update_many_rows = λ p f rows q. change_rows p f rows q;
  upsert_new = λ p a f rows h. upsert_found-new p a f rows h;
  upsert_old = λ p a f rows h. upsert_found-old p a f rows h;
}
