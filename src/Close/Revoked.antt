-- ===== src/Close/Revoked.antt =====
-- What a reopening that succeeds has done: the close is open again, and no approval of a report on it
-- stands.
use mathlib.Core.Bool.{false≢true}
use finance.Prelude.{
  ◌≤◌, ◌≡◌, refl, arith, Bool, true, false, ◌&&◌, List, [], ◌∷◌, map, String, str_eq, str_eq_iff,
  if◌then◌else◌, All, length, Bool-cases, inl, inr, sym, ◌∙◌,
}
use finance.Prelude.Sums.{count, count_zero_of_All, count-le}
use finance.Prelude.Throughout.{All-imp}
use finance.Calendar.{Date}
use finance.Database.{IsClient}
use finance.Close.Tables.{PeriodClose, ReportApproval, Tables}
use finance.Close.Create.{Env, same_version}
use finance.Close.Strict.{is_closed}
use finance.Close.Sound.{IsSound, open_of}
use finance.Close.Reopen.{
  reopen_row, revoke_row, contains, active_for, with_id, active_approvals, revoke_approvals,
}

-- Every item of a list occurs in it.
abbrev Occurs {ℓ} : {A : Type ℓ} → List A → A → Type ℓ
Occurs {A = A} xs x = (q : A → Bool) → q x ≡ true → 1 ≤ count q xs

Occurs-later {ℓ} : {A : Type ℓ} (y : A) (xs : List A) (x : A) → Occurs xs x → Occurs (y ∷ xs) x
Occurs-later y xs x o q h = ground (arith, o q h)

Occurs-All {ℓ} : {A : Type ℓ} (xs : List A) → All (Occurs xs) xs
Occurs-All [] = tt
Occurs-All (x ∷ xs) = (
  λ q h. rw h (omega arith),
  All-imp (Occurs xs) (Occurs (x ∷ xs)) xs (Occurs-later x xs) (Occurs-All xs),
)

pub contains-count {ℓ} :
    {A : Type ℓ} (f : A → String) (s : String) (xs : List A)
    → 1 ≤ count (λ a. str_eq s (f a)) xs
    → contains s (map f xs) ≡ true
contains-count f s [] h = absurd (ground arith)
contains-count f s (a ∷ xs) h = elim (Bool-cases (str_eq s (f a))) [
  | inl e ↦ rw e refl
  | inr e ↦ rw e (contains-count f s xs (rw e at h))
]

module _ (env : Env) (lawful : IsClient env.client) (ids : List String) (by reason : String)
    (rows : List ReportApproval) where
  abbrev Found : List ReportApproval → Type 0
  Found found =
      (q : ReportApproval → Bool) → count q found ≡ count (λ x. active_for ids x && q x) rows

  -- An active approval of a report is among those that are found.
  Found-with_id :
      (found : List ReportApproval)
      → Found found
      → (x : ReportApproval) → Occurs rows x
      → active_for ids x ≡ true
      → with_id (map (λ (a : ReportApproval). a.id) found) x ≡ true
  Found-with_id found f x o a =
      let same : str_eq x.id x.id ≡ true = (str_eq_iff x.id x.id).1 refl in
      let here = o (λ y. active_for ids y && str_eq x.id y.id) (rw (a, same) refl) in
      contains-count (λ (a : ReportApproval). a.id) x.id found (rw (f (λ y. str_eq x.id y.id)) here)

  revoked_row :
      (found : List ReportApproval)
      → Found found
      → (x : ReportApproval) → Occurs rows x
      → active_for ids (
          if with_id (map (λ (a : ReportApproval). a.id) found) x
          then revoke_row by env.now reason x
          else x)
        ≡ false
  unfolding revoke_row
  revoked_row found f x o =
      elim (Bool-cases (with_id (map (λ (a : ReportApproval). a.id) found) x)) [
        | inl w ↦ rw w (ground arith)
        | inr w ↦ rw w (elim (Bool-cases (active_for ids x)) [
          | inl a ↦ absurd (false≢true (sym w ∙ Found-with_id found f x o a))
          | inr a ↦ a
        ])
      ]

  revoke-none_active :
      (found : List ReportApproval)
      → Found found
      → count (active_for ids) (revoke_approvals env by reason found rows) ≡ 0
  unfolding revoke_approvals
  revoke-none_active [] f =
      let fewer =
        count-le (active_for ids) (λ x. active_for ids x && true) rows (λ x a. rw a refl) in
      omega (arith, f (λ x. true), fewer)
  revoke-none_active (a ∷ others) f =
      let found = a ∷ others in
      let p = with_id (map (λ (x : ReportApproval). x.id) found) in
      lawful.update_many_rows p (revoke_row by env.now reason) rows (active_for ids)
      ∙ count_zero_of_All _ rows
          (All-imp (Occurs rows) _ rows (revoked_row found f) (Occurs-All rows))

active_nil : (rows : List ReportApproval) → count (active_for []) rows ≡ 0
active_nil [] = refl
active_nil (a ∷ rows) = active_nil rows

count_all {ℓ} : {A : Type ℓ} (xs : List A) → count (λ x. true) xs ≡ length xs
count_all [] = refl
count_all (x ∷ xs) = rw (count_all xs) refl

count-and_true {ℓ} :
    {A : Type ℓ} (p : A → Bool) (xs : List A) → count (λ x. p x && true) xs ≡ count p xs
count-and_true p [] = refl
count-and_true p (x ∷ xs) = ground (arith, count-and_true p xs)

module _ (env : Env) (lawful : IsClient env.client) (db : Tables) (by reason : String) where
  -- After the revocation no approval of the reports is active.
  pub none_active :
      (ids : List String)
      → count
          (active_for ids)
          (revoke_approvals env by reason (active_approvals env db ids) db.report_approvals)
        ≡ 0
  unfolding active_approvals
  none_active [] =
      active_nil (revoke_approvals env by reason (active_approvals env db []) db.report_approvals)
  none_active (s ∷ ss) =
      revoke-none_active env lawful (s ∷ ss) by reason db.report_approvals _
        (λ q. lawful.find_many_rows (active_for (s ∷ ss)) q db.report_approvals)

  pub count-active :
      (ids : List String)
      → length (active_approvals env db ids) ≡ count (active_for ids) db.report_approvals
  unfolding active_approvals
  count-active [] = sym (active_nil db.report_approvals)
  count-active (s ∷ ss) =
      sym (count_all _)
      ∙ lawful.find_many_rows (active_for (s ∷ ss)) (λ a. true) db.report_approvals
      ∙ count-and_true (active_for (s ∷ ss)) db.report_approvals

-- A revocation makes no approval active.
module _ (env : Env) (lawful : IsClient env.client) (by reason : String)
    (rows : List ReportApproval) where
  revoked_was_active :
      (p : ReportApproval → Bool) (ids : List String) (x : ReportApproval)
      → active_for ids (if p x then revoke_row by env.now reason x else x) ≡ true
      → active_for ids x ≡ true
  unfolding revoke_row
  revoked_was_active p ids x h = ground arith

  pub none_activated :
      (found : List ReportApproval) (ids : List String)
      → count (active_for ids) (revoke_approvals env by reason found rows)
        ≤ count (active_for ids) rows
  unfolding revoke_approvals
  none_activated [] ids = omega arith
  none_activated (a ∷ found) ids =
      let p = with_id (map (λ (x : ReportApproval). x.id) (a ∷ found)) in
      rw (lawful.update_many_rows p (revoke_row by env.now reason) rows (active_for ids))
        (count-le _ (active_for ids) rows (revoked_was_active p ids))

and_false : (b : Bool) → (b && false) ≡ false
and_false true = refl
and_false false = refl

pub count_never {ℓ} :
    {A : Type ℓ} (q : A → Bool) (xs : List A) → ((x : A) → q x ≡ false) → count q xs ≡ 0
count_never q [] f = refl
count_never q (x ∷ xs) f = rw (f x) (count_never q xs f)

-- Reopening rows of a table opens none and changes no version.
module _ (p : PeriodClose → Bool) (by : String) (at : Date) (reason : String)
    (rows rows' : List PeriodClose)
    (counted : (q : PeriodClose → Bool)
      → count q rows' ≡ count (λ x. q (if p x then reopen_row by at reason x else x)) rows) where
  abbrev changed : PeriodClose → PeriodClose
  changed x = if p x then reopen_row by at reason x else x

  pub reopen-IsSound : IsSound rows → IsSound rows'
  unfolding reopen_row
  reopen-IsSound sound = record {
    one_open = λ l.
        let fewer = count-le (λ x. open_of l (changed x)) (open_of l) rows (λ x h. ground arith) in
        omega (arith, counted (open_of l), fewer, sound.one_open l);
    one_version = λ l v.
        let fewer =
          count-le (λ x. same_version l v (changed x)) (same_version l v) rows
            (λ x h. ground arith) in
        omega (arith, counted (same_version l v), fewer, sound.one_version l v);
  }

  changed-not_closed : (x : PeriodClose) → (p (changed x) && is_closed (changed x).status) ≡ false
  unfolding reopen_row
  changed-not_closed x = elim (Bool-cases (p x)) [
    | inl e ↦ rw e (and_false (p (reopen_row by at reason x)))
    | inr e ↦ rw (e, e) refl
  ]

  pub reopen-none_closed : count (λ c. p c && is_closed c.status) rows' ≡ 0
  reopen-none_closed =
      counted (λ c. p c && is_closed c.status)
      ∙ count_never (λ x. p (changed x) && is_closed (changed x).status) rows changed-not_closed
