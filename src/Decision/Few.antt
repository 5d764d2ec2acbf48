-- ===== src/Decision/Few.antt =====
-- The candidates of a dimension are few, distinct, active and of the workspace.
use finance.Prelude.{
  ℕ, zero, suc, ◌≤◌, ◌≡◌, refl, arith, Bool, true, false, Option, none, some, List, [], ◌∷◌, String,
  str_eq, str_eq_iff, if◌then◌else◌, ◌==◌, length, All, ◌⊎◌, Bool-cases, inl, inr, sym, ap, ◌∙◌,
}
use finance.Prelude.Sums.{count}
use finance.Close.Reopen.{contains}
use finance.Decision.{Hashing, take}
use finance.Decision.Accounts.{str_eq-sym}
use finance.Decision.Evidence.{RetrievalDimensionEvidence}
use finance.Decision.Candidates.{
  RestrictedDimensionRecord, Ranked, Judged, admitted, excluded, ExclusionReason,
  hard_maximum_candidates, first_only, counts, record_of, judge,
}
use finance.Decision.Restrict.{RestrictedRetrievalCandidate}

-- A value with a record of the workspace that is active.
pub record IsOpen (workspace : String) (records : List RestrictedDimensionRecord) (id : String)
    : Type 0 where
  pub entry : RestrictedDimensionRecord
  pub recorded : record_of id records ≡ some entry
  pub own : str_eq entry.workspace_id workspace ≡ true
  pub active : entry.is_active ≡ true

-- The candidates of a dimension: at most ten, each once, each open and supported, and ranked from 1.
abbrev pub Ranks : ℕ → List RestrictedRetrievalCandidate → Type 0
Ranks n [] = Unit
Ranks n (c ∷ cs) = (c.base.rank ≡ n) × Ranks (suc n) cs

abbrev pub called : String → RestrictedRetrievalCandidate → Bool
called id c = str_eq c.base.candidate_id id

pub record IsChoice (workspace : String) (records : List RestrictedDimensionRecord)
    (cs : List RestrictedRetrievalCandidate) : Type 0 where
  pub few : length cs ≤ hard_maximum_candidates
  pub once : (id : String) → count (called id) cs ≤ 1
  pub open_all : All (λ c. IsOpen workspace records c.base.candidate_id) cs
  pub supported : All (λ c. 1 ≤ c.base.supporting_evidence_count) cs
  pub ranked : Ranks 1 cs

module _ {ℓ} {A : Type ℓ} where
  pub length-take : (n : ℕ) (xs : List A) → length (take n xs) ≤ n
  length-take zero xs = omega arith
  length-take (suc n) [] = omega arith
  length-take (suc n) (x ∷ xs) = omega (arith, length-take n xs)

  pub count-take : (p : A → Bool) (n : ℕ) (xs : List A) → count p (take n xs) ≤ count p xs
  count-take p zero xs = omega arith
  count-take p (suc n) [] = omega arith
  count-take p (suc n) (x ∷ xs) = ground (arith, count-take p n xs)

  pub All-take {κ} : (P : A → Type κ) (n : ℕ) (xs : List A) → All P xs → All P (take n xs)
  All-take P zero xs h = tt
  All-take P (suc n) [] h = tt
  All-take P (suc n) (x ∷ xs) (h, hs) = (h, All-take P n xs hs)

-- An identifier is kept once, and not if it was seen.
pub count-first_only :
    (id : String) (seen ids : List String)
    → count (λ s. str_eq s id) (first_only seen ids) ≤ (if contains id seen then 0 else 1)
count-first_only id seen [] = ground arith
count-first_only id seen (s ∷ ss) = elim (Bool-cases (contains s seen)) [
  | inl e ↦ rw e (count-first_only id seen ss)
  | inr e ↦ elim (Bool-cases (str_eq s id)) [
    | inl f ↦
        let same : s ≡ id = (str_eq_iff s id).0 f in
        let back : str_eq id s ≡ true = (str_eq_iff id s).1 (sym same) in
        let rest = count-first_only id (s ∷ seen) ss in
        let now : contains id seen ≡ false = rw (← same) e in
        rw (e, f, now) (omega (arith, rw back at rest))
    | inr f ↦
        let other : str_eq id s ≡ false = str_eq-sym id s ∙ f in
        let rest = count-first_only id (s ∷ seen) ss in rw (e, f) (rw other at rest)
  ]
]

pub excluded_is_not : {x : ExclusionReason} {r : Ranked} → excluded x ≡ admitted r → ⊥
excluded_is_not h = cc

admitted_injective : {r s : Ranked} → admitted r ≡ admitted s → r ≡ s
admitted_injective h = cc

pub Judged-cases :
    (j : Judged) → ((r : Ranked) × (j ≡ admitted r)) ⊎ ((x : ExclusionReason) × (j ≡ excluded x))
Judged-cases (admitted r) = inl (r, refl)
Judged-cases (excluded x) = inr (x, refl)

module _ (h : Hashing) (workspace : String) (e : RetrievalDimensionEvidence) where
  -- What is admitted has the identifier that is judged, an active record of the workspace, and support.
  pub judge-admitted :
      (id : String) (o : Option RestrictedDimensionRecord) (r : Ranked)
      → judge h workspace e id o ≡ admitted r
      → (entry : RestrictedDimensionRecord) × ((o ≡ some entry)
          × ((str_eq entry.workspace_id workspace ≡ true)
              × ((entry.is_active ≡ true) × ((r.candidate_id ≡ id) × (1 ≤ r.supporting)))))
  unfolding judge
  judge-admitted id none r h = absurd cc
  judge-admitted id (some entry) r k = elim (Bool-cases (str_eq entry.workspace_id workspace)) [
    | inr w ↦ absurd (excluded_is_not (rw w at k))
    | inl w ↦ elim (Bool-cases entry.is_active) [
      | inr a ↦ absurd (excluded_is_not (rw (w, a) at k))
      | inl a ↦ elim (Bool-cases ((counts e id).supporting == 0)) [
        | inl z ↦ absurd (excluded_is_not (rw (w, a, z) at k))
        | inr z ↦
            let is = admitted_injective (rw (w, a, z) at k) in
            (entry, (refl, (w, (a, (ap (λ x. x.candidate_id) (sym is), rw (← is) (ground arith))))))
      ]
    ]
  ]
