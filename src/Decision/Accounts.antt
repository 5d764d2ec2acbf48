-- ===== src/Decision/Accounts.antt =====
-- The evidence for a value and for its alternatives accounts for every scored record.
use mathlib.Core.Path.{subst}
use finance.Prelude.{
  ℕ, suc, ◌+◌, ◌≡◌, refl, arith, Bool, false, not, List, [], ◌∷◌, map, String, str_eq, str_eq_iff,
  select, sort_by, length, length-append, Bool-cases, inl, inr, sym, eq_of_iff, ◌∙◌,
}
use finance.Prelude.Sums.{count, total, total-sort_by, length-sort_by}
use finance.Decision.{Hashing, Dimension}
use finance.Decision.Evidence.{
  ScoredRecord, RetrievalDimensionAlternative, Group, add_scored, group_by, group_of,
  alternative_of, alternative_le, scored_le, dimension_base, aggregate_score,
}
use finance.Decision.Candidates.{total_support}

abbrev size : Group → ℕ
size g = length g.1

abbrev keyed : String → Group → Bool
keyed v g = str_eq g.0 v

total-add_scored :
    (v : String) (s : ScoredRecord) (gs : List Group)
    → total size (add_scored v s gs) ≡ suc (total size gs)
total-add_scored v s [] = refl
total-add_scored v s ((k, ss) ∷ gs) =
    ground (arith, total-add_scored v s gs, length-append ss (s ∷ []))

total-group_by :
    (value : ScoredRecord → String) (gs : List Group) (ss : List ScoredRecord)
    → total size (group_by value gs ss) ≡ total size gs + length ss
total-group_by value gs [] = omega arith
total-group_by value gs (s ∷ ss) =
    omega
      (arith, total-group_by value (add_scored (value s) s gs) ss, total-add_scored (value s) s gs)

-- The keys of the groups, once each.
abbrev IsKeyed : List Group → Type 0
IsKeyed [] = Unit
IsKeyed ((k, ss) ∷ gs) = (count (keyed k) gs ≡ 0) × IsKeyed gs

pub str_eq-sym : (a b : String) → str_eq a b ≡ str_eq b a
str_eq-sym a b =
    eq_of_iff (λ h. (str_eq_iff b a).1 (sym ((str_eq_iff a b).0 h)))
      (λ h. (str_eq_iff a b).1 (sym ((str_eq_iff b a).0 h)))

count-add_other :
    (v w : String) (s : ScoredRecord) (gs : List Group)
    → str_eq v w ≡ false
    → count (keyed w) (add_scored v s gs) ≡ count (keyed w) gs
count-add_other v w s [] h = rw h refl
count-add_other v w s ((k, ss) ∷ gs) h = elim (Bool-cases (str_eq k v)) [
  | inl e ↦ rw e refl
  | inr e ↦ rw (e, count-add_other v w s gs h) refl
]

IsKeyed-add :
    (v : String) (s : ScoredRecord) (gs : List Group) → IsKeyed gs → IsKeyed (add_scored v s gs)
IsKeyed-add v s [] h = (refl, tt)
IsKeyed-add v s ((k, ss) ∷ gs) (h, hs) = elim (Bool-cases (str_eq k v)) [
  | inl e ↦ rw e (h, hs)
  | inr e ↦ rw e (count-add_other v k s gs (str_eq-sym v k ∙ e) ∙ h, IsKeyed-add v s gs hs)
]

IsKeyed-group :
    (value : ScoredRecord → String) (gs : List Group) (ss : List ScoredRecord)
    → IsKeyed gs
    → IsKeyed (group_by value gs ss)
IsKeyed-group value gs [] h = h
IsKeyed-group value gs (s ∷ ss) h =
    IsKeyed-group value (add_scored (value s) s gs) ss (IsKeyed-add (value s) s gs h)

abbrev others : String → List Group → List Group
others v gs = select (λ g. not (str_eq g.0 v)) gs

others_all :
    (v : String) (gs : List Group)
    → count (keyed v) gs ≡ 0
    → total size (others v gs) ≡ total size gs
others_all v [] h = refl
others_all v ((k, ss) ∷ gs) h = ground (arith, others_all v gs)

-- The group of a value and the other groups make up all of them.
partition :
    (v : String) (gs : List Group)
    → IsKeyed gs
    → length (group_of v gs) + total size (others v gs) ≡ total size gs
partition v [] h = refl
partition v ((k, ss) ∷ gs) (h, hs) = elim (Bool-cases (str_eq k v)) [
  | inl e ↦
      let same : k ≡ v = (str_eq_iff k v).0 e in
      let rest = others_all v gs (subst (λ x. count (keyed x) gs ≡ 0) same h) in rw (e, rest) refl
  | inr e ↦ rw e (omega (arith, partition v gs hs))
]

alternatives_count :
    (h : Hashing) (score : ℕ) (gs : List Group)
    → total_support (map (alternative_of h score) gs) ≡ total size gs
unfolding alternative_of
alternatives_count h score [] = refl
alternatives_count h score ((k, ss) ∷ gs) =
    omega (arith, alternatives_count h score gs, length-sort_by (scored_le h) ss)

-- Each scored record supports the selected value or one of the alternatives: their counts add up to
-- the number of the records.
pub support_accounts :
    (h : Hashing) (dimension : Dimension) (value : ScoredRecord → String) (selected : String)
    (records : List ScoredRecord) (minimum : ℕ)
    → (let base = dimension_base h dimension value selected records minimum in
        base.support_count + total_support base.conflicting_evidence ≡ length records)
unfolding dimension_base
support_accounts h dimension value selected records minimum =
    let gs = group_by value [] records in
    let mine = sort_by (scored_le h) (group_of selected gs) in
    let score = aggregate_score h mine in
    let kept =
      total-sort_by (λ (a : RetrievalDimensionAlternative). a.base.support_count) (alternative_le h)
        (map (alternative_of h score) (others selected gs)) in
    omega (
      arith,
      kept,
      alternatives_count h score (others selected gs),
      length-sort_by (scored_le h) (group_of selected gs),
      partition selected gs (IsKeyed-group value [] records tt),
      total-group_by value [] records,
    )
