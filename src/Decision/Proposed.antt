-- ===== src/Decision/Proposed.antt =====
-- A decision that proposes a booking has chosen, in each dimension, the value that the history supports.
use mathlib.Core.Path.{subst}
use finance.Prelude.{
  ◌≡◌, refl, arith, Bool, true, false, ◌&&◌, Option, none, some, List, [], ◌∷◌, String, str_eq,
  str_eq_iff, is_truthy, All, sort_by, Bool-cases, inl, inr, sym, ap, ◌∙◌,
}
use finance.Prelude.Throughout.{All-sort_by}
use finance.Decision.{Hashing, Dimension}
use finance.Decision.Evidence.{RetrievalDimensionEvidence}
use finance.Decision.Candidates.{RestrictedDimensionRecord}
use finance.Decision.Restrict.{RestrictedRetrievalCandidate}
use finance.Decision.Choose.{
  AbstentionReason, DecisionDimension, candidate_with, usable, select_candidate, candidate_le,
  map_option, dimension_status, build_dimension,
}
use finance.Decision.Decide.{is_selected}
use finance.Decision.Few.{IsOpen}

some_injective : {a b : RestrictedRetrievalCandidate} → some a ≡ some b → a ≡ b
some_injective h = cc

some_is_not_none : {a : RestrictedRetrievalCandidate} → some a ≡ none → ⊥
some_is_not_none h = cc

-- A candidate that is found is one of the list, and has the identifier.
candidate_with-All :
    (P : RestrictedRetrievalCandidate → Type 0) (id : String)
    (cs : List RestrictedRetrievalCandidate) (c : RestrictedRetrievalCandidate)
    → All P cs
    → candidate_with id cs ≡ some c
    → P c × (c.base.candidate_id ≡ id)
candidate_with-All P id [] c h e = absurd cc
candidate_with-All P id (x ∷ cs) c (h, hs) e = elim (Bool-cases (str_eq x.base.candidate_id id)) [
  | inl t ↦
      let same : x ≡ c = some_injective (rw t at e) in
      (subst P same h, ap (λ y. y.base.candidate_id) (sym same) ∙ (str_eq_iff _ _).0 t)
  | inr t ↦ candidate_with-All P id cs c hs (rw t at e)
]

usable-some :
    (o : Option RestrictedRetrievalCandidate) (c : RestrictedRetrievalCandidate)
    → usable o ≡ some c
    → o ≡ some c
usable-some none c e = absurd cc
usable-some (some x) c e = elim (Bool-cases (x.base.active && x.base.direction_compatible)) [
  | inl t ↦ rw t at e
  | inr t ↦ absurd (some_is_not_none (sym (rw t at e)))
]

-- A value that is proposed: the one that the evidence selects, without a material conflict, and open.
pub record IsProposed (workspace : String) (records : List RestrictedDimensionRecord)
    (evidence : Option RetrievalDimensionEvidence) (d : DecisionDimension) : Type 0 where
  pub given : RetrievalDimensionEvidence
  pub evidence_is : evidence ≡ some given
  pub chosen : d.base.selected_candidate_id ≡ some given.base.selected_value_id
  pub agreed : given.base.material_conflict ≡ false
  pub open_value : IsOpen workspace records given.base.selected_value_id

selected_no_conflict :
    (conflict : Bool) (o : Option RestrictedRetrievalCandidate)
    (cs : List RestrictedRetrievalCandidate)
    → is_selected (dimension_status conflict o cs) ≡ true
    → (conflict ≡ false) × ((c : RestrictedRetrievalCandidate) × (o ≡ some c))
selected_no_conflict true o cs h = absurd (ground arith)
selected_no_conflict false (some c) cs h = (refl, (c, refl))
selected_no_conflict false none [] h = absurd (ground arith)
selected_no_conflict false none (c ∷ cs) h = absurd (ground arith)

module _ (h : Hashing) (d : Dimension) (workspace : String)
    (records : List RestrictedDimensionRecord) (cs : List RestrictedRetrievalCandidate)
    (opened : All (λ c. IsOpen workspace records c.base.candidate_id) cs) (set_hash : String)
    (upstream : Option AbstentionReason) where
  pub dimension-IsProposed :
      (evidence : Option RetrievalDimensionEvidence)
      → is_selected (build_dimension h d cs evidence set_hash upstream).base.status ≡ true
      → IsProposed workspace records evidence (build_dimension h d cs evidence set_hash upstream)
  unfolding build_dimension
  dimension-IsProposed none k =
      let (calm, (c, chosen)) = selected_no_conflict _ none cs k in
      absurd (some_is_not_none (sym chosen))
  dimension-IsProposed (some e) k =
      let ordered = sort_by (candidate_le h) cs in
      let id = e.base.selected_value_id in
      let P = λ (c : RestrictedRetrievalCandidate). IsOpen workspace records c.base.candidate_id in
      let (calm, (c, chosen)) = selected_no_conflict _ (select_candidate ordered (some id)) cs k in
      elim (Bool-cases (is_truthy id)) [
        | inr t ↦ absurd (some_is_not_none (sym (rw t at chosen)))
        | inl t ↦
            let found = usable-some (candidate_with id ordered) c (rw t at chosen) in
            let (is_open, same) =
              candidate_with-All P id ordered c (All-sort_by P (candidate_le h) cs opened) found in
            record {
              given = e;
              evidence_is = refl;
              chosen = ap (map_option (λ x. x.base.candidate_id)) chosen ∙ ap some same;
              agreed = ground arith;
              open_value = rw (← same) is_open;
            }
      ]
