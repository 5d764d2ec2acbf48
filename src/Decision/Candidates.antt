-- ===== src/Decision/Candidates.antt =====
-- server/services/restrictedRetrievalCandidateService.ts: the values that may be chosen, at most a few
-- in each dimension, active and of the workspace.
use finance.Prelude.{
  ℕ, Bool, not, Option, none, some, List, [], ◌∷◌, map, String, str_eq, ◌==◌, if◌then◌else◌,
  sort_by,
}
use finance.Prelude.Int.{ℤ, pos, negsuc}
use finance.Prelude.Sums.{total}
use finance.Close.Reopen.{contains}
use finance.Decision.{Hashing, min, max, take, text_le, Dimension}
use finance.Decision.Evidence.{
  RetrievalEvidenceReference, RetrievalDimensionAlternative, RetrievalDimensionEvidence,
}

abbrev pub candidate_version : String
candidate_version = "restricted-retrieval-candidates-v1"

pub record RestrictedDimensionRecord : Type 0 where
  pub id : String
  pub workspace_id : String
  pub is_active : Bool

-- The bounds that are asked for, as integers; the code rounds fractions down.
pub record PartialBounds : Type 0 where
  pub maximum_project_candidates : Option ℤ
  pub maximum_transaction_type_candidates : Option ℤ
  pub maximum_category_candidates : Option ℤ
  pub maximum_evidence_alternatives : Option ℤ

pub record RestrictedCandidateBounds : Type 0 where
  pub maximum_project_candidates : ℕ
  pub maximum_transaction_type_candidates : ℕ
  pub maximum_category_candidates : ℕ
  pub maximum_evidence_alternatives : ℕ

-- `HARD_MAXIMUM_CANDIDATES_PER_DIMENSION`
abbrev pub hard_maximum_candidates : ℕ
hard_maximum_candidates = 10

-- `HARD_MAXIMUM_EVIDENCE_ALTERNATIVES_PER_DIMENSION`
abbrev pub hard_maximum_alternatives : ℕ
hard_maximum_alternatives = 25

abbrev pub clamp : Option ℤ → ℕ → ℕ → ℕ
clamp none fallback hard = fallback
clamp (some (pos n)) fallback hard = max 1 (min hard n)
clamp (some (negsuc n)) fallback hard = 1

unfoldable pub normalize_bounds : PartialBounds → RestrictedCandidateBounds
normalize_bounds b = record {
  maximum_project_candidates = clamp b.maximum_project_candidates 5 hard_maximum_candidates;
  maximum_transaction_type_candidates =
      clamp b.maximum_transaction_type_candidates 5 hard_maximum_candidates;
  maximum_category_candidates = clamp b.maximum_category_candidates 5 hard_maximum_candidates;
  maximum_evidence_alternatives =
      clamp b.maximum_evidence_alternatives 10 hard_maximum_alternatives;
}

-- `.filter((value, index, values) => values.indexOf(value) === index)`
abbrev pub first_only : List String → List String → List String
first_only seen [] = []
first_only seen (s ∷ ss) =
    let again = first_only seen ss in
    let rest = first_only (s ∷ seen) ss in if contains s seen then again else s ∷ rest

unfoldable pub candidate_ids : RetrievalDimensionEvidence → ℕ → List String
candidate_ids e maximum = first_only [] (
    e.base.selected_value_id
    ∷ map (λ (a : RetrievalDimensionAlternative). a.base.value_id)
        (take maximum e.base.conflicting_evidence))

-- `conflictingEvidence.find((item) => item.valueId === candidateId)`
abbrev pub alternative_with :
    String → List RetrievalDimensionAlternative → Option RetrievalDimensionAlternative
alternative_with id [] = none
alternative_with id (a ∷ as') =
    if str_eq a.base.value_id id then some a else alternative_with id as'

abbrev strongest_of : Option RetrievalDimensionAlternative → List RetrievalEvidenceReference
strongest_of none = []
strongest_of (some a) = a.base.strongest_evidence

unfoldable pub provenance_of : Hashing → RetrievalDimensionEvidence → String → List String
provenance_of h e id =
    let chosen =
      if str_eq id e.base.selected_value_id
      then e.base.supporting_evidence
      else strongest_of (alternative_with id e.base.conflicting_evidence) in
    sort_by (text_le h)
      (first_only [] (map (λ (r : RetrievalEvidenceReference). r.provenance_hash) chosen))

pub record Counts : Type 0 where
  pub supporting : ℕ
  pub conflicting : ℕ
  pub score : ℕ

-- The supporting records of the alternatives together.
abbrev pub total_support : List RetrievalDimensionAlternative → ℕ
total_support as' = total (λ (a : RetrievalDimensionAlternative). a.base.support_count) as'

abbrev alternative_counts : ℕ → Option RetrievalDimensionAlternative → Counts
alternative_counts against none = record { supporting = 0; conflicting = against; score = 0 }
alternative_counts against (some a) = record {
  supporting = a.base.support_count;
  conflicting = against;
  score = a.base.support_score_basis_points;
}

unfoldable pub counts : RetrievalDimensionEvidence → String → Counts
counts e id =
    if str_eq id e.base.selected_value_id
    then record {
      supporting = e.base.support_count;
      conflicting = total_support e.base.conflicting_evidence;
      score = e.base.support_score_basis_points;
    }
    else alternative_counts e.base.support_count (alternative_with id e.base.conflicting_evidence)

pub data ExclusionReason : Type 0 where
  inactive cross_workspace missing unsupported_by_evidence : ExclusionReason

pub record Diagnostic : Type 0 where
  pub dimension : Dimension
  pub candidate_id : String
  pub reason : ExclusionReason

pub record Ranked : Type 0 where
  pub candidate_id : String
  pub current : Bool
  pub score : ℕ
  pub supporting : ℕ
  pub conflicting : ℕ
  pub provenance : List String

pub data Judged : Type 0 where
  admitted : Ranked → Judged
  excluded : ExclusionReason → Judged

abbrev or_here :
    String
    → RestrictedDimensionRecord
    → Option RestrictedDimensionRecord
    → Option RestrictedDimensionRecord
or_here id r (some later) = some later
or_here id r none = if str_eq r.id id then some r else none

-- `new Map(records.map((record) => [record.id, record])).get(id)`: the last record with the identifier.
abbrev pub record_of : String → List RestrictedDimensionRecord → Option RestrictedDimensionRecord
record_of id [] = none
record_of id (r ∷ rs) = or_here id r (record_of id rs)

unfoldable pub judge :
    Hashing
    → String
    → RetrievalDimensionEvidence
    → String
    → Option RestrictedDimensionRecord
    → Judged
judge h workspace e id none = excluded missing
judge h workspace e id (some r) =
    let c = counts e id in
    if not (str_eq r.workspace_id workspace)
    then excluded cross_workspace
    else if not r.is_active
    then excluded inactive
    else if c.supporting == 0
    then excluded unsupported_by_evidence
    else admitted (record {
      candidate_id = id;
      current = str_eq id e.base.selected_value_id;
      score = c.score;
      supporting = c.supporting;
      conflicting = c.conflicting;
      provenance = provenance_of h e id;
    })
