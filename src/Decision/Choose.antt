-- ===== src/Decision/Choose.antt =====
-- server/services/deterministicDecisionService.ts: the decision from the retrieval, its evidence and the
-- candidates, in one dimension.
use finance.Prelude.{
  ℕ, Bool, true, false, ◌&&◌, ◌||◌, Option, none, some, List, [], ◌∷◌, map, String, str_eq,
  if◌then◌else◌, or_else, is_truthy, sort_by,
}
use finance.Decision.{Hashing, ascending, text_le, Dimension}
use finance.Decision.Evidence.{HistoryScoreComponents, RetrievalDimensionEvidence}
use finance.Decision.Explained.{
  DeterministicHistoryRetrievalResult, RetrievalReason, DeterministicRetrievalEvidenceResult,
  EvidenceReason,
}
use finance.Decision.Candidates.{total_support}
use finance.Decision.Restrict.{
  RestrictedRetrievalCandidate, RestrictedRetrievalCandidateResult, CandidateReason,
}

pub data DecisionStatus : Type 0 where
  proposed abstained conflicted incomplete : DecisionStatus

pub data DimensionStatus : Type 0 where
  selected abstained conflicted incomplete : DimensionStatus

pub data AbstentionReason : Type 0 where
  retrieval : RetrievalReason → AbstentionReason
  material_conflict insufficient_evidence : AbstentionReason
  no_valid_project no_valid_transaction_type no_valid_category : AbstentionReason
  incomplete_decision : AbstentionReason

pub record DecisionDimensionBase : Type 0 where
  pub dimension : Dimension
  pub status : DimensionStatus
  pub selected_candidate_id : Option String
  pub selected_candidate_rank : Option ℕ
  pub allowed_candidate_ids : List String
  pub supporting_evidence_count : ℕ
  pub conflicting_evidence_count : ℕ
  pub component_scores : Option HistoryScoreComponents
  pub retrieval_hash : Option String
  pub evidence_hash : Option String
  pub candidate_hash : Option String
  pub candidate_set_hash : String
  pub provenance_hashes : List String
  pub score_basis_points : Option ℕ
  pub reason : Option AbstentionReason

pub record DecisionDimension : Type 0 where
  pub base : DecisionDimensionBase
  pub dimension_hash : String

pub data DecisionError : Type 0 where
  workspace_mismatch transaction_mismatch version_mismatch hashes_missing : DecisionError
  stale_retrieval stale_evidence stale_candidates : DecisionError

abbrev pub candidate_with :
    String → List RestrictedRetrievalCandidate → Option RestrictedRetrievalCandidate
candidate_with id [] = none
candidate_with id (c ∷ cs) = if str_eq c.base.candidate_id id then some c else candidate_with id cs

abbrev pub usable : Option RestrictedRetrievalCandidate → Option RestrictedRetrievalCandidate
usable none = none
usable (some c) = if c.base.active && c.base.direction_compatible then some c else none

-- `selectCandidate`, where an empty identifier is none.
abbrev pub select_candidate :
    List RestrictedRetrievalCandidate → Option String → Option RestrictedRetrievalCandidate
select_candidate cs none = none
select_candidate cs (some id) = if is_truthy id then usable (candidate_with id cs) else none

abbrev candidate_reason : Option CandidateReason → Option AbstentionReason
candidate_reason none = none
candidate_reason (some CandidateReason.material_conflict) = some AbstentionReason.material_conflict
candidate_reason (some CandidateReason.insufficient_evidence) =
    some AbstentionReason.insufficient_evidence
candidate_reason (some CandidateReason.no_valid_project) = some AbstentionReason.no_valid_project
candidate_reason (some CandidateReason.no_valid_transaction_type) =
    some AbstentionReason.no_valid_transaction_type
candidate_reason (some CandidateReason.no_valid_category) = some AbstentionReason.no_valid_category

abbrev evidence_or : Option EvidenceReason → Option AbstentionReason → Option AbstentionReason
evidence_or (some EvidenceReason.material_conflict) rest = some AbstentionReason.material_conflict
evidence_or (some EvidenceReason.insufficient_evidence) rest =
    some AbstentionReason.insufficient_evidence
evidence_or _ rest = rest

abbrev retrieval_or : Option RetrievalReason → Option AbstentionReason
retrieval_or none = none
retrieval_or (some r) = some (AbstentionReason.retrieval r)

pub record DecisionInput : Type 0 where
  pub workspace_id : String
  pub transaction_fact_hash : Option String
  pub retrieval : DeterministicHistoryRetrievalResult
  pub evidence : DeterministicRetrievalEvidenceResult
  pub candidates : RestrictedRetrievalCandidateResult
  pub expected_retrieval_hash : Option String
  pub expected_evidence_hash : Option String
  pub expected_candidate_set_hash : Option String

-- `mapUpstreamReason`
abbrev pub upstream_reason : DecisionInput → Option AbstentionReason
upstream_reason input =
    if input.retrieval.abstained
    then retrieval_or input.retrieval.abstention_reason
    else evidence_or input.evidence.base.abstention_reason
        (candidate_reason input.candidates.base.abstention_reason)

abbrev pub candidate_le :
    Hashing → RestrictedRetrievalCandidate → RestrictedRetrievalCandidate → Bool
candidate_le h l r =
    ascending l.base.rank r.base.rank (text_le h l.base.candidate_id r.base.candidate_id)

abbrev is_conflict : Option AbstentionReason → Bool
is_conflict (some AbstentionReason.material_conflict) = true
is_conflict _ = false

abbrev conflict_in : Option RetrievalDimensionEvidence → Bool
conflict_in none = false
conflict_in (some e) = e.base.material_conflict

abbrev pub map_option {ℓ κ} : {A : Type ℓ} {B : Type κ} → (A → B) → Option A → Option B
map_option f none = none
map_option f (some a) = some (f a)

-- `a ?? b` where `b` may be null too
abbrev pub first_given {ℓ} : {A : Type ℓ} → Option A → Option A → Option A
first_given none b = b
first_given (some a) b = some a

abbrev pub dimension_status :
    Bool → Option RestrictedRetrievalCandidate → List RestrictedRetrievalCandidate → DimensionStatus
dimension_status true chosen cs = DimensionStatus.conflicted
dimension_status false (some c) cs = DimensionStatus.selected
dimension_status false none [] = DimensionStatus.abstained
dimension_status false none (c ∷ cs) = DimensionStatus.incomplete

abbrev pub dimension_reason :
    Bool → Option AbstentionReason → Option RestrictedRetrievalCandidate → Option AbstentionReason
dimension_reason true upstream chosen = some AbstentionReason.material_conflict
dimension_reason false (some r) chosen = some r
dimension_reason false none none = some AbstentionReason.incomplete_decision
dimension_reason false none (some c) = none

unfoldable pub build_dimension :
    Hashing
    → Dimension
    → List RestrictedRetrievalCandidate
    → Option RetrievalDimensionEvidence
    → String
    → Option AbstentionReason
    → DecisionDimension
build_dimension h d candidates evidence set_hash upstream =
    let ordered = sort_by (candidate_le h) candidates in
    let chosen =
      select_candidate ordered
        (map_option (λ (e : RetrievalDimensionEvidence). e.base.selected_value_id) evidence) in
    let conflict = conflict_in evidence || is_conflict upstream in
    let base : DecisionDimensionBase = record {
      dimension = d;
      status = dimension_status conflict chosen candidates;
      selected_candidate_id =
          map_option (λ (c : RestrictedRetrievalCandidate). c.base.candidate_id) chosen;
      selected_candidate_rank =
          map_option (λ (c : RestrictedRetrievalCandidate). c.base.rank) chosen;
      allowed_candidate_ids =
          map (λ (c : RestrictedRetrievalCandidate). c.base.candidate_id) ordered;
      supporting_evidence_count =
          or_else
            (first_given
              (map_option (λ (c : RestrictedRetrievalCandidate). c.base.supporting_evidence_count)
                chosen)
              (map_option (λ (e : RetrievalDimensionEvidence). e.base.support_count) evidence))
            0;
      conflicting_evidence_count =
          or_else
            (first_given
              (map_option (λ (c : RestrictedRetrievalCandidate). c.base.conflicting_evidence_count)
                chosen)
              (map_option
                (λ (e : RetrievalDimensionEvidence). total_support e.base.conflicting_evidence)
                evidence))
            0;
      component_scores =
          map_option (λ (e : RetrievalDimensionEvidence). e.base.component_scores) evidence;
      retrieval_hash =
          map_option (λ (c : RestrictedRetrievalCandidate). c.base.retrieval_hash) chosen;
      evidence_hash =
          first_given
            (map_option (λ (c : RestrictedRetrievalCandidate). c.base.evidence_hash) chosen)
            (map_option (λ (e : RetrievalDimensionEvidence). e.evidence_hash) evidence);
      candidate_hash = map_option (λ (c : RestrictedRetrievalCandidate). c.candidate_hash) chosen;
      candidate_set_hash = set_hash;
      provenance_hashes =
          or_else
            (map_option (λ (c : RestrictedRetrievalCandidate). c.base.provenance_hashes) chosen) [];
      score_basis_points =
          map_option (λ (e : RetrievalDimensionEvidence). e.base.support_score_basis_points)
            evidence;
      reason = dimension_reason conflict upstream chosen;
    } in
    record { base = base; dimension_hash = h.hash_of base }
