-- ===== src/Decision/Decide.antt =====
-- server/services/deterministicDecisionService.ts, `buildDeterministicDecision`.
use finance.Prelude.{
  Bool, true, false, ◌&&◌, Option, none, some, List, [], ◌∷◌, String, str_eq, if◌then◌else◌,
  is_truthy, Result, ok, ◌>>◌, require,
}
use finance.Decision.{Hashing, Dimension}
use finance.Decision.Explained.{
  HistoryRetrievalBounds, RetrievalCandidateEvidence, evidence_version, scorer_version,
  eligibility_version,
}
use finance.Decision.Candidates.{candidate_version, RestrictedCandidateBounds}
use finance.Decision.Choose.{
  DecisionStatus, DimensionStatus, AbstentionReason, DecisionDimension, DecisionError,
  DecisionInput, workspace_mismatch, transaction_mismatch, version_mismatch, hashes_missing,
  stale_retrieval, stale_evidence, stale_candidates, upstream_reason, map_option, build_dimension,
}

abbrev pub decision_version : String
decision_version = "deterministic-decision-v1"

pub record ReplayIdentity : Type 0 where
  pub retrieval_hash : String
  pub evidence_hash : String
  pub candidate_set_hash : String
  pub weights_hash : String
  pub bounds_hash : String

pub record DecisionDimensions : Type 0 where
  pub project : DecisionDimension
  pub transaction_type : DecisionDimension
  pub category : DecisionDimension

pub record DecisionBase : Type 0 where
  pub version : String
  pub workspace_id : String
  pub target_transaction_id : String
  pub transaction_fact_hash : Option String
  pub status : DecisionStatus
  pub abstention_reason : Option AbstentionReason
  pub dimensions : DecisionDimensions
  pub replay_identity : ReplayIdentity

pub record DeterministicDecisionResult : Type 0 where
  pub base : DecisionBase
  pub decision_hash : String

-- The versions of the three inputs are those that the decision knows.
abbrev pub versions_known : DecisionInput → Bool
versions_known input =
    let r = input.retrieval in
    let e = input.evidence.base in
    let c = input.candidates.base in
    str_eq r.scorer_version scorer_version
    && (str_eq r.eligibility_version eligibility_version
        && (str_eq e.evidence_version evidence_version
            && (str_eq e.scorer_version scorer_version
                && (str_eq e.eligibility_version eligibility_version
                    && (str_eq c.candidate_version candidate_version
                        && (str_eq c.evidence_version evidence_version
                            && (str_eq c.scorer_version scorer_version
                                && str_eq c.eligibility_version eligibility_version)))))))

-- A hash that is expected and not empty is the one that is there.
abbrev pub expected_or_none : Option String → String → Bool
expected_or_none none hash = true
expected_or_none (some expected) hash = if is_truthy expected then str_eq expected hash else true

abbrev pub top_of : List RetrievalCandidateEvidence → Option RetrievalCandidateEvidence
top_of [] = none
top_of (c ∷ cs) = some c

abbrev pub dimensions_of :
    Hashing → DecisionInput → Option RetrievalCandidateEvidence → DecisionDimensions
dimensions_of h input top =
    let c = input.candidates in
    let upstream = upstream_reason input in
    record {
      project =
          build_dimension h Dimension.project c.base.project_candidates
            (map_option (λ (e : RetrievalCandidateEvidence). e.base.dimensions.project) top)
            c.candidate_set_hash upstream;
      transaction_type =
          build_dimension h Dimension.transaction_type c.base.transaction_type_candidates
            (map_option (λ (e : RetrievalCandidateEvidence). e.base.dimensions.transaction_type)
              top)
            c.candidate_set_hash upstream;
      category =
          build_dimension h Dimension.category c.base.category_candidates
            (map_option (λ (e : RetrievalCandidateEvidence). e.base.dimensions.category) top)
            c.candidate_set_hash upstream;
    }

abbrev pub is_selected : DimensionStatus → Bool
is_selected DimensionStatus.selected = true
is_selected _ = false

abbrev pub all_selected : DecisionDimensions → Bool
all_selected d =
    is_selected d.project.base.status
    && (is_selected d.transaction_type.base.status && is_selected d.category.base.status)

abbrev pub final_reason : Option AbstentionReason → DecisionDimensions → Option AbstentionReason
final_reason (some r) d = some r
final_reason none d = if all_selected d then none else some AbstentionReason.incomplete_decision

abbrev pub decision_status : Option AbstentionReason → DecisionStatus
decision_status none = DecisionStatus.proposed
decision_status (some AbstentionReason.material_conflict) = DecisionStatus.conflicted
decision_status (some AbstentionReason.incomplete_decision) = DecisionStatus.incomplete
decision_status (some _) = DecisionStatus.abstained

unfoldable pub decision_of : Hashing → DecisionInput → DeterministicDecisionResult
decision_of h input =
    let dimensions = dimensions_of h input (top_of input.evidence.base.candidates) in
    let reason = final_reason (upstream_reason input) dimensions in
    let base : DecisionBase = record {
      version = decision_version;
      workspace_id = input.workspace_id;
      target_transaction_id = input.retrieval.target_transaction_id;
      transaction_fact_hash = input.transaction_fact_hash;
      status = decision_status reason;
      abstention_reason = reason;
      dimensions = dimensions;
      replay_identity = record {
        retrieval_hash = input.retrieval.retrieval_hash;
        evidence_hash = input.evidence.evidence_hash;
        candidate_set_hash = input.candidates.candidate_set_hash;
        weights_hash = h.hash_of input.retrieval.weights;
        bounds_hash =
            h.hash_of {A = HistoryRetrievalBounds × RestrictedCandidateBounds}
              (input.retrieval.bounds, input.candidates.base.bounds);
      };
    } in
    record { base = base; decision_hash = h.hash_of base }

unfoldable pub build_deterministic_decision :
    Hashing → DecisionInput → Result DecisionError DeterministicDecisionResult
build_deterministic_decision h input = do
  let r = input.retrieval
  let e = input.evidence
  let c = input.candidates
  require
      (str_eq r.workspace_id input.workspace_id
        && (str_eq e.base.workspace_id input.workspace_id
            && str_eq c.base.workspace_id input.workspace_id))
      workspace_mismatch
  require
      (str_eq r.target_transaction_id e.base.target_transaction_id
        && str_eq r.target_transaction_id c.base.target_transaction_id)
      transaction_mismatch
  require (versions_known input) version_mismatch
  require
      (is_truthy e.evidence_hash && (is_truthy c.candidate_set_hash && is_truthy r.retrieval_hash))
      hashes_missing
  require (expected_or_none input.expected_retrieval_hash r.retrieval_hash) stale_retrieval
  require (expected_or_none input.expected_evidence_hash e.evidence_hash) stale_evidence
  require (expected_or_none input.expected_candidate_set_hash c.candidate_set_hash) stale_candidates
  ok (decision_of h input)
