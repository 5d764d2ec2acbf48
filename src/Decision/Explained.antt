-- ===== src/Decision/Explained.antt =====
-- server/services/deterministicRetrievalEvidenceService.ts, the rest of
-- `buildDeterministicRetrievalEvidence`: the evidence for each candidate, and why there is none.
use finance.Prelude.{
  ℕ, Bool, true, false, ◌||◌, Option, none, some, List, [], ◌∷◌, map, String, if◌then◌else◌,
}
use finance.Decision.{Hashing, Dimension}
use finance.Decision.Evidence.{
  ScoredRecord, RetrievalDimensionEvidence, RetrievalEvidenceStatus, dimension_evidence,
}

-- `DeterministicHistoryRetrievalAbstentionReason`
pub data RetrievalReason : Type 0 where
  no_eligible_history no_score_above_threshold : RetrievalReason

pub record HistoryRetrievalBounds : Type 0 where
  pub maximum_history_rows : ℕ
  pub maximum_candidates : ℕ
  pub lookback_days : ℕ
  pub minimum_score_basis_points : ℕ
  pub eligible_history_rows_supplied : ℕ
  pub eligible_history_rows_considered : ℕ
  pub history_rows_truncated : Bool

-- `HISTORY_SUGGESTION_COMPONENT_WEIGHTS` of server/services/historySuggestionService.ts
pub record ComponentWeights : Type 0 where
  pub exact_iban : ℕ
  pub exact_counterparty : ℕ
  pub exact_description : ℕ
  pub exact_purpose : ℕ
  pub token_similarity_maximum : ℕ
  pub same_account : ℕ
  pub exact_amount : ℕ
  pub recurring_month : ℕ
  pub recency_maximum : ℕ
  pub merchant_anchor_maximum : ℕ
  pub frequency_maximum : ℕ

-- A candidate of the retrieval, by the fields that are read.
pub record DeterministicHistoryRetrievalCandidate : Type 0 where
  pub project_id : String
  pub transaction_type_id : String
  pub category_id : String
  pub retrieval_hash : String

-- The result of the retrieval. Its reason is null when it matched, and given when it abstained.
pub record DeterministicHistoryRetrievalResult : Type 0 where
  pub scorer_version : String
  pub eligibility_version : String
  pub workspace_id : String
  pub target_transaction_id : String
  pub abstained : Bool
  pub abstention_reason : Option RetrievalReason
  pub bounds : HistoryRetrievalBounds
  pub weights : ComponentWeights
  pub candidates : List DeterministicHistoryRetrievalCandidate
  pub retrieval_hash : String

pub record Dimensions : Type 0 where
  pub project : RetrievalDimensionEvidence
  pub transaction_type : RetrievalDimensionEvidence
  pub category : RetrievalDimensionEvidence

pub data EvidenceStatus : Type 0 where
  supported insufficient material_conflict : EvidenceStatus

pub record CandidateEvidenceBase : Type 0 where
  pub candidate : DeterministicHistoryRetrievalCandidate
  pub dimensions : Dimensions
  pub evidence_status : EvidenceStatus

pub record RetrievalCandidateEvidence : Type 0 where
  pub base : CandidateEvidenceBase
  pub evidence_hash : String

pub data EvidenceReason : Type 0 where
  retrieval : RetrievalReason → EvidenceReason
  insufficient_evidence material_conflict : EvidenceReason

pub record EvidenceResultBase : Type 0 where
  pub evidence_version : String
  pub scorer_version : String
  pub eligibility_version : String
  pub workspace_id : String
  pub target_transaction_id : String
  pub abstained : Bool
  pub abstention_reason : Option EvidenceReason
  pub candidates : List RetrievalCandidateEvidence

pub record DeterministicRetrievalEvidenceResult : Type 0 where
  pub base : EvidenceResultBase
  pub evidence_hash : String

abbrev pub evidence_version : String
evidence_version = "deterministic-retrieval-evidence-v1"

abbrev pub scorer_version : String
scorer_version = "deterministic-history-retrieval-v1"

abbrev pub eligibility_version : String
eligibility_version = "confirmed-history-v1"

abbrev is_weak : RetrievalEvidenceStatus → Bool
is_weak RetrievalEvidenceStatus.absent = true
is_weak RetrievalEvidenceStatus.insufficient = true
is_weak _ = false

abbrev pub any_conflict : Dimensions → Bool
any_conflict d =
    d.project.base.material_conflict
    || (d.transaction_type.base.material_conflict || d.category.base.material_conflict)

abbrev pub any_weak : Dimensions → Bool
any_weak d =
    is_weak d.project.base.status
    || (is_weak d.transaction_type.base.status || is_weak d.category.base.status)

abbrev pub evidence_status : Dimensions → EvidenceStatus
evidence_status d =
    if any_conflict d
    then EvidenceStatus.material_conflict
    else if any_weak d
    then EvidenceStatus.insufficient
    else EvidenceStatus.supported

unfoldable pub candidate_evidence :
    Hashing
    → List ScoredRecord
    → ℕ
    → DeterministicHistoryRetrievalCandidate
    → RetrievalCandidateEvidence
candidate_evidence h records minimum candidate =
    let dimensions : Dimensions = record {
      project =
          dimension_evidence h Dimension.project (λ r. r.project_id) candidate.project_id records
            minimum;
      transaction_type =
          dimension_evidence h Dimension.transaction_type (λ r. r.transaction_type_id)
            candidate.transaction_type_id records minimum;
      category =
          dimension_evidence h Dimension.category (λ r. r.category_id) candidate.category_id records
            minimum;
    } in
    let base : CandidateEvidenceBase = record {
      candidate = candidate;
      dimensions = dimensions;
      evidence_status = evidence_status dimensions;
    } in
    record { base = base; evidence_hash = h.hash_of base }

abbrev pub status_reason : EvidenceStatus → Option EvidenceReason
status_reason EvidenceStatus.material_conflict = some EvidenceReason.material_conflict
status_reason EvidenceStatus.insufficient = some EvidenceReason.insufficient_evidence
status_reason EvidenceStatus.supported = none

-- The reason that the first candidate gives.
abbrev pub top_reason : List RetrievalCandidateEvidence → Option EvidenceReason
top_reason [] = none
top_reason (c ∷ cs) = status_reason c.base.evidence_status

abbrev retrieval_reason : Option RetrievalReason → Option EvidenceReason
retrieval_reason none = none
retrieval_reason (some r) = some (EvidenceReason.retrieval r)

abbrev pub evidence_reason :
    DeterministicHistoryRetrievalResult → List RetrievalCandidateEvidence → Option EvidenceReason
evidence_reason r candidates =
    if r.abstained then retrieval_reason r.abstention_reason else top_reason candidates

abbrev is_given {ℓ} : {A : Type ℓ} → Option A → Bool
is_given none = false
is_given (some a) = true

-- From the scored records on.
unfoldable pub evidence_of_scored :
    Hashing
    → String
    → String
    → List ScoredRecord
    → DeterministicHistoryRetrievalResult
    → DeterministicRetrievalEvidenceResult
evidence_of_scored h workspace target records r =
    let candidates =
      map (candidate_evidence h records r.bounds.minimum_score_basis_points) r.candidates in
    let reason = evidence_reason r candidates in
    let base : EvidenceResultBase = record {
      evidence_version = evidence_version;
      scorer_version = scorer_version;
      eligibility_version = eligibility_version;
      workspace_id = workspace;
      target_transaction_id = target;
      abstained = is_given reason;
      abstention_reason = reason;
      candidates = candidates;
    } in
    record { base = base; evidence_hash = h.hash_of base }
