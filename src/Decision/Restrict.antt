-- ===== src/Decision/Restrict.antt =====
-- server/services/restrictedRetrievalCandidateService.ts, `buildRestrictedRetrievalCandidates`.
use finance.Prelude.{
  ℕ, suc, Bool, true, false, Option, none, some, List, [], ◌∷◌, ◌++◌, String, str_eq, if◌then◌else◌,
  sort_by, is_nil, is_some, Result, ok, err, ◌>>◌, require,
}
use finance.Decision.{
  Hashing, take, ascending, descending, text_le, Dimension, project, transaction_type, category,
}
use finance.Decision.Evidence.{RetrievalDimensionEvidence}
use finance.Decision.Explained.{
  DeterministicRetrievalEvidenceResult, RetrievalCandidateEvidence, EvidenceReason,
  evidence_version, scorer_version, eligibility_version,
}
use finance.Decision.Candidates.{
  RestrictedDimensionRecord, PartialBounds, RestrictedCandidateBounds, ExclusionReason, inactive,
  cross_workspace, missing, unsupported_by_evidence, Diagnostic, Ranked, Judged, admitted, excluded,
  candidate_version, normalize_bounds, candidate_ids, record_of, judge,
}

abbrev pub judged_ids :
    Hashing
    → String
    → RetrievalDimensionEvidence
    → List RestrictedDimensionRecord
    → List String
    → List (String × Judged)
judged_ids h workspace e records [] = []
judged_ids h workspace e records (id ∷ ids) =
    (id, judge h workspace e id (record_of id records)) ∷ judged_ids h workspace e records ids

abbrev pub admitted_of : List (String × Judged) → List Ranked
admitted_of [] = []
admitted_of ((id, admitted r) ∷ js) = r ∷ admitted_of js
admitted_of ((id, excluded reason) ∷ js) = admitted_of js

abbrev pub excluded_of : Dimension → List (String × Judged) → List Diagnostic
excluded_of d [] = []
excluded_of d ((id, admitted r) ∷ js) = excluded_of d js
excluded_of d ((id, excluded reason) ∷ js) =
    record { dimension = d; candidate_id = id; reason = reason } ∷ excluded_of d js

abbrev current_first : Bool → Bool → Bool → Bool
current_first true false rest = true
current_first false true rest = false
current_first _ _ rest = rest

abbrev pub ranked_le : Hashing → Ranked → Ranked → Bool
ranked_le h l r = current_first l.current r.current (
    descending l.score r.score (
      descending l.supporting r.supporting
        (ascending l.conflicting r.conflicting (text_le h l.candidate_id r.candidate_id))))

pub data ReasonCode : Type 0 where
  current_retrieved_value supported_alternative : ReasonCode
  active_workspace_match direction_compatible : ReasonCode

pub record CandidateBase : Type 0 where
  pub version : String
  pub dimension : Dimension
  pub candidate_id : String
  pub rank : ℕ
  pub active : Bool
  pub direction_compatible : Bool
  pub reason_codes : List ReasonCode
  pub supporting_evidence_count : ℕ
  pub conflicting_evidence_count : ℕ
  pub retrieval_hash : String
  pub evidence_hash : String
  pub provenance_hashes : List String

pub record RestrictedRetrievalCandidate : Type 0 where
  pub base : CandidateBase
  pub candidate_hash : String

abbrev pub reason_codes : Bool → List ReasonCode
reason_codes current =
    (if current then ReasonCode.current_retrieved_value else ReasonCode.supported_alternative)
    ∷ ReasonCode.active_workspace_match
    ∷ ReasonCode.direction_compatible
    ∷ []

abbrev pub candidate_of :
    Hashing → Dimension → String → String → ℕ → Ranked → RestrictedRetrievalCandidate
candidate_of h d retrieval_hash evidence_hash rank item =
    let base : CandidateBase = record {
      version = candidate_version;
      dimension = d;
      candidate_id = item.candidate_id;
      rank = rank;
      active = true;
      direction_compatible = true;
      reason_codes = reason_codes item.current;
      supporting_evidence_count = item.supporting;
      conflicting_evidence_count = item.conflicting;
      retrieval_hash = retrieval_hash;
      evidence_hash = evidence_hash;
      provenance_hashes = item.provenance;
    } in
    record { base = base; candidate_hash = h.hash_of base }

abbrev pub number_candidates :
    Hashing → Dimension → String → String → ℕ → List Ranked → List RestrictedRetrievalCandidate
number_candidates h d retrieval_hash evidence_hash rank [] = []
number_candidates h d retrieval_hash evidence_hash rank (r ∷ rs) =
    candidate_of h d retrieval_hash evidence_hash rank r
    ∷ number_candidates h d retrieval_hash evidence_hash (suc rank) rs

abbrev dimension_text : Dimension → String
dimension_text project = "PROJECT"
dimension_text transaction_type = "TRANSACTION_TYPE"
dimension_text category = "CATEGORY"

abbrev reason_text : ExclusionReason → String
reason_text inactive = "INACTIVE"
reason_text cross_workspace = "CROSS_WORKSPACE"
reason_text missing = "MISSING"
reason_text unsupported_by_evidence = "UNSUPPORTED_BY_EVIDENCE"

abbrev text_then : Hashing → String → String → Bool → Bool
text_then h a b rest = if text_le h a b then (if text_le h b a then rest else true) else false

abbrev pub diagnostic_le : Hashing → Diagnostic → Diagnostic → Bool
diagnostic_le h l r = text_then h (dimension_text l.dimension) (dimension_text r.dimension) (
    text_then h l.candidate_id r.candidate_id
      (text_le h (reason_text l.reason) (reason_text r.reason)))

pub record DimensionInput : Type 0 where
  pub workspace_id : String
  pub dimension : Dimension
  pub evidence : RetrievalDimensionEvidence
  pub records : List RestrictedDimensionRecord
  pub maximum_candidates : ℕ
  pub maximum_alternatives : ℕ
  pub retrieval_hash : String

unfoldable pub ranked_of : Hashing → DimensionInput → List Ranked
ranked_of h input = sort_by (ranked_le h) (
    admitted_of (
      judged_ids h input.workspace_id input.evidence input.records
        (candidate_ids input.evidence input.maximum_alternatives)))

-- `buildDimensionCandidates`
unfoldable pub build_dimension_candidates :
    Hashing → DimensionInput → List RestrictedRetrievalCandidate × List Diagnostic
build_dimension_candidates h input = (
  number_candidates h input.dimension input.retrieval_hash input.evidence.evidence_hash 1
      (take input.maximum_candidates (ranked_of h input)),
  sort_by (diagnostic_le h) (
      excluded_of input.dimension (
        judged_ids h input.workspace_id input.evidence input.records
          (candidate_ids input.evidence input.maximum_alternatives))),
)

pub data CandidateReason : Type 0 where
  material_conflict insufficient_evidence : CandidateReason
  no_valid_project no_valid_transaction_type no_valid_category : CandidateReason

pub record CandidateResultBase : Type 0 where
  pub candidate_version : String
  pub evidence_version : String
  pub scorer_version : String
  pub eligibility_version : String
  pub workspace_id : String
  pub target_transaction_id : String
  pub abstained : Bool
  pub abstention_reason : Option CandidateReason
  pub bounds : RestrictedCandidateBounds
  pub project_candidates : List RestrictedRetrievalCandidate
  pub transaction_type_candidates : List RestrictedRetrievalCandidate
  pub category_candidates : List RestrictedRetrievalCandidate
  pub diagnostics : List Diagnostic

pub record RestrictedRetrievalCandidateResult : Type 0 where
  pub base : CandidateResultBase
  pub candidate_set_hash : String

pub record CandidatesInput : Type 0 where
  pub workspace_id : String
  pub evidence : DeterministicRetrievalEvidenceResult
  pub project_records : List RestrictedDimensionRecord
  pub transaction_type_records : List RestrictedDimensionRecord
  pub category_records : List RestrictedDimensionRecord
  pub bounds : PartialBounds

pub data CandidateError : Type 0 where
  workspace_differs evidence_unsupported scorer_unsupported : CandidateError
  eligibility_unsupported no_candidate : CandidateError

abbrev conflict_or : Option EvidenceReason → CandidateReason
conflict_or (some EvidenceReason.material_conflict) = CandidateReason.material_conflict
conflict_or _ = CandidateReason.insufficient_evidence

abbrev pub result_of :
    Hashing
    → CandidatesInput
    → Option CandidateReason
    → List RestrictedRetrievalCandidate × List Diagnostic
    → List RestrictedRetrievalCandidate × List Diagnostic
    → List RestrictedRetrievalCandidate × List Diagnostic
    → RestrictedRetrievalCandidateResult
result_of h input reason p t c =
    let base : CandidateResultBase = record {
      candidate_version = candidate_version;
      evidence_version = evidence_version;
      scorer_version = scorer_version;
      eligibility_version = eligibility_version;
      workspace_id = input.workspace_id;
      target_transaction_id = input.evidence.base.target_transaction_id;
      abstained = is_some reason;
      abstention_reason = reason;
      bounds = normalize_bounds input.bounds;
      project_candidates = p.0;
      transaction_type_candidates = t.0;
      category_candidates = c.0;
      diagnostics = p.1 ++ t.1 ++ c.1;
    } in
    record { base = base; candidate_set_hash = h.hash_of base }

abbrev pub missing_reason :
    List RestrictedRetrievalCandidate
    → List RestrictedRetrievalCandidate
    → List RestrictedRetrievalCandidate
    → Option CandidateReason
missing_reason p t c =
    if is_nil p
    then some CandidateReason.no_valid_project
    else if is_nil t
    then some CandidateReason.no_valid_transaction_type
    else if is_nil c
    then some CandidateReason.no_valid_category
    else none

abbrev pub dimension_input :
    CandidatesInput
    → Dimension
    → RetrievalDimensionEvidence
    → List RestrictedDimensionRecord
    → ℕ
    → String
    → DimensionInput
dimension_input input d evidence records maximum retrieval_hash = record {
  workspace_id = input.workspace_id;
  dimension = d;
  evidence = evidence;
  records = records;
  maximum_candidates = maximum;
  maximum_alternatives = (normalize_bounds input.bounds).maximum_evidence_alternatives;
  retrieval_hash = retrieval_hash;
}

abbrev pub dimension_inputs :
    CandidatesInput
    → RetrievalCandidateEvidence
    → DimensionInput × (DimensionInput × DimensionInput)
dimension_inputs input top =
    let bounds = normalize_bounds input.bounds in
    let hash = top.base.candidate.retrieval_hash in
    (
      dimension_input input project top.base.dimensions.project input.project_records
          bounds.maximum_project_candidates hash,
      (
        dimension_input input transaction_type top.base.dimensions.transaction_type
            input.transaction_type_records bounds.maximum_transaction_type_candidates hash,
        dimension_input input category top.base.dimensions.category input.category_records
            bounds.maximum_category_candidates hash,
      ),
    )

-- From the first candidate on.
unfoldable pub restrict_top :
    Hashing
    → CandidatesInput
    → List RetrievalCandidateEvidence
    → Result CandidateError RestrictedRetrievalCandidateResult
restrict_top h input [] = err no_candidate
restrict_top h input (top ∷ others) =
    let (pi, (ti, ci)) = dimension_inputs input top in
    let p = build_dimension_candidates h pi in
    let t = build_dimension_candidates h ti in
    let c = build_dimension_candidates h ci in
    ok (result_of h input (missing_reason p.0 t.0 c.0) p t c)

-- Abstained evidence has no candidates.
unfoldable pub restrict_unless :
    Bool → Hashing → CandidatesInput → Result CandidateError RestrictedRetrievalCandidateResult
restrict_unless true h input =
    let reason = conflict_or input.evidence.base.abstention_reason in
    ok (result_of h input (some reason) ([], []) ([], []) ([], []))
restrict_unless false h input = restrict_top h input input.evidence.base.candidates

unfoldable pub build_restricted_retrieval_candidates :
    Hashing → CandidatesInput → Result CandidateError RestrictedRetrievalCandidateResult
build_restricted_retrieval_candidates h input = do
  let e = input.evidence.base
  require (str_eq e.workspace_id input.workspace_id) workspace_differs
  require (str_eq e.evidence_version evidence_version) evidence_unsupported
  require (str_eq e.scorer_version scorer_version) scorer_unsupported
  require (str_eq e.eligibility_version eligibility_version) eligibility_unsupported
  restrict_unless e.abstained h input
