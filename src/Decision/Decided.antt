-- ===== src/Decision/Decided.antt =====
-- What a decision that proposes a booking rests on.
use mathlib.Core.Path.{subst}
use finance.Prelude.{◌≡◌, refl, true, Option, none, some, Bool-cases, inl, inr, ok, ap, ◌∙◌}
use finance.Decision.{Hashing, Dimension}
use finance.Decision.Explained.{RetrievalCandidateEvidence}
use finance.Decision.Restrict.{CandidatesInput, build_restricted_retrieval_candidates}
use finance.Decision.Choose.{
  DecisionStatus, AbstentionReason, DecisionInput, upstream_reason, map_option,
}
use finance.Decision.Decide.{
  DeterministicDecisionResult, DecisionDimensions, top_of, dimensions_of, all_selected,
  final_reason, decision_status, decision_of, build_deterministic_decision,
}
use finance.Decision.Consistent.{and_true, decision-AreConsistent}
use finance.Decision.Chosen.{build-IsRestricted}
use finance.Decision.Proposed.{IsProposed, dimension-IsProposed}

proposed_reason :
    (r : Option AbstentionReason) → decision_status r ≡ DecisionStatus.proposed → r ≡ none
proposed_reason none h = refl
proposed_reason (some (AbstentionReason.retrieval x)) h = absurd cc
proposed_reason (some AbstentionReason.material_conflict) h = absurd cc
proposed_reason (some AbstentionReason.insufficient_evidence) h = absurd cc
proposed_reason (some AbstentionReason.no_valid_project) h = absurd cc
proposed_reason (some AbstentionReason.no_valid_transaction_type) h = absurd cc
proposed_reason (some AbstentionReason.no_valid_category) h = absurd cc
proposed_reason (some AbstentionReason.incomplete_decision) h = absurd cc

final-none :
    (r : Option AbstentionReason) (d : DecisionDimensions)
    → final_reason r d ≡ none
    → (r ≡ none) × (all_selected d ≡ true)
final-none (some r) d h = absurd cc
final-none none d h = elim (Bool-cases (all_selected d)) [
  | inl t ↦ (refl, t)
  | inr t ↦ absurd (reason_is_not_none (rw t at h))
]
  where
    reason_is_not_none : {r : AbstentionReason} → some r ≡ none → ⊥
    reason_is_not_none h = cc

-- What a proposed booking rests on, in each dimension.
pub record IsSupported (given : CandidatesInput) (input : DecisionInput)
    (d : DeterministicDecisionResult) : Type 0 where
  pub no_reason : upstream_reason input ≡ none
  pub project :
      IsProposed given.workspace_id given.project_records
        (map_option
          (λ (e : RetrievalCandidateEvidence). e.base.dimensions.project)
          (top_of input.evidence.base.candidates))
        d.base.dimensions.project
  pub transaction_type :
      IsProposed given.workspace_id given.transaction_type_records
        (map_option
          (λ (e : RetrievalCandidateEvidence). e.base.dimensions.transaction_type)
          (top_of input.evidence.base.candidates))
        d.base.dimensions.transaction_type
  pub category :
      IsProposed given.workspace_id given.category_records
        (map_option
          (λ (e : RetrievalCandidateEvidence). e.base.dimensions.category)
          (top_of input.evidence.base.candidates))
        d.base.dimensions.category

-- A decision on restricted candidates that proposes a booking has no reason to abstain, and in each of
-- project, type and category it has chosen the value that the first candidate's evidence selects; that
-- value has an active record of the workspace, and the evidence for it has no material conflict.
pub proposed-IsSupported :
    (h : Hashing) (given : CandidatesInput) (input : DecisionInput)
    (d : DeterministicDecisionResult)
    → build_restricted_retrieval_candidates h given ≡ ok input.candidates
    → build_deterministic_decision h input ≡ ok d
    → d.base.status ≡ DecisionStatus.proposed
    → IsSupported given input d
unfolding decision_of
proposed-IsSupported h given input d restricted decided status =
    let (consistent, is) = decision-AreConsistent h input d decided in
    let c = input.candidates in
    let top = top_of input.evidence.base.candidates in
    let dims = dimensions_of h input top in
    let own : decision_status (final_reason (upstream_reason input) dims)
        ≡ DecisionStatus.proposed =
      ap (λ x. x.base.status) is ∙ status in
    let (clear, all) = final-none (upstream_reason input) dims (proposed_reason _ own) in
    let (p, tc) = and_true _ _ all in
    let (t, k) = and_true _ _ tc in
    let choice = build-IsRestricted h given input.candidates restricted in
    subst (IsSupported given input) is (record {
      no_reason = clear;
      project =
          dimension-IsProposed h Dimension.project given.workspace_id given.project_records
            c.base.project_candidates choice.project.open_all c.candidate_set_hash
            (upstream_reason input)
            (map_option (λ (e : RetrievalCandidateEvidence). e.base.dimensions.project) top) p;
      transaction_type =
          dimension-IsProposed h Dimension.transaction_type given.workspace_id
            given.transaction_type_records c.base.transaction_type_candidates
            choice.transaction_type.open_all c.candidate_set_hash (upstream_reason input)
            (map_option (λ (e : RetrievalCandidateEvidence). e.base.dimensions.transaction_type)
              top)
            t;
      category =
          dimension-IsProposed h Dimension.category given.workspace_id given.category_records
            c.base.category_candidates choice.category.open_all c.candidate_set_hash
            (upstream_reason input)
            (map_option (λ (e : RetrievalCandidateEvidence). e.base.dimensions.category) top) k;
    })
