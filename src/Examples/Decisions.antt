-- ===== src/Examples/Decisions.antt =====
-- A transaction with two confirmed records, and the decision on it.
use finance.Prelude.{◌+◌, ◌≡◌, ◌↔◌, refl, true, false, none, some, List, [], ◌∷◌, ok}
use finance.Prelude.Int.{pos}
use finance.Decision.{Hashing, Dimension}
use finance.Decision.Evidence.{
  ScoredRecord, dimension_base, dimension_evidence, aggregate_score, component_codes,
  alternative_of,
}
use finance.Decision.Explained.{
  DeterministicHistoryRetrievalResult, candidate_evidence, evidence_of_scored,
}
use finance.Decision.Candidates.{
  RestrictedDimensionRecord, total_support, normalize_bounds, candidate_ids, provenance_of, counts,
  judge,
}
use finance.Decision.Restrict.{
  RestrictedRetrievalCandidateResult, CandidatesInput, ranked_of, build_dimension_candidates,
  restrict_top, restrict_unless, build_restricted_retrieval_candidates,
}
use finance.Decision.Choose.{DecisionInput, DecisionStatus, build_dimension}
use finance.Decision.Decide.{DeterministicDecisionResult, decision_of, build_deterministic_decision}
use finance.Decision.Accounts.{support_accounts}
use finance.Decision.Chosen.{IsRestricted, build-IsRestricted}
use finance.Decision.Consistent.{AreConsistent, decide_iff}
use finance.Decision.Decided.{IsSupported, proposed-IsSupported}

abbrev hashing : Hashing
hashing = record { hash_of = λ a. "h"; locale_compare = λ a b. pos 0 }

abbrev rent : ScoredRecord
rent = record {
  transaction_id = "t1";
  booking_id = "b1";
  review_decision_id = "d1";
  provenance_hash = "p1";
  booking_evidence_hash = "h1";
  decision_evidence_hash = "h1";
  date = 1704067200000;
  project_id = "house";
  transaction_type_id = "rent";
  category_id = "living";
  components = record {
    exact_iban = 3600;
    exact_counterparty = 2200;
    exact_description = 0;
    exact_purpose = 0;
    token_similarity = 0;
    token_similarity_contribution = 0;
    same_account = 500;
    exact_amount = 450;
    recurring_month = 0;
    recency = 300;
    merchant_anchor = 0;
    history_score = 7050;
    exact_iban_matched = true;
  };
}

-- A weaker record for another project.
abbrev other_rent : ScoredRecord
other_rent = record rent {
  transaction_id = "t2";
  booking_id = "b2";
  project_id = "shed";
  components = record rent.components { exact_iban = 0; history_score = 2000 };
}

abbrev records : List ScoredRecord
records = rent ∷ other_rent ∷ []

support_accounts_example :
    (dimension_base hashing Dimension.project
        (λ r. r.project_id)
        "house"
        records
        3000).support_count
      + total_support
          (dimension_base hashing Dimension.project
            (λ r. r.project_id)
            "house"
            records
            3000).conflicting_evidence
    ≡ 2
support_accounts_example =
    support_accounts hashing Dimension.project (λ r. r.project_id) "house" records 3000

abbrev retrieval : DeterministicHistoryRetrievalResult
retrieval = record {
  scorer_version = "deterministic-history-retrieval-v1";
  eligibility_version = "confirmed-history-v1";
  workspace_id = "w";
  target_transaction_id = "t";
  abstained = false;
  abstention_reason = none;
  bounds = record {
    maximum_history_rows = 500;
    maximum_candidates = 3;
    lookback_days = 1825;
    minimum_score_basis_points = 3000;
    eligible_history_rows_supplied = 2;
    eligible_history_rows_considered = 2;
    history_rows_truncated = false;
  };
  weights = record {
    exact_iban = 3600;
    exact_counterparty = 2200;
    exact_description = 1400;
    exact_purpose = 1000;
    token_similarity_maximum = 1400;
    same_account = 500;
    exact_amount = 450;
    recurring_month = 150;
    recency_maximum = 400;
    merchant_anchor_maximum = 1500;
    frequency_maximum = 800;
  };
  candidates =
      record {
        project_id = "house";
        transaction_type_id = "rent";
        category_id = "living";
        retrieval_hash = "c";
      }
      ∷ [];
  retrieval_hash = "r";
}

abbrev open_record : RestrictedDimensionRecord
open_record = record { id = "house"; workspace_id = "w"; is_active = true }

abbrev candidates_input : CandidatesInput
candidates_input = record {
  workspace_id = "w";
  evidence = evidence_of_scored hashing "w" "t" records retrieval;
  project_records = open_record ∷ record open_record { id = "shed" } ∷ [];
  transaction_type_records = record open_record { id = "rent" } ∷ [];
  category_records = record open_record { id = "living" } ∷ [];
  bounds = record {
    maximum_project_candidates = some (pos 100);
    maximum_transaction_type_candidates = none;
    maximum_category_candidates = none;
    maximum_evidence_alternatives = none;
  };
}

restricted :
    (r : RestrictedRetrievalCandidateResult) × (build_restricted_retrieval_candidates hashing
        candidates_input
      ≡ ok r)
unfolding build_restricted_retrieval_candidates restrict_unless restrict_top evidence_of_scored
    candidate_evidence dimension_evidence dimension_base alternative_of aggregate_score
restricted = (_, refl)

build-IsRestricted_example : IsRestricted candidates_input restricted.0
build-IsRestricted_example = build-IsRestricted hashing candidates_input restricted.0 restricted.1

abbrev decision_input : DecisionInput
decision_input = record {
  workspace_id = "w";
  transaction_fact_hash = none;
  retrieval = retrieval;
  evidence = candidates_input.evidence;
  candidates = restricted.0;
  expected_retrieval_hash = some "r";
  expected_evidence_hash = none;
  expected_candidate_set_hash = none;
}

decided :
    (d : DeterministicDecisionResult) × (build_deterministic_decision hashing decision_input ≡ ok d)
unfolding build_deterministic_decision restricted evidence_of_scored candidate_evidence
    dimension_evidence dimension_base alternative_of aggregate_score
decided = (_, refl)

decide_iff_example :
    ((d : DeterministicDecisionResult) × (build_deterministic_decision hashing decision_input
        ≡ ok d))
    ↔ AreConsistent decision_input
decide_iff_example = decide_iff hashing decision_input

decided-proposes : decided.0.base.status ≡ DecisionStatus.proposed
unfolding decided decision_of restricted evidence_of_scored candidate_evidence dimension_evidence
    dimension_base aggregate_score alternative_of component_codes normalize_bounds
    build_dimension_candidates ranked_of candidate_ids judge counts provenance_of build_dimension
decided-proposes = refl

proposed-IsSupported_example : IsSupported candidates_input decision_input decided.0
proposed-IsSupported_example =
    proposed-IsSupported hashing candidates_input decision_input decided.0 restricted.1 decided.1
      decided-proposes
