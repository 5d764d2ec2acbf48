-- ===== src/Decision/Evidence.antt =====
-- server/services/deterministicRetrievalEvidenceService.ts: what confirmed history says for and against
-- the value of a candidate.
use finance.Prelude.{
  ℕ, ◌+◌, ◌-◌, ◌*◌, ◌/◌, Bool, false, not, List, [], ◌∷◌, ◌++◌, map, String, str_eq, ltb, leb, ◌==◌,
  if◌then◌else◌, any, select, sort_by, length,
}
use finance.Decision.{Hashing, min, max, take, descending, text_le, Dimension}

pub record HistoryScoreComponents : Type 0 where
  pub exact_iban : ℕ
  pub exact_counterparty : ℕ
  pub exact_description : ℕ
  pub exact_purpose : ℕ
  pub token_similarity : ℕ
  pub token_similarity_contribution : ℕ
  pub same_account : ℕ
  pub exact_amount : ℕ
  pub recurring_month : ℕ
  pub recency : ℕ
  pub merchant_anchor : ℕ
  pub history_score : ℕ
  pub exact_iban_matched : Bool

-- A record of confirmed history with its score, by the fields that are read.
pub record ScoredRecord : Type 0 where
  pub transaction_id : String
  pub booking_id : String
  pub review_decision_id : String
  pub provenance_hash : String
  pub booking_evidence_hash : String
  pub decision_evidence_hash : String
  pub date : ℕ
  pub project_id : String
  pub transaction_type_id : String
  pub category_id : String
  pub components : HistoryScoreComponents

pub record RetrievalEvidenceReference : Type 0 where
  pub history_transaction_id : String
  pub booking_id : String
  pub review_decision_id : String
  pub provenance_hash : String
  pub booking_evidence_hash : String
  pub decision_evidence_hash : String
  pub score_basis_points : ℕ

-- The fields that an alternative's hash is taken of.
pub record AlternativeBase : Type 0 where
  pub value_id : String
  pub support_count : ℕ
  pub support_score_basis_points : ℕ
  pub strongest_evidence : List RetrievalEvidenceReference
  pub material : Bool

pub record RetrievalDimensionAlternative : Type 0 where
  pub base : AlternativeBase
  pub evidence_hash : String

pub data RetrievalEvidenceStatus : Type 0 where
  supported absent insufficient conflicted : RetrievalEvidenceStatus

pub data RetrievalEvidenceCode : Type 0 where
  exact_iban exact_counterparty exact_description exact_payment_purpose : RetrievalEvidenceCode
  token_similarity same_account exact_amount recurring_month : RetrievalEvidenceCode
  recency merchant_anchor frequency : RetrievalEvidenceCode

pub record DimensionBase : Type 0 where
  pub dimension : Dimension
  pub selected_value_id : String
  pub status : RetrievalEvidenceStatus
  pub support_count : ℕ
  pub support_score_basis_points : ℕ
  pub component_codes : List RetrievalEvidenceCode
  pub component_scores : HistoryScoreComponents
  pub frequency_basis_points : ℕ
  pub supporting_evidence : List RetrievalEvidenceReference
  pub conflicting_evidence : List RetrievalDimensionAlternative
  pub material_conflict : Bool

pub record RetrievalDimensionEvidence : Type 0 where
  pub base : DimensionBase
  pub evidence_hash : String

-- `MATERIAL_CONFLICT_SCORE_RATIO_PERCENT`
abbrev pub score_ratio_percent : ℕ
score_ratio_percent = 90

-- `MATERIAL_CONFLICT_MINIMUM_SCORE_BASIS_POINTS`
abbrev pub minimum_competing_score : ℕ
minimum_competing_score = 3000

abbrev pub evidence_reference : ScoredRecord → RetrievalEvidenceReference
evidence_reference item = record {
  history_transaction_id = item.transaction_id;
  booking_id = item.booking_id;
  review_decision_id = item.review_decision_id;
  provenance_hash = item.provenance_hash;
  booking_evidence_hash = item.booking_evidence_hash;
  decision_evidence_hash = item.decision_evidence_hash;
  score_basis_points = item.components.history_score;
}

-- `sortScored` does not put the second record before the first.
abbrev pub scored_le : Hashing → ScoredRecord → ScoredRecord → Bool
scored_le h l r =
    descending l.components.history_score r.components.history_score
      (descending l.date r.date (text_le h l.transaction_id r.transaction_id))

-- `Math.min(800, Math.max(0, count - 1) * 100)`
abbrev pub frequency_of : ℕ → ℕ
frequency_of n = min 800 ((n - 1) * 100)

abbrev pub strongest_score : List ScoredRecord → ℕ
strongest_score [] = 0
strongest_score (s ∷ ss) = s.components.history_score

unfoldable pub aggregate_score : Hashing → List ScoredRecord → ℕ
aggregate_score h [] = 0
aggregate_score h (s ∷ ss) =
    min 10000 (strongest_score (sort_by (scored_le h) (s ∷ ss)) + frequency_of (length (s ∷ ss)))

abbrev when_positive :
    ℕ → RetrievalEvidenceCode → List RetrievalEvidenceCode → List RetrievalEvidenceCode
when_positive n code codes = if ltb 0 n then code ∷ codes else codes

unfoldable pub component_codes : HistoryScoreComponents → ℕ → List RetrievalEvidenceCode
component_codes c n = when_positive c.exact_iban RetrievalEvidenceCode.exact_iban (
    when_positive c.exact_counterparty RetrievalEvidenceCode.exact_counterparty (
      when_positive c.exact_description RetrievalEvidenceCode.exact_description (
        when_positive c.exact_purpose RetrievalEvidenceCode.exact_payment_purpose (
          when_positive c.token_similarity_contribution RetrievalEvidenceCode.token_similarity (
            when_positive c.same_account RetrievalEvidenceCode.same_account (
              when_positive c.exact_amount RetrievalEvidenceCode.exact_amount (
                when_positive c.recurring_month RetrievalEvidenceCode.recurring_month (
                  when_positive c.recency RetrievalEvidenceCode.recency (
                    when_positive c.merchant_anchor RetrievalEvidenceCode.merchant_anchor
                      (when_positive n RetrievalEvidenceCode.frequency []))))))))))

abbrev pub Group : Type 0
Group = String × List ScoredRecord

-- `groups.set(value, [...(groups.get(value) ?? []), item])`; the map is in order of insertion.
abbrev pub add_scored : String → ScoredRecord → List Group → List Group
add_scored v s [] = (v, s ∷ []) ∷ []
add_scored v s ((k, ss) ∷ gs) =
    let rest = add_scored v s gs in if str_eq k v then (k, ss ++ s ∷ []) ∷ gs else (k, ss) ∷ rest

abbrev pub group_by : (ScoredRecord → String) → List Group → List ScoredRecord → List Group
group_by value gs [] = gs
group_by value gs (s ∷ ss) = group_by value (add_scored (value s) s gs) ss

-- `groups.get(value) ?? []`
abbrev pub group_of : String → List Group → List ScoredRecord
group_of v [] = []
group_of v ((k, ss) ∷ gs) = if str_eq k v then ss else group_of v gs

-- `Math.ceil((score * 90) / 100)`
abbrev pub ratio_score : ℕ → ℕ
ratio_score score = (score * score_ratio_percent + 99) / 100

abbrev pub is_material : ℕ → ℕ → Bool
is_material support_score score =
    leb (max minimum_competing_score (ratio_score support_score)) score

unfoldable pub alternative_of : Hashing → ℕ → Group → RetrievalDimensionAlternative
alternative_of h support_score (value_id, items) =
    let sorted = sort_by (scored_le h) items in
    let base : AlternativeBase = record {
      value_id = value_id;
      support_count = length sorted;
      support_score_basis_points = aggregate_score h sorted;
      strongest_evidence = map evidence_reference (take 5 sorted);
      material = is_material support_score (aggregate_score h sorted);
    } in
    record { base = base; evidence_hash = h.hash_of base }

abbrev pub alternative_le :
    Hashing → RetrievalDimensionAlternative → RetrievalDimensionAlternative → Bool
alternative_le h l r =
    descending l.base.support_score_basis_points r.base.support_score_basis_points (
      descending l.base.support_count r.base.support_count
        (text_le h l.base.value_id r.base.value_id))

abbrev pub support_status : ℕ → ℕ → ℕ → Bool → RetrievalEvidenceStatus
support_status support_count score minimum conflict =
    if support_count == 0
    then RetrievalEvidenceStatus.absent
    else if ltb score minimum
    then RetrievalEvidenceStatus.insufficient
    else if conflict
    then RetrievalEvidenceStatus.conflicted
    else RetrievalEvidenceStatus.supported

abbrev no_components : HistoryScoreComponents
no_components = record {
  exact_iban = 0;
  exact_counterparty = 0;
  exact_description = 0;
  exact_purpose = 0;
  token_similarity = 0;
  token_similarity_contribution = 0;
  same_account = 0;
  exact_amount = 0;
  recurring_month = 0;
  recency = 0;
  merchant_anchor = 0;
  history_score = 0;
  exact_iban_matched = false;
}

abbrev pub strongest_components : List ScoredRecord → HistoryScoreComponents
strongest_components [] = no_components
strongest_components (s ∷ ss) = s.components

abbrev pub alternatives : Hashing → String → ℕ → List Group → List RetrievalDimensionAlternative
alternatives h selected support_score groups =
    sort_by (alternative_le h)
      (map (alternative_of h support_score) (select (λ g. not (str_eq g.0 selected)) groups))

unfoldable pub dimension_base :
    Hashing → Dimension → (ScoredRecord → String) → String → List ScoredRecord → ℕ → DimensionBase
dimension_base h dimension value selected records minimum =
    let groups = group_by value [] records in
    let supporting = sort_by (scored_le h) (group_of selected groups) in
    let score = aggregate_score h supporting in
    let against = alternatives h selected score groups in
    let conflict = any (λ (a : RetrievalDimensionAlternative). a.base.material) against in
    record {
      dimension = dimension;
      selected_value_id = selected;
      status = support_status (length supporting) score minimum conflict;
      support_count = length supporting;
      support_score_basis_points = score;
      component_codes =
          component_codes (strongest_components supporting) (frequency_of (length supporting));
      component_scores = strongest_components supporting;
      frequency_basis_points = frequency_of (length supporting);
      supporting_evidence = map evidence_reference (take 5 supporting);
      conflicting_evidence = against;
      material_conflict = conflict;
    }

-- `dimensionEvidence`
unfoldable pub dimension_evidence :
    Hashing
    → Dimension
    → (ScoredRecord → String)
    → String
    → List ScoredRecord
    → ℕ
    → RetrievalDimensionEvidence
dimension_evidence h dimension value selected records minimum =
    let base = dimension_base h dimension value selected records minimum in
    record { base = base; evidence_hash = h.hash_of base }
