-- ===== src/Decision/Chosen.antt =====
-- Every result of the restriction is a choice in each dimension.
use finance.Prelude.{
  ℕ, suc, ◌≤◌, ◌≡◌, refl, arith, Bool, true, false, Option, none, some, List, [], ◌∷◌, String,
  str_eq, length, All, inl, inr, ok, require, seq-ok, ok_injective,
}
use finance.Prelude.Int.{ℤ, pos, negsuc}
use finance.Prelude.Sums.{count, count-sort_by}
use finance.Prelude.Throughout.{All-sort_by}
use finance.Decision.{Hashing, take, Dimension}
use finance.Decision.Evidence.{RetrievalDimensionEvidence}
use finance.Decision.Explained.{
  RetrievalCandidateEvidence, evidence_version, scorer_version, eligibility_version,
}
use finance.Decision.Candidates.{
  RestrictedDimensionRecord, Ranked, hard_maximum_candidates, clamp, normalize_bounds,
  candidate_ids, record_of, judge,
}
use finance.Decision.Restrict.{
  judged_ids, admitted_of, ranked_le, RestrictedRetrievalCandidate,
  RestrictedRetrievalCandidateResult, number_candidates, candidate_of, DimensionInput, ranked_of,
  build_dimension_candidates, CandidatesInput, CandidateError, dimension_inputs, restrict_top,
  restrict_unless, build_restricted_retrieval_candidates,
}
use finance.Decision.Few.{
  IsOpen, IsChoice, Ranks, called, length-take, count-take, All-take, count-first_only,
  Judged-cases, judge-admitted,
}

abbrev named : String → Ranked → Bool
named id r = str_eq r.candidate_id id

abbrev IsFit : String → List RestrictedDimensionRecord → Ranked → Type 0
IsFit workspace records r = IsOpen workspace records r.candidate_id × (1 ≤ r.supporting)

module _ (h : Hashing) (workspace : String) (e : RetrievalDimensionEvidence)
    (records : List RestrictedDimensionRecord) where
  admitted-IsFit :
      (ids : List String)
      → All (IsFit workspace records) (admitted_of (judged_ids h workspace e records ids))
  admitted-IsFit [] = tt
  admitted-IsFit (id ∷ ids) = elim (Judged-cases (judge h workspace e id (record_of id records))) [
    | inl (r, j) ↦
        let (entry, (found, (own, (active, (same, supported))))) =
          judge-admitted h workspace e id (record_of id records) r j in
        rw j (
          (
            record { entry = entry; recorded = rw same found; own = own; active = active },
            supported,
          ),
          admitted-IsFit ids,
        )
    | inr (x, j) ↦ rw j (admitted-IsFit ids)
  ]

  count-admitted :
      (id : String) (ids : List String)
      → count (named id) (admitted_of (judged_ids h workspace e records ids))
        ≤ count (λ s. str_eq s id) ids
  count-admitted id [] = omega arith
  count-admitted id (s ∷ ids) = elim (Judged-cases (judge h workspace e s (record_of s records))) [
    | inl (r, j) ↦
        let (entry, (found, (own, (active, (same, supported))))) =
          judge-admitted h workspace e s (record_of s records) r j in
        rw (j, same) (ground (arith, count-admitted id ids))
    | inr (x, j) ↦ rw j (ground (arith, count-admitted id ids))
  ]

module _ (h : Hashing) (d : Dimension) (retrieval_hash evidence_hash : String) where
  abbrev numbered : ℕ → List Ranked → List RestrictedRetrievalCandidate
  numbered = number_candidates h d retrieval_hash evidence_hash

  length-number : (n : ℕ) (rs : List Ranked) → length (numbered n rs) ≡ length rs
  length-number n [] = refl
  length-number n (r ∷ rs) = rw (length-number (suc n) rs) refl

  count-number :
      (id : String) (n : ℕ) (rs : List Ranked)
      → count (called id) (numbered n rs) ≡ count (named id) rs
  count-number id n [] = refl
  count-number id n (r ∷ rs) = rw (count-number id (suc n) rs) refl

  Ranks-number : (n : ℕ) (rs : List Ranked) → Ranks n (numbered n rs)
  Ranks-number n [] = tt
  Ranks-number n (r ∷ rs) = (refl, Ranks-number (suc n) rs)

  All-number :
      (P : RestrictedRetrievalCandidate → Type 0) (Q : Ranked → Type 0) (n : ℕ) (rs : List Ranked)
      → ((m : ℕ) (r : Ranked) → Q r → P (candidate_of h d retrieval_hash evidence_hash m r))
      → All Q rs
      → All P (numbered n rs)
  All-number P Q n [] f a = tt
  All-number P Q n (r ∷ rs) f (a, as') = (f n r a, All-number P Q (suc n) rs f as')

module _ (h : Hashing) (input : DimensionInput) where
  build-IsChoice :
      input.maximum_candidates ≤ hard_maximum_candidates
      → IsChoice input.workspace_id input.records (build_dimension_candidates h input).0
  unfolding build_dimension_candidates ranked_of candidate_ids
  build-IsChoice small =
      let e = input.evidence in
      let ids = candidate_ids e input.maximum_alternatives in
      let judged = admitted_of (judged_ids h input.workspace_id e input.records ids) in
      let rs = ranked_of h input in
      let n = input.maximum_candidates in
      let fit = All-take (IsFit input.workspace_id input.records) n rs (
        All-sort_by (IsFit input.workspace_id input.records) (ranked_le h) judged
          (admitted-IsFit h input.workspace_id e input.records ids)) in
      record {
        few =
            rw (length-number h input.dimension input.retrieval_hash e.evidence_hash 1 (take n rs))
              (omega (arith, length-take n rs, small));
        once = λ id.
            rw
              (count-number h input.dimension input.retrieval_hash e.evidence_hash id 1 (take n rs))
              (omega (
                arith,
                count-take (named id) n rs,
                count-sort_by (ranked_le h) (named id) judged,
                count-admitted h input.workspace_id e input.records id ids,
                count-first_only id [] _,
              ));
        open_all =
            All-number h input.dimension input.retrieval_hash e.evidence_hash
              (λ c. IsOpen input.workspace_id input.records c.base.candidate_id)
              (IsFit input.workspace_id input.records) 1 (take n rs) (λ m r f. f.0) fit;
        supported =
            All-number h input.dimension input.retrieval_hash e.evidence_hash
              (λ c. 1 ≤ c.base.supporting_evidence_count) (IsFit input.workspace_id input.records) 1
              (take n rs) (λ m r f. f.1) fit;
        ranked = Ranks-number h input.dimension input.retrieval_hash e.evidence_hash 1 (take n rs);
      }

none-IsChoice :
    (workspace : String) (records : List RestrictedDimensionRecord) → IsChoice workspace records []
none-IsChoice workspace records = record {
  few = omega arith;
  once = λ id. omega arith;
  open_all = tt;
  supported = tt;
  ranked = tt;
}

clamp-le : (o : Option ℤ) (fallback : ℕ) → fallback ≤ 10 → clamp o fallback 10 ≤ 10
clamp-le none fallback h = h
clamp-le (some (pos n)) fallback h = ground arith
clamp-le (some (negsuc n)) fallback h = omega arith

pub record IsRestricted (input : CandidatesInput) (r : RestrictedRetrievalCandidateResult)
    : Type 0 where
  pub project : IsChoice input.workspace_id input.project_records r.base.project_candidates
  pub transaction_type :
      IsChoice input.workspace_id input.transaction_type_records r.base.transaction_type_candidates
  pub category : IsChoice input.workspace_id input.category_records r.base.category_candidates

module _ (h : Hashing) (input : CandidatesInput) where
  top-IsRestricted :
      (cs : List RetrievalCandidateEvidence) (r : RestrictedRetrievalCandidateResult)
      → restrict_top h input cs ≡ ok r
      → IsRestricted input r
  unfolding restrict_top normalize_bounds
  top-IsRestricted [] r k = absurd cc
  top-IsRestricted (top ∷ others) r k =
      let (pi, (ti, ci)) = dimension_inputs input top in
      rw (← ok_injective k) (record {
        project =
            build-IsChoice h pi (clamp-le input.bounds.maximum_project_candidates 5 (omega arith));
        transaction_type =
            build-IsChoice h ti
              (clamp-le input.bounds.maximum_transaction_type_candidates 5 (omega arith));
        category =
            build-IsChoice h ci (clamp-le input.bounds.maximum_category_candidates 5 (omega arith));
      })

  unless-IsRestricted :
      (abstained : Bool) (r : RestrictedRetrievalCandidateResult)
      → restrict_unless abstained h input ≡ ok r
      → IsRestricted input r
  unfolding restrict_unless
  unless-IsRestricted true r k = rw (← ok_injective k) (record {
    project = none-IsChoice input.workspace_id input.project_records;
    transaction_type = none-IsChoice input.workspace_id input.transaction_type_records;
    category = none-IsChoice input.workspace_id input.category_records;
  })
  unless-IsRestricted false r k = top-IsRestricted input.evidence.base.candidates r k

  -- Whatever bounds are asked for, the candidates in each dimension are at most ten; no value is
  -- among them twice; each has a record of the workspace that is active, and at least one supporting
  -- record; and they are ranked from 1 on.
  pub build-IsRestricted :
      (r : RestrictedRetrievalCandidateResult)
      → build_restricted_retrieval_candidates h input ≡ ok r
      → IsRestricted input r
  unfolding build_restricted_retrieval_candidates
  build-IsRestricted r k =
      let e = input.evidence.base in
      let (a, k1) =
        seq-ok (require (str_eq e.workspace_id input.workspace_id) CandidateError.workspace_differs)
          _ k in
      let (b, k2) =
        seq-ok
          (require (str_eq e.evidence_version evidence_version) CandidateError.evidence_unsupported)
          _ k1 in
      let (c, k3) =
        seq-ok (require (str_eq e.scorer_version scorer_version) CandidateError.scorer_unsupported)
          _ k2 in
      let (d, k4) =
        seq-ok
          (require (str_eq e.eligibility_version eligibility_version)
            CandidateError.eligibility_unsupported)
          _ k3 in
      unless-IsRestricted e.abstained r k4
