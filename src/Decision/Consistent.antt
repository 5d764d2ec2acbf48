-- ===== src/Decision/Consistent.antt =====
-- When a decision is made.
use finance.Prelude.{
  ◌≡◌, ◌↔◌, refl, arith, Bool, true, ◌&&◌, Option, none, some, str_eq, str_eq_iff, String,
  is_truthy, Bool-cases, inl, inr, ok, require, seq-ok, require-ok, ok_injective,
}
use finance.Decision.{Hashing}
use finance.Decision.Explained.{evidence_version, scorer_version, eligibility_version}
use finance.Decision.Candidates.{candidate_version}
use finance.Decision.Choose.{DecisionError, DecisionInput}
use finance.Decision.Decide.{
  DeterministicDecisionResult, versions_known, expected_or_none, decision_of,
  build_deterministic_decision,
}

pub and_true : (a b : Bool) → (a && b) ≡ true → (a ≡ true) × (b ≡ true)
and_true a b h = (ground arith, ground arith)

-- A hash that is expected and not empty is the one that is there.
abbrev pub IsFresh : Option String → String → Type 0
IsFresh expected hash = (x : String) → expected ≡ some x → is_truthy x ≡ true → x ≡ hash

-- The versions that the three inputs carry.
pub record HasVersions (input : DecisionInput) : Type 0 where
  pub retrieval_scorer : input.retrieval.scorer_version ≡ scorer_version
  pub retrieval_eligibility : input.retrieval.eligibility_version ≡ eligibility_version
  pub evidence_own : input.evidence.base.evidence_version ≡ evidence_version
  pub evidence_scorer : input.evidence.base.scorer_version ≡ scorer_version
  pub evidence_eligibility : input.evidence.base.eligibility_version ≡ eligibility_version
  pub candidates_own : input.candidates.base.candidate_version ≡ candidate_version
  pub candidates_evidence : input.candidates.base.evidence_version ≡ evidence_version
  pub candidates_scorer : input.candidates.base.scorer_version ≡ scorer_version
  pub candidates_eligibility : input.candidates.base.eligibility_version ≡ eligibility_version

-- The inputs belong together: one workspace, one transaction, known versions, hashes that are given,
-- and those that are expected.
pub record AreConsistent (input : DecisionInput) : Type 0 where
  pub retrieval_workspace : input.retrieval.workspace_id ≡ input.workspace_id
  pub evidence_workspace : input.evidence.base.workspace_id ≡ input.workspace_id
  pub candidates_workspace : input.candidates.base.workspace_id ≡ input.workspace_id
  pub evidence_transaction :
      input.retrieval.target_transaction_id ≡ input.evidence.base.target_transaction_id
  pub candidates_transaction :
      input.retrieval.target_transaction_id ≡ input.candidates.base.target_transaction_id
  pub versions : HasVersions input
  pub retrieval_hash : is_truthy input.retrieval.retrieval_hash ≡ true
  pub evidence_hash : is_truthy input.evidence.evidence_hash ≡ true
  pub candidate_set_hash : is_truthy input.candidates.candidate_set_hash ≡ true
  pub retrieval_fresh : IsFresh input.expected_retrieval_hash input.retrieval.retrieval_hash
  pub evidence_fresh : IsFresh input.expected_evidence_hash input.evidence.evidence_hash
  pub candidates_fresh :
      IsFresh input.expected_candidate_set_hash input.candidates.candidate_set_hash

expected_or_none-IsFresh :
    (expected : Option String) (hash : String)
    → (expected_or_none expected hash ≡ true) ↔ IsFresh expected hash
expected_or_none-IsFresh none hash = (λ h x e t. absurd cc, λ k. refl)
expected_or_none-IsFresh (some y) hash = (
  λ h x e t.
      let same : y ≡ x = cc in
      let equal : str_eq x hash ≡ true = ground (arith, rw same at h) in
      (str_eq_iff x hash).0 equal,
  λ k. elim (Bool-cases (is_truthy y)) [
    | inl t ↦ rw (t, (str_eq_iff y hash).1 (k y refl t)) refl
    | inr t ↦ rw t refl
  ],
)

versions_known-HasVersions :
    (input : DecisionInput) → (versions_known input ≡ true) ↔ HasVersions input
versions_known-HasVersions input =
    let r = input.retrieval in
    let e = input.evidence.base in
    let c = input.candidates.base in
    (
      λ h.
          let (v1, h1) = and_true _ _ h in
          let (v2, h2) = and_true _ _ h1 in
          let (v3, h3) = and_true _ _ h2 in
          let (v4, h4) = and_true _ _ h3 in
          let (v5, h5) = and_true _ _ h4 in
          let (v6, h6) = and_true _ _ h5 in
          let (v7, h7) = and_true _ _ h6 in
          let (v8, v9) = and_true _ _ h7 in
          record {
            retrieval_scorer = (str_eq_iff _ _).0 v1;
            retrieval_eligibility = (str_eq_iff _ _).0 v2;
            evidence_own = (str_eq_iff _ _).0 v3;
            evidence_scorer = (str_eq_iff _ _).0 v4;
            evidence_eligibility = (str_eq_iff _ _).0 v5;
            candidates_own = (str_eq_iff _ _).0 v6;
            candidates_evidence = (str_eq_iff _ _).0 v7;
            candidates_scorer = (str_eq_iff _ _).0 v8;
            candidates_eligibility = (str_eq_iff _ _).0 v9;
          },
      λ k.
          rw
            (
              (str_eq_iff _ _).1 k.retrieval_scorer,
              (str_eq_iff _ _).1 k.retrieval_eligibility,
              (str_eq_iff _ _).1 k.evidence_own,
              (str_eq_iff _ _).1 k.evidence_scorer,
              (str_eq_iff _ _).1 k.evidence_eligibility,
              (str_eq_iff _ _).1 k.candidates_own,
              (str_eq_iff _ _).1 k.candidates_evidence,
              (str_eq_iff _ _).1 k.candidates_scorer,
              (str_eq_iff _ _).1 k.candidates_eligibility,
            )
            refl,
    )

module _ (h : Hashing) (input : DecisionInput) where
  pub decision-AreConsistent :
      (d : DeterministicDecisionResult)
      → build_deterministic_decision h input ≡ ok d
      → AreConsistent input × (decision_of h input ≡ d)
  unfolding build_deterministic_decision
  decision-AreConsistent d k =
      let r = input.retrieval in
      let e = input.evidence in
      let c = input.candidates in
      let (w, k1) =
        seq-ok
          (require
            (str_eq r.workspace_id input.workspace_id
              && (str_eq e.base.workspace_id input.workspace_id
                  && str_eq c.base.workspace_id input.workspace_id))
            DecisionError.workspace_mismatch)
          _ k in
      let (t, k2) =
        seq-ok
          (require
            (str_eq r.target_transaction_id e.base.target_transaction_id
              && str_eq r.target_transaction_id c.base.target_transaction_id)
            DecisionError.transaction_mismatch)
          _ k1 in
      let (v, k3) = seq-ok (require (versions_known input) DecisionError.version_mismatch) _ k2 in
      let (g, k4) =
        seq-ok
          (require
            (is_truthy e.evidence_hash
              && (is_truthy c.candidate_set_hash && is_truthy r.retrieval_hash))
            DecisionError.hashes_missing)
          _ k3 in
      let (x, k5) =
        seq-ok
          (require (expected_or_none input.expected_retrieval_hash r.retrieval_hash)
            DecisionError.stale_retrieval)
          _ k4 in
      let (y, k6) =
        seq-ok
          (require (expected_or_none input.expected_evidence_hash e.evidence_hash)
            DecisionError.stale_evidence)
          _ k5 in
      let (z, k7) =
        seq-ok
          (require (expected_or_none input.expected_candidate_set_hash c.candidate_set_hash)
            DecisionError.stale_candidates)
          _ k6 in
      let (w1, w2) = and_true _ _ (require-ok _ _ w) in
      let (w3, w4) = and_true _ _ w2 in
      let (t1, t2) = and_true _ _ (require-ok _ _ t) in
      let (g1, g2) = and_true _ _ (require-ok _ _ g) in
      let (g3, g4) = and_true _ _ g2 in
      (
        record {
          retrieval_workspace = (str_eq_iff _ _).0 w1;
          evidence_workspace = (str_eq_iff _ _).0 w3;
          candidates_workspace = (str_eq_iff _ _).0 w4;
          evidence_transaction = (str_eq_iff _ _).0 t1;
          candidates_transaction = (str_eq_iff _ _).0 t2;
          versions = (versions_known-HasVersions input).0 (require-ok _ _ v);
          retrieval_hash = g4;
          evidence_hash = g1;
          candidate_set_hash = g3;
          retrieval_fresh = (expected_or_none-IsFresh _ _).0 (require-ok _ _ x);
          evidence_fresh = (expected_or_none-IsFresh _ _).0 (require-ok _ _ y);
          candidates_fresh = (expected_or_none-IsFresh _ _).0 (require-ok _ _ z);
        },
        ok_injective k7,
      )

  -- A decision is made exactly when the three inputs are of the workspace and of one transaction, have
  -- the known versions and hashes that are not empty, and have the hashes that are expected, where one
  -- is expected; in every other case the call throws.
  pub decide_iff :
      ((d : DeterministicDecisionResult) × (build_deterministic_decision h input ≡ ok d))
      ↔ AreConsistent input
  unfolding build_deterministic_decision
  decide_iff = (
    λ (d, k). (decision-AreConsistent d k).0,
    λ a. (
      decision_of h input,
      rw
          (
            (str_eq_iff _ _).1 a.retrieval_workspace,
            (str_eq_iff _ _).1 a.evidence_workspace,
            (str_eq_iff _ _).1 a.candidates_workspace,
            (str_eq_iff _ _).1 a.evidence_transaction,
            (str_eq_iff _ _).1 a.candidates_transaction,
            (versions_known-HasVersions input).1 a.versions,
            a.retrieval_hash,
            a.evidence_hash,
            a.candidate_set_hash,
            (expected_or_none-IsFresh _ _).1 a.retrieval_fresh,
            (expected_or_none-IsFresh _ _).1 a.evidence_fresh,
            (expected_or_none-IsFresh _ _).1 a.candidates_fresh,
          )
          refl,
    ),
  )
