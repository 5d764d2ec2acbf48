-- ===== src/History/Parts.antt =====
-- Every candidate is either in the confirmed history or excluded, once.
use finance.Prelude.{
  suc, ◌+◌, ◌≡◌, refl, arith, Bool, false, List, [], ◌∷◌, String, length, if◌then◌else◌, Result, ok,
  err, sort_by, ap, ◌∙◌,
}
use finance.Prelude.Sums.{count, count-sort_by, length-sort_by}
use finance.Decision.{Hashing}
use finance.History.{ConfirmedHistoryExclusionReason, ConfirmedHistoryCandidate}
use finance.History.Confirmed.{EligibleConfirmedHistoryBooking, confirm}
use finance.History.Evaluate.{
  ConfirmedHistoryExclusion, ConfirmedHistoryEligibilityResult, Pushed, push_judged,
  eligibility_loop, older_first, exclusion_le, evaluate_confirmed_history_eligibility,
}

-- Whether a candidate is taken, and its entry passes a test.
abbrev pub taken :
    (EligibleConfirmedHistoryBooking → Bool)
    → Result ConfirmedHistoryExclusionReason EligibleConfirmedHistoryBooking
    → Bool
taken q (ok e) = q e
taken q (err reason) = false

-- Whether a candidate is excluded, for a reason that passes a test.
abbrev pub refused :
    (ConfirmedHistoryExclusion → Bool)
    → String
    → Result ConfirmedHistoryExclusionReason EligibleConfirmedHistoryBooking
    → Bool
refused q id (ok e) = false
refused q id (err reason) = q (record { transaction_id = id; reason = reason })

-- The entries are those of the candidates that are confirmed, the exclusions those of the others,
-- and no candidate is lost.
pub record IsPartition (h : Hashing) (workspace : String)
    (candidates : List ConfirmedHistoryCandidate) (r : ConfirmedHistoryEligibilityResult)
    : Type 0 where
  pub entries_of_confirmed :
      (q : EligibleConfirmedHistoryBooking → Bool)
      → count q r.eligible_history ≡ count (λ c. taken q (confirm h workspace c)) candidates
  pub exclusions_of_others :
      (q : ConfirmedHistoryExclusion → Bool)
      → count q r.exclusions ≡ count (λ c. refused q c.id (confirm h workspace c)) candidates
  pub nothing_lost : length r.eligible_history + length r.exclusions ≡ length candidates

push-eligible :
    (q : EligibleConfirmedHistoryBooking → Bool) (id : String)
    (r : Result ConfirmedHistoryExclusionReason EligibleConfirmedHistoryBooking) (rest : Pushed)
    → count q (push_judged id r rest).eligible
      ≡ (if taken q r then suc (count q rest.eligible) else count q rest.eligible)
push-eligible q id (ok e) rest = refl
push-eligible q id (err reason) rest = refl

push-excluded :
    (q : ConfirmedHistoryExclusion → Bool) (id : String)
    (r : Result ConfirmedHistoryExclusionReason EligibleConfirmedHistoryBooking) (rest : Pushed)
    → count q (push_judged id r rest).excluded
      ≡ (if refused q id r then suc (count q rest.excluded) else count q rest.excluded)
push-excluded q id (ok e) rest = refl
push-excluded q id (err reason) rest = refl

push-length :
    (id : String) (r : Result ConfirmedHistoryExclusionReason EligibleConfirmedHistoryBooking)
    (rest : Pushed)
    → length (push_judged id r rest).eligible + length (push_judged id r rest).excluded
      ≡ suc (length rest.eligible + length rest.excluded)
push-length id (ok e) rest = omega arith
push-length id (err reason) rest = omega arith

module _ (h : Hashing) (workspace : String) where
  loop-eligible :
      (q : EligibleConfirmedHistoryBooking → Bool) (cs : List ConfirmedHistoryCandidate)
      → count q (eligibility_loop h workspace cs).eligible
        ≡ count (λ c. taken q (confirm h workspace c)) cs
  loop-eligible q [] = refl
  loop-eligible q (c ∷ cs) =
      push-eligible q c.id (confirm h workspace c) (eligibility_loop h workspace cs)
      ∙ ap (λ n. if taken q (confirm h workspace c) then suc n else n) (loop-eligible q cs)

  loop-excluded :
      (q : ConfirmedHistoryExclusion → Bool) (cs : List ConfirmedHistoryCandidate)
      → count q (eligibility_loop h workspace cs).excluded
        ≡ count (λ c. refused q c.id (confirm h workspace c)) cs
  loop-excluded q [] = refl
  loop-excluded q (c ∷ cs) =
      push-excluded q c.id (confirm h workspace c) (eligibility_loop h workspace cs)
      ∙ ap (λ n. if refused q c.id (confirm h workspace c) then suc n else n) (loop-excluded q cs)

  loop-length :
      (cs : List ConfirmedHistoryCandidate)
      → length (eligibility_loop h workspace cs).eligible
          + length (eligibility_loop h workspace cs).excluded
        ≡ length cs
  loop-length [] = refl
  loop-length (c ∷ cs) =
      push-length c.id (confirm h workspace c) (eligibility_loop h workspace cs)
      ∙ ap suc (loop-length cs)

  -- The evaluation takes each candidate once: the entries of the confirmed history are those of the
  -- candidates that are confirmed, the exclusions name the other candidates with their reasons, and
  -- together they are as many as the candidates.
  pub evaluate-IsPartition :
      (candidates : List ConfirmedHistoryCandidate)
      → IsPartition h workspace candidates
          (evaluate_confirmed_history_eligibility h workspace candidates)
  unfolding evaluate_confirmed_history_eligibility
  evaluate-IsPartition candidates =
      let sorted = sort_by (older_first h) candidates in
      record {
        entries_of_confirmed =
            λ q. loop-eligible q sorted ∙ count-sort_by (older_first h) _ candidates;
        exclusions_of_others = λ q.
            count-sort_by (exclusion_le h) q (eligibility_loop h workspace sorted).excluded
            ∙ loop-excluded q sorted
            ∙ count-sort_by (older_first h) _ candidates;
        nothing_lost = omega (
          arith,
          length-sort_by (exclusion_le h) (eligibility_loop h workspace sorted).excluded,
          loop-length sorted,
          length-sort_by (older_first h) candidates,
        );
      }
