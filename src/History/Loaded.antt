-- ===== src/History/Loaded.antt =====
-- The confirmed history that is loaded: of the transactions that were asked for, and no more than the bound.
use finance.Prelude.{
  ℕ, ◌+◌, ◌≤◌, ◌≡◌, arith, Bool, ◌&&◌, Option, none, some, List, length, sort_by, ◌∙◌,
}
use finance.Prelude.Sums.{count, count-sort_by}
use finance.Database.{Client, IsClient}
use finance.Decision.{Hashing}
use finance.Decision.Few.{length-take, count-take}
use finance.History.{ConfirmedHistoryCandidate}
use finance.History.Confirmed.{EligibleConfirmedHistoryBooking, confirm}
use finance.History.Evaluate.{
  ConfirmedHistoryExclusion, ConfirmedHistoryEligibilityResult, older_first,
  LoadConfirmedHistoryInput, row_bound, wanted, bounded, load_confirmed_history_eligibility,
}
use finance.History.Parts.{taken, refused, evaluate-IsPartition}

-- The entry of a transaction that was asked for and is confirmed.
abbrev pub confirmed_entry :
    Hashing
    → LoadConfirmedHistoryInput
    → (EligibleConfirmedHistoryBooking → Bool)
    → ConfirmedHistoryCandidate
    → Bool
confirmed_entry h input q c = wanted input c && taken q (confirm h input.workspace_id c)

-- The exclusion of a transaction that was asked for and is not.
abbrev pub excluded_entry :
    Hashing
    → LoadConfirmedHistoryInput
    → (ConfirmedHistoryExclusion → Bool)
    → ConfirmedHistoryCandidate
    → Bool
excluded_entry h input q c = wanted input c && refused q c.id (confirm h input.workspace_id c)

pub record IsLoaded (h : Hashing) (rows : List ConfirmedHistoryCandidate)
    (input : LoadConfirmedHistoryInput) (r : ConfirmedHistoryEligibilityResult) : Type 0 where
  pub only_wanted :
      (q : EligibleConfirmedHistoryBooking → Bool)
      → count q r.eligible_history ≤ count (confirmed_entry h input q) rows
  pub only_others_excluded :
      (q : ConfirmedHistoryExclusion → Bool)
      → count q r.exclusions ≤ count (excluded_entry h input q) rows
  pub at_most :
      (n : ℕ)
      → input.maximum_rows ≡ some n
      → (length r.eligible_history + length r.exclusions ≤ row_bound n) × (row_bound n ≤ 1000)
  pub all_of_them :
      input.maximum_rows ≡ none
      → (q : EligibleConfirmedHistoryBooking → Bool)
      → count q r.eligible_history ≡ count (confirmed_entry h input q) rows

row_bound_le : (n : ℕ) → row_bound n ≤ 1000
row_bound_le n = ground arith

count-bounded :
    (h : Hashing) (limit : Option ℕ) (rows : List ConfirmedHistoryCandidate)
    (p : ConfirmedHistoryCandidate → Bool)
    → count p (bounded h limit rows) ≤ count p rows
count-bounded h none rows p = omega (arith, count-sort_by (older_first h) p rows)
count-bounded h (some n) rows p =
    let newest = λ (a b : ConfirmedHistoryCandidate). older_first h b a in
    omega (arith, count-take p (row_bound n) (sort_by newest rows), count-sort_by newest p rows)

module _ (h : Hashing) (client : Client) (lawful : IsClient client)
    (rows : List ConfirmedHistoryCandidate) (input : LoadConfirmedHistoryInput) where
  -- The history that is loaded has only the entries of transactions of the user that are booked in the
  -- workspace, lie between the dates and are confirmed, each at most as often as the transaction is
  -- there, and the exclusions are those of such transactions that are not confirmed. With a number of
  -- rows it covers at most that many transactions, the number being taken between 1 and 1000; without,
  -- it has the entries of all of these transactions.
  pub load-IsLoaded : IsLoaded h rows input (load_confirmed_history_eligibility h client rows input)
  unfolding load_confirmed_history_eligibility
  load-IsLoaded =
      let found = client.find_many (wanted input) rows in
      let chosen = bounded h input.maximum_rows found in
      let parts = evaluate-IsPartition h input.workspace_id chosen in
      let test = λ (q : EligibleConfirmedHistoryBooking → Bool) (c : ConfirmedHistoryCandidate).
        taken q (confirm h input.workspace_id c) in
      record {
        only_wanted = λ q. omega (
          arith,
          parts.entries_of_confirmed q,
          count-bounded h input.maximum_rows found (test q),
          lawful.find_many_rows (wanted input) (test q) rows,
        );
        only_others_excluded = λ q. omega (
          arith,
          parts.exclusions_of_others q,
          count-bounded h input.maximum_rows found
              (λ c. refused q c.id (confirm h input.workspace_id c)),
          lawful.find_many_rows (wanted input)
              (λ c. refused q c.id (confirm h input.workspace_id c)) rows,
        );
        at_most = λ n e.
            let newest = λ (a b : ConfirmedHistoryCandidate). older_first h b a in
            let fits : length chosen ≤ row_bound n =
              rw e (length-take (row_bound n) (sort_by newest found)) in
            (omega (arith, parts.nothing_lost, fits), row_bound_le n);
        all_of_them = λ e q.
            let same : count (test q) chosen ≡ count (test q) found =
              rw e (count-sort_by (older_first h) (test q) found) in
            parts.entries_of_confirmed q
            ∙ same
            ∙ lawful.find_many_rows (wanted input) (test q) rows;
      }
