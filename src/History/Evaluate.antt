-- ===== src/History/Evaluate.antt =====
-- server/services/confirmedHistoryEligibilityService.ts, `evaluateConfirmedHistoryEligibility` and
-- `loadConfirmedHistoryEligibility`.
use finance.Prelude.{
  ℕ, Bool, true, false, ◌&&◌, Option, none, some, List, [], ◌∷◌, String, str_eq, leb, sort_by,
  Result, ok, err, if◌then◌else◌,
}
use finance.Prelude.Int.{pos, eqb_ℤ}
use finance.Calendar.{Date}
use finance.Database.{Client}
use finance.Decision.{Hashing, min, max, take, ascending, text_le}
use finance.History.{
  ConfirmedHistoryExclusionReason, exclusion_text, CurrentBooking, ConfirmedHistoryCandidate,
}
use finance.History.Confirmed.{
  EligibleConfirmedHistoryBooking, confirmed_history_eligibility_version, confirm,
}

pub record ConfirmedHistoryExclusion : Type 0 where
  pub transaction_id : String
  pub reason : ConfirmedHistoryExclusionReason

-- The field `sideEffects`, which is a constant, is left out.
pub record ConfirmedHistoryEligibilityResult : Type 0 where
  pub eligibility_version : String
  pub workspace_id : String
  pub eligible_history : List EligibleConfirmedHistoryBooking
  pub exclusions : List ConfirmedHistoryExclusion

-- What the loop has pushed.
pub record Pushed : Type 0 where
  pub eligible : List EligibleConfirmedHistoryBooking
  pub excluded : List ConfirmedHistoryExclusion

abbrev pub push_judged :
    String
    → Result ConfirmedHistoryExclusionReason EligibleConfirmedHistoryBooking
    → Pushed
    → Pushed
push_judged id (ok e) rest = record rest { eligible = e ∷ rest.eligible }
push_judged id (err reason) rest = record rest {
  excluded = record { transaction_id = id; reason = reason } ∷ rest.excluded;
}

-- What is pushed for the first candidate stands before what is pushed for the others.
abbrev pub eligibility_loop : Hashing → String → List ConfirmedHistoryCandidate → Pushed
eligibility_loop h workspace [] = record { eligible = []; excluded = [] }
eligibility_loop h workspace (c ∷ cs) =
    push_judged c.id (confirm h workspace c) (eligibility_loop h workspace cs)

abbrev pub older_first : Hashing → ConfirmedHistoryCandidate → ConfirmedHistoryCandidate → Bool
older_first h left right = ascending left.date right.date (text_le h left.id right.id)

-- `left.transactionId.localeCompare(right.transactionId) || left.reason.localeCompare(right.reason)`
abbrev pub exclusion_le : Hashing → ConfirmedHistoryExclusion → ConfirmedHistoryExclusion → Bool
exclusion_le h left right =
    if eqb_ℤ (h.locale_compare left.transaction_id right.transaction_id) (pos 0)
    then text_le h (exclusion_text left.reason) (exclusion_text right.reason)
    else text_le h left.transaction_id right.transaction_id

unfoldable pub evaluate_confirmed_history_eligibility :
    Hashing → String → List ConfirmedHistoryCandidate → ConfirmedHistoryEligibilityResult
evaluate_confirmed_history_eligibility h workspace candidates =
    let pushed = eligibility_loop h workspace (sort_by (older_first h) candidates) in
    record {
      eligibility_version = confirmed_history_eligibility_version;
      workspace_id = workspace;
      eligible_history = pushed.eligible;
      exclusions = sort_by (exclusion_le h) pushed.excluded;
    }

-- `maximumRows` is a natural number here.
pub record LoadConfirmedHistoryInput : Type 0 where
  pub workspace_id : String
  pub user_id : String
  pub maximum_rows : Option ℕ
  pub not_before : Option Date
  pub not_after : Option Date

-- `Math.max(1, Math.min(1000, rows))`
abbrev pub row_bound : ℕ → ℕ
row_bound rows = max 1 (min 1000 rows)

abbrev pub from_date : Option Date → Date → Bool
from_date none date = true
from_date (some first) date = leb first date

abbrev pub to_date : Option Date → Date → Bool
to_date none date = true
to_date (some last) date = leb date last

abbrev pub booked_in : String → Option CurrentBooking → Bool
booked_in workspace none = false
booked_in workspace (some b) = str_eq b.workspace_id workspace

-- `where`
abbrev pub wanted : LoadConfirmedHistoryInput → ConfirmedHistoryCandidate → Bool
wanted input c =
    str_eq c.user_id input.user_id
    && (booked_in input.workspace_id c.transaction_booking
        && (from_date input.not_before c.date && to_date input.not_after c.date))

-- `orderBy` and `take`: with a bound, the latest rows. The database orders identifiers by `text_le`.
abbrev pub bounded :
    Hashing → Option ℕ → List ConfirmedHistoryCandidate → List ConfirmedHistoryCandidate
bounded h none rows = sort_by (older_first h) rows
bounded h (some n) rows = take (row_bound n) (sort_by (λ a b. older_first h b a) rows)

unfoldable pub load_confirmed_history_eligibility :
    Hashing
    → Client
    → List ConfirmedHistoryCandidate
    → LoadConfirmedHistoryInput
    → ConfirmedHistoryEligibilityResult
load_confirmed_history_eligibility h client rows input =
    evaluate_confirmed_history_eligibility h input.workspace_id
      (bounded h input.maximum_rows (client.find_many (wanted input) rows))
