-- ===== src/History/Means.antt =====
-- What the tests of `evaluateConfirmedHistoryEligibility` mean.
use finance.Prelude.{
  ◌≡◌, ◌↔◌, refl, arith, true, false, not, Option, none, some, List, [], ◌∷◌, String, str_eq,
  str_eq_iff, All, any, Bool-cases, inl, inr, ap,
}
use finance.History.{
  ConfirmedHistoryDecision, CurrentBooking, SuggestionStatus, accepted, DecidedSuggestion,
  is_removal, is_acceptance, is_accepted,
}
use finance.History.Confirmed.{in_workspace, names, same_dimensions, accepts, suggestion_confirmed}

-- The booking and its dimensions are of the workspace, and so is every decision.
pub record IsOwn (workspace : String) (b : CurrentBooking) (ds : List ConfirmedHistoryDecision)
    : Type 0 where
  pub booking_own : b.workspace_id ≡ workspace
  pub project_own : b.project_workspace_id ≡ workspace
  pub type_own : b.type_workspace_id ≡ workspace
  pub category_own : b.category_workspace_id ≡ workspace
  pub decisions_own : All (λ d. d.workspace_id ≡ workspace) ds

-- The decision left this booking with these dimensions.
pub record IsKept (b : CurrentBooking) (d : ConfirmedHistoryDecision) : Type 0 where
  pub not_removed : is_removal d.action ≡ false
  pub booking_after : d.after_booking_id ≡ some b.id
  pub project_after : d.after_project_id ≡ some b.project_id
  pub type_after : d.after_type_id ≡ some b.transaction_type_id
  pub category_after : d.after_category_id ≡ some b.category_id

-- A suggestion that the decision accepts is there, of the workspace, and accepted.
pub record IsSettled (workspace : String) (d : ConfirmedHistoryDecision) : Type 0 where
  pub suggested :
      is_acceptance d.action ≡ true
      → (s : DecidedSuggestion) × ((d.suggestion ≡ some s)
          × ((s.workspace_id ≡ workspace) × (s.status ≡ accepted)))

All-own :
    (workspace : String) (ds : List ConfirmedHistoryDecision)
    → any (λ d. not (str_eq d.workspace_id workspace)) ds ≡ false
    → All (λ (d : ConfirmedHistoryDecision). d.workspace_id ≡ workspace) ds
All-own workspace [] h = tt
All-own workspace (d ∷ ds) h =
    let own : str_eq d.workspace_id workspace ≡ true = ground arith in
    ((str_eq_iff _ _).0 own, All-own workspace ds (ground (arith, own)))

none_foreign :
    (workspace : String) (ds : List ConfirmedHistoryDecision)
    → All (λ (d : ConfirmedHistoryDecision). d.workspace_id ≡ workspace) ds
    → any (λ d. not (str_eq d.workspace_id workspace)) ds ≡ false
none_foreign workspace [] h = refl
none_foreign workspace (d ∷ ds) (own, others) =
    rw ((str_eq_iff _ _).1 own, none_foreign workspace ds others) refl

pub IsOwn-iff :
    (workspace : String) (b : CurrentBooking) (ds : List ConfirmedHistoryDecision)
    → (in_workspace workspace b ds ≡ true) ↔ IsOwn workspace b ds
IsOwn-iff workspace b ds = (
  λ h.
      let b_own : str_eq b.workspace_id workspace ≡ true = ground arith in
      let p_own : str_eq b.project_workspace_id workspace ≡ true = ground arith in
      let t_own : str_eq b.type_workspace_id workspace ≡ true = ground arith in
      let c_own : str_eq b.category_workspace_id workspace ≡ true = ground arith in
      let no_other : any (λ d. not (str_eq d.workspace_id workspace)) ds ≡ false = ground arith in
      record {
        booking_own = (str_eq_iff _ _).0 b_own;
        project_own = (str_eq_iff _ _).0 p_own;
        type_own = (str_eq_iff _ _).0 t_own;
        category_own = (str_eq_iff _ _).0 c_own;
        decisions_own = All-own workspace ds no_other;
      },
  λ k.
      rw
        (
          (str_eq_iff _ _).1 k.booking_own,
          (str_eq_iff _ _).1 k.project_own,
          (str_eq_iff _ _).1 k.type_own,
          (str_eq_iff _ _).1 k.category_own,
          none_foreign workspace ds k.decisions_own,
        )
        refl,
)

names_iff : (o : Option String) (id : String) → (names o id ≡ true) ↔ (o ≡ some id)
names_iff none id = (λ h. absurd cc, λ h. absurd cc)
names_iff (some s) id =
    (λ h. ap some ((str_eq_iff s id).0 h), λ h. let same : s ≡ id = cc in (str_eq_iff s id).1 same)

pub IsKept-iff :
    (b : CurrentBooking) (d : ConfirmedHistoryDecision)
    → ((not (is_removal d.action) ≡ true)
        × ((names d.after_booking_id b.id ≡ true) × (same_dimensions d b ≡ true)))
      ↔ IsKept b d
IsKept-iff b d = (
  λ (kept, (same, matching)).
      let project : names d.after_project_id b.project_id ≡ true = ground arith in
      let type : names d.after_type_id b.transaction_type_id ≡ true = ground arith in
      let category : names d.after_category_id b.category_id ≡ true = ground arith in
      record {
        not_removed = ground arith;
        booking_after = (names_iff _ _).0 same;
        project_after = (names_iff _ _).0 project;
        type_after = (names_iff _ _).0 type;
        category_after = (names_iff _ _).0 category;
      },
  λ k. (
    rw k.not_removed refl,
    (
      (names_iff _ _).1 k.booking_after,
      rw
          (
            (names_iff _ _).1 k.project_after,
            (names_iff _ _).1 k.type_after,
            (names_iff _ _).1 k.category_after,
          )
          refl,
    ),
  ),
)

is_accepted_iff : (s : SuggestionStatus) → (is_accepted s ≡ true) ↔ (s ≡ accepted)
is_accepted_iff SuggestionStatus.pending = (λ h. absurd cc, λ h. absurd cc)
is_accepted_iff SuggestionStatus.accepted = (λ h. refl, λ h. refl)
is_accepted_iff SuggestionStatus.rejected = (λ h. absurd cc, λ h. absurd cc)
is_accepted_iff SuggestionStatus.expired = (λ h. absurd cc, λ h. absurd cc)

accepts_iff :
    (workspace : String) (o : Option DecidedSuggestion)
    → (accepts workspace o ≡ true) ↔ (
        (s : DecidedSuggestion) × ((o ≡ some s)
          × ((s.workspace_id ≡ workspace) × (s.status ≡ accepted))))
accepts_iff workspace none = (λ h. absurd cc, λ (s, (e, rest)). absurd cc)
accepts_iff workspace (some s) = (
  λ h.
      let own : str_eq s.workspace_id workspace ≡ true = ground arith in
      let done : is_accepted s.status ≡ true = ground arith in
      (s, (refl, ((str_eq_iff _ _).0 own, (is_accepted_iff s.status).0 done))),
  λ (r, (e, (own, done))).
      let same : s ≡ r = cc in
      rw (same, (str_eq_iff _ _).1 own, (is_accepted_iff r.status).1 done) refl,
)

pub IsSettled-iff :
    (workspace : String) (d : ConfirmedHistoryDecision)
    → (suggestion_confirmed workspace d ≡ true) ↔ IsSettled workspace d
IsSettled-iff workspace d = (
  λ h. record {
    suggested = λ is.
        let there : accepts workspace d.suggestion ≡ true = ground arith in
        (accepts_iff workspace d.suggestion).0 there;
  },
  λ k. elim (Bool-cases (is_acceptance d.action)) [
    | inl e ↦ rw (e, (accepts_iff workspace d.suggestion).1 (k.suggested e)) refl
    | inr e ↦ rw e refl
  ],
)
