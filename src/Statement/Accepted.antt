-- ===== src/Statement/Accepted.antt =====
-- What `acceptBankStatement` asks for, and what holds of the statements that are there.
use finance.Prelude.{
  suc, ◌≡◌, ◌↔◌, refl, arith, Bool, true, false, not, Option, none, some, is_some, List, [], ◌∷◌,
  map, String, str_eq, str_eq_iff, if◌then◌else◌, All, Option-cases, inl, inr, ok, require, seq-ok,
  bind-ok, require-ok, ok_injective, sym, ap, ◌∙◌,
}
use finance.Prelude.Int.{ℤ, pos, ltb_ℤ}
use finance.Prelude.Sums.{count}
use finance.Database.{IsClient}
use finance.Statement.{
  already_accepted, statement_refused, StatementTotals, AddsUp, totals_of, assert_statement_totals,
  assert_positive_row_count, assert_statement_totals_of_AddsUp, AddsUp-of_assert_statement_totals,
}
use finance.Statement.Sources.{SourceEnv}
use finance.Statement.Accept.{
  StatementPeriodInput, AcceptBankStatementInput, AcceptedPeriod, BankStatement,
  normalize_period_create, normalize_periods, statement_row, of_source, same_statement,
  periods_differ, rows_or, accept_bank_statement,
}

abbrev pub not_negative : ℤ → Bool
not_negative n = not (ltb_ℤ n (pos 0))

-- A period that can be accepted, and the row it becomes.
pub record IsPeriod (p : StatementPeriodInput) : Type 0 where
  pub counted : not_negative p.transaction_count ≡ true
  pub adds_up : AddsUp p.totals

abbrev pub period_of : String → StatementPeriodInput → AcceptedPeriod
period_of workspace p = record {
  workspace_id = workspace;
  account_id = p.account_id;
  period_start = p.period_start;
  period_end = p.period_end;
  coverage_status = p.coverage_status;
  totals = totals_of p.totals;
  transaction_count = p.transaction_count;
}

period-ok :
    (workspace : String) (p : StatementPeriodInput)
    → IsPeriod p
    → normalize_period_create workspace p ≡ ok (period_of workspace p)
unfolding normalize_period_create assert_positive_row_count
period-ok workspace p h = rw (h.counted, assert_statement_totals_of_AddsUp p.totals h.adds_up) refl

IsPeriod-of_ok :
    (workspace : String) (p : StatementPeriodInput) {a : AcceptedPeriod}
    → normalize_period_create workspace p ≡ ok a
    → IsPeriod p × (a ≡ period_of workspace p)
unfolding normalize_period_create assert_positive_row_count
IsPeriod-of_ok workspace p h =
    let (counted, h1) = seq-ok (assert_positive_row_count p.transaction_count) _ h in
    let (t, (summed, h2)) = bind-ok (assert_statement_totals p.totals) _ h1 in
    let (adds_up, is_t) = AddsUp-of_assert_statement_totals p.totals summed in
    (
      record { counted = require-ok _ _ counted; adds_up = adds_up },
      sym (ok_injective h2) ∙ ap (λ u. record (period_of workspace p) { totals = u }) is_t,
    )

pub periods-ok :
    (workspace : String) (ps : List StatementPeriodInput)
    → All IsPeriod ps
    → normalize_periods workspace ps ≡ ok (map (period_of workspace) ps)
unfolding normalize_periods
periods-ok workspace [] h = refl
periods-ok workspace (p ∷ ps) (h, hs) =
    rw (period-ok workspace p h, periods-ok workspace ps hs) refl

pub All-of_periods :
    (workspace : String) (ps : List StatementPeriodInput) {made : List AcceptedPeriod}
    → normalize_periods workspace ps ≡ ok made
    → All IsPeriod ps × (made ≡ map (period_of workspace) ps)
unfolding normalize_periods
All-of_periods workspace [] h = (tt, sym (ok_injective h))
All-of_periods workspace (p ∷ ps) h =
    let (a, (first, h1)) = bind-ok (normalize_period_create workspace p) _ h in
    let (rest, (others, h2)) = bind-ok (normalize_periods workspace ps) _ h1 in
    let (period, is_a) = IsPeriod-of_ok workspace p first in
    let (periods, is_rest) = All-of_periods workspace ps others in
    ((period, periods), sym (ok_injective h2) ∙ rw (is_a, is_rest) refl)

-- The row that is written.
abbrev pub accepted_row : SourceEnv → AcceptBankStatementInput → BankStatement
accepted_row env input =
    statement_row env input (totals_of input.totals)
      (map (period_of input.workspace_id) input.periods)

-- The guards of `acceptBankStatement` and the unique constraints of the table.
pub record MayAccept (env : SourceEnv) (rows : List BankStatement)
    (input : AcceptBankStatementInput) : Type 0 where
  pub counted : not_negative input.transaction_count ≡ true
  pub adds_up : AddsUp input.totals
  pub periods : All IsPeriod input.periods
  pub periods_distinct : periods_differ (map (period_of input.workspace_id) input.periods) ≡ true
  pub unique : count (same_statement (accepted_row env input)) rows ≡ 0

pub record IsAdded (env : SourceEnv) (rows : List BankStatement) (input : AcceptBankStatementInput)
    (out : BankStatement × List BankStatement) : Type 0 where
  pub may : MayAccept env rows input
  pub row_is : out.0 ≡ accepted_row env input
  pub rows_counted :
      (q : BankStatement → Bool)
      → count q out.1 ≡ (if q (accepted_row env input) then suc (count q rows) else count q rows)

rows_or-ok : {A : Type 0} (o : Option A) {a : A} → rows_or o ≡ ok a → o ≡ some a
rows_or-ok none h = absurd cc
rows_or-ok (some b) h = ap some (ok_injective h)

some_of_is_some : {A : Type 0} (o : Option A) → is_some o ≡ true → (a : A) × (o ≡ some a)
some_of_is_some none h = absurd (ground arith)
some_of_is_some (some a) h = (a, refl)

str_eq_refl : (s : String) → str_eq s s ≡ true
str_eq_refl s = (str_eq_iff s s).1 refl

module _ (env : SourceEnv) (lawful : IsClient env.client) (rows : List BankStatement)
    (input : AcceptBankStatementInput) where
  abbrev row : BankStatement
  row = accepted_row env input

  is_row :
      {t : StatementTotals} {periods : List AcceptedPeriod}
      → t ≡ totals_of input.totals
      → periods ≡ map (period_of input.workspace_id) input.periods
      → statement_row env input t periods ≡ row
  is_row t_is periods_are = rw (t_is, periods_are) refl

  pub accept-IsAdded :
      (out : BankStatement × List BankStatement)
      → accept_bank_statement env rows input ≡ ok out
      → IsAdded env rows input out
  unfolding accept_bank_statement assert_positive_row_count
  accept-IsAdded out h =
      let (counted, h1) = seq-ok (assert_positive_row_count input.transaction_count) _ h in
      let (t, (summed, h2)) = bind-ok (assert_statement_totals input.totals) _ h1 in
      let (none_yet, h3) =
        seq-ok
          (require (not (is_some (env.client.find_first (of_source input.source_file_id) rows)))
            already_accepted)
          _ h2 in
      let (periods, (made, h4)) =
        bind-ok (normalize_periods input.workspace_id input.periods) _ h3 in
      let made_row = statement_row env input t periods in
      let (differ, h5) = seq-ok (require (periods_differ periods) statement_refused) _ h4 in
      let (rows', (created, h6)) =
        bind-ok (rows_or (env.client.create (same_statement made_row) made_row rows)) _ h5 in
      let (adds_up, t_is) = AddsUp-of_assert_statement_totals input.totals summed in
      let (all_periods, periods_are) = All-of_periods input.workspace_id input.periods made in
      let same : made_row ≡ row = is_row t_is periods_are in
      let put = rows_or-ok _ created in
      let added : is_some (env.client.create (same_statement made_row) made_row rows) ≡ true =
        rw put refl in
      record {
        may = record {
          counted = require-ok _ _ counted;
          adds_up = adds_up;
          periods = all_periods;
          periods_distinct = ap periods_differ (sym periods_are) ∙ require-ok _ _ differ;
          unique = (lawful.create_conflict (same_statement made_row) made_row rows).0 added;
        };
        row_is =
            ap (λ (o : BankStatement × List BankStatement). o.0) (sym (ok_injective h6)) ∙ same;
        rows_counted = λ q.
            ap (λ (o : BankStatement × List BankStatement). count q o.1) (sym (ok_injective h6))
            ∙ lawful.create_rows (same_statement made_row) made_row rows rows' put q
            ∙ ap (λ r. if q r then suc (count q rows) else count q rows) same;
      }

  -- Where the rows that the input refers to are there, `acceptBankStatement` returns exactly when the
  -- number of rows is not negative, the totals add up, each period has such a number and such totals,
  -- no two periods are of one account for the same days, and no statement is there of the source file
  -- or of the account for the same days.
  pub accept_iff :
      ((out : BankStatement × List BankStatement) × (accept_bank_statement env rows input ≡ ok out))
      ↔ MayAccept env rows input
  unfolding accept_bank_statement assert_positive_row_count
  accept_iff = (
    λ (out, h). (accept-IsAdded out h).may,
    λ may.
        let (rows', created) =
          some_of_is_some _ ((lawful.create_conflict (same_statement row) row rows).1 may.unique) in
        let none_yet : is_some (env.client.find_first (of_source input.source_file_id) rows)
            ≡ false =
          elim (Option-cases (env.client.find_first (of_source input.source_file_id) rows)) [
            | inl e ↦ rw e refl
            | inr (s, e) ↦
                let (own, there) = lawful.find_first_some _ rows s e in
                let bad = there (same_statement row) (rw own refl) in
                absurd (omega (arith, bad, may.unique))
          ] in
        (
          (row, rows'),
          rw
              (
                may.counted,
                assert_statement_totals_of_AddsUp input.totals may.adds_up,
                none_yet,
                periods-ok input.workspace_id input.periods may.periods,
                may.periods_distinct,
                created,
              )
              refl,
        ),
  )
