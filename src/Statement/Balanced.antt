-- ===== src/Statement/Balanced.antt =====
-- The statements that are there add up and none of them counts twice.
use mathlib.Core.Path.{subst}
use finance.Prelude.{
  suc, ◌≤◌, ◌≡◌, refl, arith, Bool, true, not, ◌&&◌, List, [], ◌∷◌, map, String, str_eq, str_eq_iff,
  if◌then◌else◌, All, all, Bool-cases, inl, inr, ok,
}
use finance.Prelude.Int.{◌+ℤ◌, ◌-ℤ◌, eqb_ℤ, eqb_ℤ_iff}
use finance.Prelude.Sums.{count, count-le}
use finance.Database.{IsClient}
use finance.Statement.{StatementTotals, StatementTotalsInput, AddsUp, totals_of}
use finance.Statement.Sources.{SourceEnv}
use finance.Statement.Accept.{
  StatementPeriodInput, AcceptBankStatementInput, AcceptedPeriod, BankStatement, of_source,
  same_statement, accept_bank_statement,
}
use finance.Statement.Accepted.{
  not_negative, IsPeriod, period_of, accepted_row, MayAccept, IsAdded, accept-IsAdded,
}

-- The net is the income less the expense, and the opening balance plus the net the closing balance.
abbrev pub balances : StatementTotals → Bool
balances t =
    eqb_ℤ (t.opening_balance_minor +ℤ t.net_minor) t.closing_balance_minor
    && eqb_ℤ t.net_minor (t.income_minor -ℤ t.expense_minor)

abbrev pub period_balances : AcceptedPeriod → Bool
period_balances p = balances p.totals && not_negative p.transaction_count

abbrev pub statement_balances : BankStatement → Bool
statement_balances s =
    balances s.totals && (not_negative s.transaction_count && all period_balances s.periods)

-- No source file has two statements, and all add up.
pub record IsBalanced (rows : List BankStatement) : Type 0 where
  pub one_source : (id : String) → count (of_source id) rows ≤ 1
  pub balanced : count (λ s. not (statement_balances s)) rows ≡ 0

balances-totals_of : (t : StatementTotalsInput) → AddsUp t → balances (totals_of t) ≡ true
balances-totals_of t h =
    rw ((eqb_ℤ_iff _ _).1 h, (eqb_ℤ_iff (t.income_minor -ℤ t.expense_minor) _).1 refl) refl

periods_balance :
    (workspace : String) (ps : List StatementPeriodInput)
    → All IsPeriod ps
    → all period_balances (map (period_of workspace) ps) ≡ true
periods_balance workspace [] h = refl
periods_balance workspace (p ∷ ps) (h, hs) =
    rw (balances-totals_of p.totals h.adds_up, h.counted, periods_balance workspace ps hs) refl

module _ (env : SourceEnv) (lawful : IsClient env.client) (rows : List BankStatement)
    (input : AcceptBankStatementInput) where
  row_balances : MayAccept env rows input → statement_balances (accepted_row env input) ≡ true
  row_balances may =
      rw
        (
          balances-totals_of input.totals may.adds_up,
          may.counted,
          periods_balance input.workspace_id input.periods may.periods,
        )
        refl

  none_of_source : MayAccept env rows input → count (of_source input.source_file_id) rows ≡ 0
  none_of_source may =
      let fewer =
        count-le (of_source input.source_file_id) (same_statement (accepted_row env input)) rows
          (λ s h. rw h refl) in
      omega (arith, may.unique, fewer)

  one_source-added :
      (out : BankStatement × List BankStatement)
      → IsAdded env rows input out
      → IsBalanced rows
      → (id : String) → count (of_source id) out.1 ≤ 1
  one_source-added out added before id = elim (Bool-cases (str_eq input.source_file_id id)) [
    | inl e ↦
        let same : input.source_file_id ≡ id = (str_eq_iff _ _).0 e in
        let none_yet = subst (λ i. count (of_source i) rows ≡ 0) same (none_of_source added.may) in
        rw (added.rows_counted (of_source id), e, none_yet) (omega arith)
    | inr e ↦ rw (added.rows_counted (of_source id), e) (before.one_source id)
  ]

  -- A call of `acceptBankStatement` that returns, on statements of which no two are of one source
  -- file and all add up with their periods, adds one statement and leaves the others; then again no
  -- two are of one source file and all add up with their periods: the net is the income less the
  -- expense, the opening balance plus the net the closing balance, and no number of rows is negative.
  pub accept_bank_statement-IsBalanced :
      (out : BankStatement × List BankStatement)
      → IsBalanced rows
      → accept_bank_statement env rows input ≡ ok out
      → IsBalanced out.1
        × ((q : BankStatement → Bool)
            → count q out.1 ≡ (if q out.0 then suc (count q rows) else count q rows))
  accept_bank_statement-IsBalanced out before h =
      let added = accept-IsAdded env lawful rows input out h in
      (
        record {
          one_source = one_source-added out added before;
          balanced =
              rw (added.rows_counted (λ s. not (statement_balances s)), row_balances added.may)
                before.balanced;
        },
        λ q. rw added.row_is (added.rows_counted q),
      )
