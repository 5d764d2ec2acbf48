-- ===== src/Close/Created.antt =====
-- What a close that succeeds has written.
use finance.Prelude.{
  ◌+◌, ◌≡◌, refl, arith, true, ◌&&◌, Option, none, some, List, String, ltb, is_some, ◌↔◌,
  Option-cases, inl, inr, Result, ok, ◌>>=◌, map_err, seq-ok, bind-ok, map_err-ok, ok_injective,
  sym,
}
use finance.Prelude.Sums.{count, count-le}
use finance.Statement.{
  StatementTotals, AddsUp, totals_of, assert_statement_totals, AddsUp-of_assert_statement_totals,
  assert_statement_totals_of_AddsUp,
}
use finance.Database.{IsClient}
use finance.Close.{assert_can_close, PeriodCloseError}
use finance.Close.Tables.{PeriodClose, Tables}
use finance.Close.Create.{
  Env, CreatePeriodCloseInput, of_ledger, same_version, next_version, close_row, insert_close,
  stored, create_period_close,
}

abbrev pub latest_of : Env → Tables → String → Option PeriodClose
latest_of env db l = env.client.find_latest (λ c. c.version) (of_ledger l) db.period_closes

-- The row that is written.
abbrev pub new_row : Env → Tables → CreatePeriodCloseInput → PeriodClose
new_row env db input =
    close_row env input (totals_of input.totals) (next_version (latest_of env db input.ledger_id))

pub record IsCreated (env : Env) (db : Tables) (input : CreatePeriodCloseInput)
    (made : PeriodClose × Tables) : Type 0 where
  pub accepted : assert_can_close input.reconciliation_evidence ≡ ok tt
  pub adds_up : AddsUp input.totals
  pub rows : List PeriodClose
  pub rows_are :
      let row = new_row env db input in
      env.client.create (same_version row.ledger_id row.version) row db.period_closes ≡ some rows
  pub made_is : made ≡ (new_row env db input, record db { period_closes = rows })

stored-ok :
    (row : PeriodClose) (db : Tables) (o : Option (List PeriodClose)) {made : PeriodClose × Tables}
    → stored row db o ≡ ok made
    → (rows : List PeriodClose) × ((o ≡ some rows)
        × (made ≡ (row, record db { period_closes = rows })))
unfolding stored
stored-ok row db none h = absurd cc
stored-ok row db (some rows) h = (rows, (refl, sym (ok_injective h)))

pub create_period_close-IsCreated :
    (env : Env) (db : Tables) (input : CreatePeriodCloseInput) (made : PeriodClose × Tables)
    → create_period_close env db input ≡ ok made
    → IsCreated env db input made
unfolding create_period_close insert_close
create_period_close-IsCreated env db input made h =
    let version = next_version (latest_of env db input.ledger_id) in
    let insert : StatementTotals → Result PeriodCloseError (PeriodClose × Tables) =
      λ t. insert_close env (close_row env input t version) db in
    let totals = map_err PeriodCloseError.statement (assert_statement_totals input.totals) in
    let (accepted, h1) =
      seq-ok (assert_can_close input.reconciliation_evidence) (totals >>= insert) h in
    let (t, (checked, h2)) = bind-ok totals insert h1 in
    let (adds_up, is) =
      AddsUp-of_assert_statement_totals input.totals
        (map_err-ok PeriodCloseError.statement (assert_statement_totals input.totals) checked) in
    let (rows, (stored_rows, made_is)) = stored-ok (close_row env input t version) db _ h2 in
    record {
      accepted = accepted;
      adds_up = adds_up;
      rows = rows;
      rows_are = rw (← is) stored_rows;
      made_is = rw (← is) made_is;
    }

-- The version of a new close is one that no close of the ledger has.
version_is_new :
    (env : Env) (db : Tables) (l : String)
    → IsClient env.client
    → count (same_version l (next_version (latest_of env db l))) db.period_closes ≡ 0
unfolding next_version
version_is_new env db l lawful = elim (Option-cases (latest_of env db l)) [
  | inl e ↦
      let none_there = lawful.find_latest_none _ (of_ledger l) db.period_closes e in
      let fewer =
        count-le (same_version l 1) (of_ledger l) db.period_closes (λ x h. ground arith) in
      rw e (omega (arith, none_there, fewer))
  | inr (a, e) ↦
      let none_later = (lawful.find_latest_some _ (of_ledger l) db.period_closes a e).1 in
      let fewer =
        count-le (same_version l (a.version + 1)) (λ x. of_ledger l x && ltb a.version x.version)
          db.period_closes (λ x h. ground arith) in
      rw e (omega (arith, none_later, fewer))
]

stored_of_some :
    (row : PeriodClose) (db : Tables) (o : Option (List PeriodClose))
    → is_some o ≡ true
    → (made : PeriodClose × Tables) × (stored row db o ≡ ok made)
unfolding stored
stored_of_some row db none h = absurd (ground arith)
stored_of_some row db (some rows) h = ((row, record db { period_closes = rows }), refl)

module _ (env : Env) (db : Tables) (input : CreatePeriodCloseInput)
    (lawful : IsClient env.client) where
  -- Over a client that keeps its laws, `createPeriodClose` succeeds exactly when `assertCanClose`
  -- accepts the evidence and the totals add up: the version of the new close is always free.
  pub create_iff :
      ((made : PeriodClose × Tables) × (create_period_close env db input ≡ ok made))
      ↔ ((assert_can_close input.reconciliation_evidence ≡ ok tt) × AddsUp input.totals)
  unfolding create_period_close insert_close close_row
  create_iff = (
    λ (made, h).
        let c = create_period_close-IsCreated env db input made h in (c.accepted, c.adds_up),
    λ (accepted, adds_up).
        let row = new_row env db input in
        let conflict = same_version row.ledger_id row.version in
        let free =
          (lawful.create_conflict conflict row db.period_closes).1
            (version_is_new env db input.ledger_id lawful) in
        rw (accepted, assert_statement_totals_of_AddsUp input.totals adds_up)
          (stored_of_some row db _ free),
  )
