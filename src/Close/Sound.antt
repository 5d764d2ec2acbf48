-- ===== src/Close/Sound.antt =====
-- The state of the closes: no ledger has two open ones, and no version is given twice.
use finance.Prelude.{
  ℕ, suc, ◌≤◌, ◌≡◌, refl, arith, Bool, true, List, String, str_eq, ◌&&◌, str_eq_iff, if◌then◌else◌,
  ok, Bool-cases, inl, inr, sym,
}
use finance.Prelude.Sums.{count}
use finance.Database.{IsClient}
use finance.Close.Tables.{PeriodClose, Tables}
use finance.Close.Create.{Env, CreatePeriodCloseInput, same_version, close_row, create_period_close}
use finance.Close.Created.{create_period_close-IsCreated, new_row}
use finance.Close.Strict.{closed_of, is_closed}

-- The open closes of a ledger.
abbrev pub open_of : String → PeriodClose → Bool
open_of l c = str_eq c.ledger_id l && is_closed c.status

pub record IsSound (closes : List PeriodClose) : Type 0 where
  pub one_open : (l : String) → count (open_of l) closes ≤ 1
  pub one_version : (l : String) (v : ℕ) → count (same_version l v) closes ≤ 1

-- A row that passes a test which no row passed before is the only one that passes it.
one_after :
    (q : PeriodClose → Bool) (row : PeriodClose) (rows rows' : List PeriodClose)
    → count q rows' ≡ (if q row then suc (count q rows) else count q rows)
    → (q row ≡ true → count q rows ≡ 0)
    → count q rows ≤ 1
    → count q rows' ≤ 1
one_after q row rows rows' e z h = elim (Bool-cases (q row)) [
  | inl t ↦ ground (arith, z t)
  | inr t ↦ ground arith
]

same_version-own :
    (l : String) (v : ℕ) (c : PeriodClose)
    → same_version l v c ≡ true
    → (l ≡ c.ledger_id) × (v ≡ c.version)
same_version-own l v c h = (sym ((str_eq_iff c.ledger_id l).0 (ground arith)), ground arith)

open_of-own : (l : String) (c : PeriodClose) → open_of l c ≡ true → l ≡ c.ledger_id
open_of-own l c h = sym ((str_eq_iff c.ledger_id l).0 (ground arith))

module _ (env : Env) (lawful : IsClient env.client) (db : Tables) (input : CreatePeriodCloseInput)
    (made : PeriodClose × Tables) where
  -- A close of a ledger that has no open one keeps the state of the closes.
  pub create-IsSound :
      create_period_close env db input ≡ ok made
      → count (closed_of input.ledger_id) db.period_closes ≡ 0
      → IsSound db.period_closes
      → IsSound made.1.period_closes
  unfolding close_row
  create-IsSound h none_open sound =
      let c = create_period_close-IsCreated env db input made h in
      let row = new_row env db input in
      let conflict = same_version row.ledger_id row.version in
      let counted = lawful.create_rows conflict row db.period_closes c.rows c.rows_are in
      let free = (lawful.create_conflict conflict row db.period_closes).0 (rw c.rows_are refl) in
      rw c.made_is (record {
        one_open = λ l.
            one_after (open_of l) row db.period_closes c.rows (counted (open_of l))
              (λ t. rw (open_of-own l row t) none_open) (sound.one_open l);
        one_version = λ l v.
            one_after (same_version l v) row db.period_closes c.rows (counted (same_version l v))
              (λ t. let (a, b) = same_version-own l v row t in rw (a, b) free)
              (sound.one_version l v);
      })
