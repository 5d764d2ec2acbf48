-- ===== src/Database.antt =====
-- The database client (Prisma), which the services get as `db: TxClient`. A table is the list of its
-- rows; what the client does with it is a parameter, with what its documentation says as laws. How
-- often a row occurs is counted, since a table has no order.
use finance.Prelude.{
  ℕ, suc, ◌≤◌, ◌≡◌, Bool, true, Option, none, some, List, ◌&&◌, ◌↔◌, ltb, if◌then◌else◌, is_some,
}
use finance.Prelude.Sums.{count}

-- A row is in a table: every test that it passes counts at least one row.
abbrev pub Occurs : {A : Type 0} → A → List A → Type 0
Occurs {A = A} a rows = (q : A → Bool) → q a ≡ true → 1 ≤ count q rows

pub record Client : Type 1 where
  -- `findFirst({ where })`
  pub find_first : {A : Type 0} → (A → Bool) → List A → Option A
  -- `findFirst({ where, orderBy: { key: 'desc' } })`
  pub find_latest : {A : Type 0} → (A → ℕ) → (A → Bool) → List A → Option A
  -- `findMany({ where })`
  pub find_many : {A : Type 0} → (A → Bool) → List A → List A
  -- `create({ data })`, which throws if a unique constraint is violated: the first argument says
  -- which rows are in conflict with the new one.
  pub create : {A : Type 0} → (A → Bool) → A → List A → Option (List A)
  -- `update({ where, data })`, which throws if there is no such row.
  pub update : {A : Type 0} → (A → Bool) → (A → A) → List A → Option (A × List A)
  -- `upsert({ where, create, update })`, where at most one row passes.
  pub upsert : {A : Type 0} → (A → Bool) → A → (A → A) → List A → A × List A
  -- `updateMany({ where, data })`
  pub update_many : {A : Type 0} → (A → Bool) → (A → A) → List A → List A

pub record IsClient (c : Client) : Type 1 where
  pub find_first_none :
      {A : Type 0} (p : A → Bool) (rows : List A) → c.find_first p rows ≡ none → count p rows ≡ 0
  pub find_first_some :
      {A : Type 0} (p : A → Bool) (rows : List A) (a : A)
      → c.find_first p rows ≡ some a
      → (p a ≡ true) × ((q : A → Bool) → q a ≡ true → 1 ≤ count q rows)
  pub find_latest_none :
      {A : Type 0} (key : A → ℕ) (p : A → Bool) (rows : List A)
      → c.find_latest key p rows ≡ none
      → count p rows ≡ 0
  -- No row that passes has a greater key.
  pub find_latest_some :
      {A : Type 0} (key : A → ℕ) (p : A → Bool) (rows : List A) (a : A)
      → c.find_latest key p rows ≡ some a
      → (p a ≡ true) × (count (λ x. p x && ltb (key a) (key x)) rows ≡ 0)
  pub find_many_rows :
      {A : Type 0} (p q : A → Bool) (rows : List A)
      → count q (c.find_many p rows) ≡ count (λ x. p x && q x) rows
  pub create_rows :
      {A : Type 0} (conflict : A → Bool) (a : A) (rows rows' : List A)
      → c.create conflict a rows ≡ some rows'
      → (q : A → Bool) → count q rows' ≡ (if q a then suc (count q rows) else count q rows)
  -- A row is refused exactly when another one is in conflict with it.
  pub create_conflict :
      {A : Type 0} (conflict : A → Bool) (a : A) (rows : List A)
      → (is_some (c.create conflict a rows) ≡ true) ↔ (count conflict rows ≡ 0)
  pub update_rows :
      {A : Type 0} (p : A → Bool) (f : A → A) (rows : List A) (a : A) (rows' : List A)
      → c.update p f rows ≡ some (a, rows')
      → (q : A → Bool) → count q rows' ≡ count (λ x. q (if p x then f x else x)) rows
  -- It throws only if there is no such row.
  pub update_none :
      {A : Type 0} (p : A → Bool) (f : A → A) (rows : List A)
      → c.update p f rows ≡ none
      → count p rows ≡ 0
  pub update_many_rows :
      {A : Type 0} (p : A → Bool) (f : A → A) (rows : List A) (q : A → Bool)
      → count q (c.update_many p f rows) ≡ count (λ x. q (if p x then f x else x)) rows
  pub upsert_new :
      {A : Type 0} (p : A → Bool) (a : A) (f : A → A) (rows : List A)
      → count p rows ≡ 0
      → ((c.upsert p a f rows).0 ≡ a)
        × ((q : A → Bool)
            → count q (c.upsert p a f rows).1 ≡ (if q a then suc (count q rows) else count q rows))
  -- The row that is returned is one that was there, updated.
  pub upsert_old :
      {A : Type 0} (p : A → Bool) (a : A) (f : A → A) (rows : List A)
      → 1 ≤ count p rows
      → (b : A) × ((p b ≡ true)
          × (((q : A → Bool) → q b ≡ true → 1 ≤ count q rows)
              × (((c.upsert p a f rows).0 ≡ f b)
                  × ((q : A → Bool)
                      → count q (c.upsert p a f rows).1
                        ≡ count (λ x. q (if p x then f x else x)) rows))))
