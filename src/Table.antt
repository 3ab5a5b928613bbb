-- ===== src/Table.antt =====
-- A table of the database, as the Prisma client offers it. The database is not part of this
-- repository: its tables are a parameter of every command, with the documented meaning of the
-- client's calls as laws over the rows that a table holds.
pub mod Memory
pub mod Insert
use sanmarino_crm.Base.{
  ℕ, ◌≡◌, ◌≢◌, ◌↔◌, Bool, true, Option, none, some, List, ◌∷◌, Text, text_eq, ◌==◌, first, any,
  change, select, total, All,
}

-- `key` is the primary key, `clash` tells that a new row breaks a unique constraint with an old one.
pub record Table (Row : Type 0) (key : Row → Text) (clash : Row → Row → Bool) : Type 1 where
  pub Store : Type 0
  -- what an unfiltered `findMany` answers
  pub rows : Store → List Row
  -- `findFirst({ where })` and `findUnique({ where })`
  pub find_first : (Row → Bool) → Store → Option Row
  -- `findMany({ where })`
  pub find_many : (Row → Bool) → Store → List Row
  -- `findMany({ where, orderBy })`, ascending in a column
  pub find_many_by : (Row → Bool) → (Row → ℕ) → Store → List Row
  -- `count({ where })` and `aggregate({ where, _sum })`
  pub sum : (Row → Bool) → (Row → ℕ) → Store → ℕ
  -- `update({ where: { id }, data })`
  pub update : Text → (Row → Row) → Store → Store
  -- `@default(uuid())`: the identifier that the next row gets
  pub next_id : Store → Text
  -- `create({ data })`; `none` is the error P2002
  pub create : Row → Store → Option Store
  pub find_first_lem : (p : Row → Bool) (s : Store) → find_first p s ≡ first p (rows s)
  pub find_many_lem : (p : Row → Bool) (s : Store) → find_many p s ≡ select p (rows s)
  -- the rows of the unordered query, each as often: so says the sum of any column under any test
  pub find_many_by_lem :
      (p : Row → Bool) (f : Row → ℕ) (s : Store) (q : Row → Bool) (g : Row → ℕ)
      → total q g (find_many_by p f s) ≡ total q g (select p (rows s))
  pub sum_lem : (p : Row → Bool) (f : Row → ℕ) (s : Store) → sum p f s ≡ total p f (rows s)
  pub update_lem :
      (k : Text) (f : Row → Row) (s : Store)
      → rows (update k f s) ≡ change (λ r. key r == k) f (rows s)
  pub next_id-fresh : (s : Store) → All (λ r. key r ≢ next_id s) (rows s)
  pub create-rows : (r : Row) (s : Store) {s' : Store} → create r s ≡ some s' → rows s' ≡ r ∷ rows s
  pub create-eq-none : (r : Row) (s : Store) → create r s ≡ none ↔ (any (clash r) (rows s) ≡ true)
