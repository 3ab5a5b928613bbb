-- ===== src/Table/Memory.antt =====
-- A table in memory. It meets the laws, so the assumptions on the database can be met.
use sanmarino_crm.Base.{
  ℕ, suc, ◌+◌, ◌≤◌, ◌≡◌, refl, ap, ◌≢◌, ◌↔◌, Bool, true, Option, none, some, List, [], ◌∷◌, Text,
  text_eq, ◌==◌, first, any, change, select, total, All, if◌then◌else◌, arith, leb,
}
use sanmarino_crm.Table.{Table}

-- A number above every code unit of a text.
abbrev pub size : Text → ℕ
size [] = 0
size (c ∷ t) = c + size t

module _ {Row : Type 0} (key : Row → Text) where
  abbrev pub sizes : List Row → ℕ
  sizes [] = 0
  sizes (r ∷ rs) = size (key r) + sizes rs

  pub size-key : (n : ℕ) (rs : List Row) → sizes rs ≤ n → All (λ r. key r ≢ suc n ∷ []) rs
  size-key n [] h = tt
  size-key n (r ∷ rs) h = (λ e. absurd (omega (arith, ap size e)), size-key n rs (omega arith))

module _ {Row : Type 0} (column : Row → ℕ) where
  unfoldable pub insert : Row → List Row → List Row
  insert r [] = r ∷ []
  insert r (x ∷ xs) =
      let rest = insert r xs in if leb (column r) (column x) then r ∷ x ∷ xs else x ∷ rest

  unfoldable pub sort : List Row → List Row
  unfolding insert
  sort [] = []
  sort (x ∷ xs) = insert x (sort xs)

  total-insert :
      (q : Row → Bool) (g : Row → ℕ) (r : Row) (l : List Row)
      → total q g (insert r l) ≡ total q g (r ∷ l)
  unfolding insert total
  total-insert q g r [] = refl
  total-insert q g r (x ∷ xs) = ground (arith, total-insert q g r xs)

  pub total-sort : (q : Row → Bool) (g : Row → ℕ) (l : List Row) → total q g (sort l) ≡ total q g l
  unfolding sort total
  total-sort q g [] = refl
  total-sort q g (x ∷ xs) = omega (arith, total-insert q g x (sort xs), total-sort q g xs)

module _ {Row : Type 0} (key : Row → Text) (clash : Row → Row → Bool) where
  unfoldable pub add : Row → List Row → Option (List Row)
  add r rs = if any (clash r) rs then none else some (r ∷ rs)

  pub add-rows : (r : Row) (rs : List Row) {rs' : List Row} → add r rs ≡ some rs' → rs' ≡ r ∷ rs
  unfolding add
  add-rows r rs h = ground arith

  pub add-eq-none : (r : Row) (rs : List Row) → add r rs ≡ none ↔ (any (clash r) rs ≡ true)
  unfolding add
  add-eq-none r rs = (λ h. ground arith, λ h. ground arith)

  abbrev pub memory_table : Table Row key clash
  memory_table = record {
    Store = List Row;
    rows = λ rs. rs;
    find_first = first;
    find_many = select;
    find_many_by = λ p f rs. sort f (select p rs);
    sum = total;
    update = λ k f rs. change (λ r. key r == k) f rs;
    next_id = λ rs. suc (sizes key rs) ∷ [];
    create = add;
    find_first_lem = λ p s. refl;
    find_many_lem = λ p s. refl;
    find_many_by_lem = λ p f s q g. total-sort f q g (select p s);
    sum_lem = λ p f s. refl;
    update_lem = λ k f s. refl;
    next_id-fresh = λ s. size-key key (sizes key s) s (omega arith);
    create-rows = add-rows;
    create-eq-none = add-eq-none;
  }
