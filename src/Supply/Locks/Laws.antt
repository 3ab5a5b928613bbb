-- ===== src/Supply/Locks/Laws.antt =====
-- How long a stock lock lives (`createStockLock`, `releaseStockLock`).
use sanmarino_crm.Base.{
  ℕ, ◌+◌, ◌*◌, ◌≤◌, ◌<◌, ◌≡◌, refl, ◌∙◌, ap, Bool, true, false, not, not-false, ◌||◌, Option, none,
  some, Text, text_eq, ◌==◌, ltb, first, change, ==-refl, arith, Bool-cases, inl, inr,
}
use sanmarino_crm.Records.{Actor, StockLock}
use sanmarino_crm.Status.{StockLockStatus, stock_lock_status_eq}
use sanmarino_crm.Errors.{Exception, conflict_exception, transition_not_allowed}
use sanmarino_crm.Action.{Result, ok, err, pure, gets, or_throw, throw_if}
use sanmarino_crm.Action.Ensures.{
  Ensures, Ensures-pure, Ensures-bind, Ensures-throw_if, Ensures-gets, Ensures-or_throw,
  Ensures-from_result, Ensures_of_state, Ensures-elim, bind-ok, bind-err,
}
use sanmarino_crm.Action.Succeeds.{
  Succeeds, Succeeds-throw_if, Succeeds-gets, Succeeds-or_throw, Succeeds-modify, Succeeds-pure,
}
use sanmarino_crm.Database.{Database, Db}
use sanmarino_crm.Table.Insert.{Ensures-create_in}
use sanmarino_crm.Supply.{has_role}
use sanmarino_crm.Supply.Locks.{
  CreateStockLock, resolve_stock_lock_ttl_minutes, apply_stock_lock_status_baseline,
  build_expires_at_from_now, new_stock_lock, create_lock_row, create_stock_lock, find_stock_lock,
  release_stock_lock, stock_lock_create_role_codes, stock_lock_release_role_codes, released_lock,
}

abbrev minutes_of : Result ℕ → ℕ
minutes_of (ok n) = n
minutes_of (err e) = 0

ttl_bounds :
    (minutes : Option (Option ℕ)) (n : ℕ)
    → resolve_stock_lock_ttl_minutes minutes ≡ ok n
    → (5 ≤ n) × (n ≤ 10)
unfolding resolve_stock_lock_ttl_minutes
ttl_bounds none n e = let same : 10 ≡ n = ap minutes_of e in omega (arith, same)
ttl_bounds (some none) n e = absurd (cc e)
ttl_bounds (some (some m)) n e = elim (Bool-cases (ltb m 5 || ltb 10 m)) [
  | inl t ↦ absurd (cc (rw t at e))
  | inr f ↦ let same : m ≡ n = ap minutes_of (rw f at e) in ground (arith, f, same)
]

-- A lock is read as active just until it runs out.
read_late :
    (lock : StockLock) (now : ℕ)
    → lock.expires_at ≤ now
    → not ((apply_stock_lock_status_baseline lock now).status == StockLockStatus.active) ≡ true
unfolding stock_lock_status_eq
read_late lock now h = elim (Bool-cases (lock.status == StockLockStatus.active)) [
  | inl t ↦ let late : ltb now lock.expires_at ≡ false = ground (arith, h) in rw (t, late) refl
  | inr n ↦ rw (n) (rw n refl)
]

read_early :
    (lock : StockLock) (now : ℕ)
    → lock.status ≡ StockLockStatus.active
    → now < lock.expires_at
    → not ((apply_stock_lock_status_baseline lock now).status == StockLockStatus.active) ≡ false
unfolding stock_lock_status_eq
read_early lock now active h =
    let early : ltb now lock.expires_at ≡ true = ground (arith, h) in rw (early, active) refl

module _ {S : Type 0} where
  passes : {b : Bool} (e : Exception) (s : S) → b ≡ false → throw_if b e s ≡ (ok tt, s)
  unfolding throw_if
  passes e s h = rw h refl

  stops : {b : Bool} (e : Exception) (s : S) → b ≡ true → throw_if b e s ≡ (err e, s)
  unfolding throw_if
  stops e s h = rw h refl

module _ {S A : Type 0} where
  read : (f : S → A) (s : S) → gets f s ≡ (ok (f s), s)
  unfolding gets
  read f s = refl

  got : {o : Option A} (e : Exception) (s : S) {a : A} → o ≡ some a → or_throw o e s ≡ (ok a, s)
  unfolding or_throw pure
  got e s h = rw h refl

module _ (D : Database) where
  -- A lock that has been made at `now`: it runs for five to ten minutes, and the next query by its
  -- identifier finds its row, active.
  pub record LockMade (now : ℕ) (lock : StockLock) (t : Db D) : Type 0 where
    pub row : StockLock
    pub found : find_stock_lock D lock.id t ≡ some row
    pub is_active : row.status ≡ StockLockStatus.active
    pub shortest : now + 5 * 60 * 1000 ≤ row.expires_at
    pub longest : row.expires_at ≤ now + 10 * 60 * 1000

  create_lock_row-found :
      (lock : StockLock) (db : Db D)
      → Ensures db (create_lock_row D lock) (λ _ t. find_stock_lock D lock.id t ≡ some lock)
  unfolding create_lock_row first
  create_lock_row-found lock db = record {
    at =
        (Ensures-create_in D.stock_locks (λ (x : Db D). x.stock_locks)
          (λ t x. record x { stock_locks = t }) lock db
          (λ _ t. find_stock_lock D lock.id t ≡ some lock)
          (λ t e.
            D.stock_locks.find_first_lem (λ l. l.id == lock.id) t
            ∙ rw (e, ==-refl lock.id) refl)).at;
  }

  baseline_id :
      (lock : StockLock) (later : ℕ) → (apply_stock_lock_status_baseline lock later).id ≡ lock.id
  baseline_id lock later = elim (Bool-cases (lock.status == StockLockStatus.active)) [
    | inl t ↦ ground (arith, t)
    | inr n ↦ ground (arith, n)
  ]

  -- When a stock lock is made, the caller is a seller, and its row is active and runs out five to
  -- ten minutes later.
  pub create_stock_lock-LockMade :
      (input : CreateStockLock) (actor : Actor) (now later : ℕ) (db : Db D)
      → Ensures db
          (create_stock_lock D input actor now later)
          (λ lock t. (has_role stock_lock_create_role_codes actor ≡ true) × LockMade now lock t)
  unfolding create_stock_lock
  create_stock_lock-LockMade input actor now later db = Ensures-throw_if _ _ _ λ access.
      Ensures-bind {R = λ _ _. Unit {0}} (Ensures_of_state _ _ (λ _. Unit {0}) tt) λ _ db1 _.
        Ensures-bind {R = λ _ _. Unit {0}} (Ensures_of_state _ _ (λ _. Unit {0}) tt) λ _ db2 _.
          Ensures-gets _ _ (
            Ensures-or_throw _ _ _ λ deal _. Ensures-from_result _ _ λ minutes e. Ensures-gets _ _ (
              let lock = new_stock_lock D input actor (build_expires_at_from_now minutes now) db2 in
              Ensures-bind (create_lock_row-found lock db2) λ _ t found. Ensures-pure _ (
                not-false _ access,
                record {
                  row = lock;
                  found = rw (baseline_id lock later) found;
                  is_active = refl;
                  shortest = omega (arith, ttl_bounds input.ttl_minutes minutes e);
                  longest = omega (arith, ttl_bounds input.ttl_minutes minutes e);
                },
              )))

  -- A lock that is still active is released, and its row alone.
  release_living :
      (id : Text) (row : StockLock) (actor : Actor) (now at : ℕ) (t : Db D)
      → has_role stock_lock_release_role_codes actor ≡ true
      → find_stock_lock D id t ≡ some row
      → row.status ≡ StockLockStatus.active
      → now < row.expires_at
      → Succeeds t (release_stock_lock D id actor now at) (λ answer t'.
        (answer ≡ released_lock at row)
        × (t'
            ≡ record t { stock_locks = D.stock_locks.update id (released_lock at) t.stock_locks }))
  unfolding release_stock_lock stock_lock_status_eq
  release_living id row actor now at t access found active early =
      Succeeds-throw_if _ _ (rw access refl) (
        Succeeds-gets _ _ (
          Succeeds-or_throw _ _ found (
            Succeeds-throw_if _ _ (read_early row now active early)
              (Succeeds-modify _ _ (Succeeds-pure _ (refl, refl))))))

  module _ (input : CreateStockLock) (maker actor : Actor) (now later : ℕ) (db : Db D)
      {lock : StockLock} {t : Db D}
      (made : create_stock_lock D input maker now later db ≡ (ok lock, t))
      (access : has_role stock_lock_release_role_codes actor ≡ true) (asked at : ℕ) where
    -- A stock lock that has been made is not released ten minutes later or at any time after: the
    -- release that a seller asks for is refused as a transition that is not allowed, and nothing is
    -- written.
    pub lock_runs_out :
        now + 10 * 60 * 1000 ≤ asked
        → release_stock_lock D lock.id actor asked at t
          ≡ (err (conflict_exception transition_not_allowed), t)
    unfolding release_stock_lock
    lock_runs_out late =
        let m = (Ensures-elim (create_stock_lock-LockMade input maker now later db) made).1 in
        bind-ok (throw_if _ _) _ (passes _ t (rw access refl))
        ∙ bind-ok (gets (find_stock_lock D lock.id)) _ (read _ t)
        ∙ bind-ok (or_throw _ _) _ (got _ t m.found)
        ∙ bind-err (throw_if _ _) _
            (stops _ t (read_late m.row asked (omega (arith, m.longest, late))))

    -- A stock lock that has been made is released when a seller asks for it less than five minutes
    -- later: the answer has its identifier and the status released.
    pub lock_is_released :
        asked < now + 5 * 60 * 1000
        → Succeeds t (release_stock_lock D lock.id actor asked at) (λ answer t'.
          (answer.status ≡ StockLockStatus.released)
          × (D.stock_locks.rows t'.stock_locks
              ≡ change
                  (λ l. l.id == lock.id)
                  (released_lock at)
                  (D.stock_locks.rows t.stock_locks)))
    lock_is_released early =
        let m = (Ensures-elim (create_stock_lock-LockMade input maker now later db) made).1 in
        let h =
          release_living lock.id m.row actor asked at t access m.found m.is_active
            (omega (arith, m.shortest, early)) in
        record {
          value = h.value;
          after = h.after;
          run = h.run;
          holds = (
            ap (λ (l : StockLock). l.status) h.holds.0,
            ap (λ (x : Db D). D.stock_locks.rows x.stock_locks) h.holds.1
                ∙ D.stock_locks.update_lem lock.id (released_lock at) t.stock_locks,
          );
        }
