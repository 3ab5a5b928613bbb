-- ===== src/Supply/Locks.antt =====
-- The stock locks of supply.service.ts.
pub mod Laws
use sanmarino_crm.Base.{
  ℕ, ◌+◌, ◌*◌, not, ◌||◌, Option, none, some, List, [], ◌∷◌, Text, text_eq, ◌==◌, ltb,
  if◌then◌else◌,
}
use sanmarino_crm.Records.{Actor, RoleCode, seller, StockLock}
use sanmarino_crm.Errors.{
  not_found_exception, bad_request_exception, conflict_exception, validation_error,
  transition_not_allowed,
}
use sanmarino_crm.Action.{
  Action, Result, ok, err, ◌>>=◌, ◌>>◌, pure, gets, or_throw, from_result, throw_if, modify,
}
use sanmarino_crm.Database.{Database, Db}
use sanmarino_crm.Status.{StockLockStatus, stock_lock_status_eq}
use sanmarino_crm.Table.Insert.{create_in}
use sanmarino_crm.Payments.Normalize.{trim}
use sanmarino_crm.Supply.{
  Double, assert_access, stored_qty, get_product_or_throw, get_warehouse_or_throw,
}

abbrev pub stock_lock_create_role_codes : List RoleCode
stock_lock_create_role_codes = seller ∷ []

abbrev pub stock_lock_release_role_codes : List RoleCode
stock_lock_release_role_codes = seller ∷ []

abbrev pub stock_lock_ttl_default_minutes : ℕ
stock_lock_ttl_default_minutes = 10

abbrev pub stock_lock_ttl_min_minutes : ℕ
stock_lock_ttl_min_minutes = 5

abbrev pub stock_lock_ttl_max_minutes : ℕ
stock_lock_ttl_max_minutes = 10

-- The controller lets a quantity pass from 0.001 on. `ttl_minutes` may be left out; `some none` is a
-- number that is negative or not an integer.
pub record CreateStockLock : Type 0 where
  pub product_id : Text
  pub warehouse_id : Text
  pub deal_id : Text
  pub quantity : Double
  pub ttl_minutes : Option (Option ℕ)
  pub idempotency_key : Option Text

unfoldable pub resolve_stock_lock_ttl_minutes : Option (Option ℕ) → Result ℕ
resolve_stock_lock_ttl_minutes none = ok stock_lock_ttl_default_minutes
resolve_stock_lock_ttl_minutes (some none) = err (bad_request_exception validation_error)
resolve_stock_lock_ttl_minutes (some (some minutes)) =
    if ltb minutes stock_lock_ttl_min_minutes || ltb stock_lock_ttl_max_minutes minutes
    then err (bad_request_exception validation_error)
    else ok minutes

abbrev pub build_expires_at_from_now : ℕ → ℕ → ℕ
build_expires_at_from_now minutes now = now + minutes * 60 * 1000

-- A lock that has run out is read as expired; its row keeps `active`.
abbrev pub apply_stock_lock_status_baseline : StockLock → ℕ → StockLock
apply_stock_lock_status_baseline lock now =
    if not (lock.status == StockLockStatus.active)
    then lock
    else if ltb now lock.expires_at
    then lock
    else record lock { status = StockLockStatus.expired }

abbrev pub released_lock : ℕ → StockLock → StockLock
released_lock at lock = record lock { status = StockLockStatus.released; released_at = some at }

abbrev pub trim_key : Option Text → Option Text
trim_key none = none
trim_key (some t) = some (trim t)

module _ (D : Database) where
  abbrev pub find_stock_lock : Text → Db D → Option StockLock
  find_stock_lock id db = D.stock_locks.find_first (λ l. l.id == id) db.stock_locks

  abbrev pub new_stock_lock : CreateStockLock → Actor → ℕ → Db D → StockLock
  new_stock_lock input actor expires_at db = record {
    id = D.stock_locks.next_id db.stock_locks;
    product_id = input.product_id;
    warehouse_id = input.warehouse_id;
    deal_id = some input.deal_id;
    qty = stored_qty input.quantity;
    status = StockLockStatus.active;
    idempotency_key = trim_key input.idempotency_key;
    expires_at = expires_at;
    released_at = none;
    created_by = actor.user_id;
  }

  unfoldable pub create_lock_row : StockLock → Action (Db D) (Unit {0})
  unfolding create_in
  create_lock_row lock =
      create_in D.stock_locks (λ x. x.stock_locks) (λ t x. record x { stock_locks = t }) lock

  -- `createStockLock`: it starts at `now` and answers at `later`.
  unfoldable pub create_stock_lock : CreateStockLock → Actor → ℕ → ℕ → Action (Db D) StockLock
  unfolding get_product_or_throw get_warehouse_or_throw resolve_stock_lock_ttl_minutes
      create_lock_row
  create_stock_lock input actor now later = do
    assert_access stock_lock_create_role_codes actor
    product ← get_product_or_throw D input.product_id
    depot ← get_warehouse_or_throw D input.warehouse_id
    found ← gets (λ (db : Db D). D.deals.find_first (λ d. d.id == input.deal_id) db.deals)
    deal ← or_throw found not_found_exception
    minutes ← from_result (resolve_stock_lock_ttl_minutes input.ttl_minutes)
    lock ← gets (new_stock_lock input actor (build_expires_at_from_now minutes now))
    create_lock_row lock
    pure (apply_stock_lock_status_baseline lock later)

  -- `releaseStockLock`: the lock is looked at at `now` and released at `at`.
  unfoldable pub release_stock_lock : Text → Actor → ℕ → ℕ → Action (Db D) StockLock
  release_stock_lock id actor now at = do
    assert_access stock_lock_release_role_codes actor
    found ← gets (find_stock_lock id)
    lock ← or_throw found not_found_exception
    throw_if (not ((apply_stock_lock_status_baseline lock now).status == StockLockStatus.active))
        (conflict_exception transition_not_allowed)
    modify (λ (db : Db D). record db {
      stock_locks = D.stock_locks.update id (released_lock at) db.stock_locks;
    })
    pure (apply_stock_lock_status_baseline (released_lock at lock) at)
