-- ===== src/Tests/Supply.antt =====
-- The commands of supply.service.ts at concrete inputs.
use sanmarino_crm.Supply.Reservations.{CreateReservations}
use sanmarino_crm.Base.{
  ◌≡◌, refl, Bool, none, some, List, [], ◌∷◌, text, text_eq, ◌==◌, map, first, change, any, total,
  arith,
}
use sanmarino_crm.Records.{Actor, seller, warehouse, StockLock, SupplierRequest, role_code_eq}
use sanmarino_crm.Errors.{conflict_exception, transition_not_allowed}
use sanmarino_crm.Action.{ok, err, ◌>>=◌}
use sanmarino_crm.Action.Ensures.{Ensures}
use sanmarino_crm.Action.Succeeds.{Succeeds}
use sanmarino_crm.Database.{Db, memory_database}
use sanmarino_crm.Status.{
  StockLockStatus, stock_lock_status_eq, SupplierRequestStatus, supplier_request_status_eq,
  ReservationStatus, reservation_status_eq, inventory_bucket_status_eq,
}
use sanmarino_crm.Table.Memory.{add}
use sanmarino_crm.Payments.Normalize.{trim}
use sanmarino_crm.Transition.Matrices.{assert_supplier_request_status_transition}
use sanmarino_crm.Supply.{Double, stored_qty, has_role}
use sanmarino_crm.Supply.Locks.{
  CreateStockLock, create_stock_lock, release_stock_lock, released_lock,
  stock_lock_create_role_codes, stock_lock_release_role_codes,
}
use sanmarino_crm.Supply.Locks.Laws.{
  LockMade, create_stock_lock-LockMade, lock_runs_out, lock_is_released,
}
use sanmarino_crm.Supply.Requests.Documented.{
  RequestCall, confirm, pay, Documented, after_request_calls, after_request_calls-Documented,
}
use sanmarino_crm.Supply.Stock.{Reserved}
use sanmarino_crm.Supply.Stock.Calls.{
  StockCall, reserve, release, to_quarantine, after_stock_calls, after_stock_calls-Reserved,
}
use sanmarino_crm.Tests.Payments.{start, clerk}
use sanmarino_crm.Tests.Orders.{ready}

abbrev vendor : Actor
vendor = record { user_id = text "u2"; role_codes = seller ∷ [] }

abbrev keeper : Actor
keeper = record { user_id = text "u3"; role_codes = warehouse ∷ [] }

abbrev asked_request : SupplierRequest
asked_request = record {
  id = text "q1";
  status = SupplierRequestStatus.formed;
  expected_supply_date = text "2026-05-01";
  supplier_document_url = none;
  confirmed_by = none;
  paid_by = none;
  paid_at = none;
  stocked_by = none;
  stocked_at = none;
}

abbrev shop : Db memory_database
shop = record start {
  orders = ready ∷ [];
  products = record { id = text "p1" } ∷ [];
  warehouses = record { id = text "w1" } ∷ [];
  deals = record { id = text "d1" } ∷ [];
  supplier_requests = asked_request ∷ [];
}

-- The `number`s 2.25, 1 and 1.0005, the last of which lies under its decimal.
abbrev two_and_a_quarter : Double
two_and_a_quarter = record { num = 9; scale = 2 }

abbrev one : Double
one = record { num = 1; scale = 0 }

stored_below : stored_qty (record { num = 4_505_851_427_184_181; scale = 52 }) ≡ 1_000_000
unfolding stored_qty
stored_below = refl

abbrev order_payload : CreateReservations
order_payload = record {
  order_id = text "o2";
  warehouse_id = text "w1";
  items =
      record { product_id = text "p1"; quantity = some two_and_a_quarter; expires_at = some 900 }
      ∷ record { product_id = text "p1"; quantity = some one; expires_at = some 900 }
      ∷ [];
}

abbrev stock_calls : List StockCall
stock_calls =
    reserve order_payload vendor 10 20
    ∷ release (1 ∷ []) 30 31
    ∷ to_quarantine
        record {
          product_id = text "p1";
          warehouse_id = text "w1";
          quantity = some one;
          reason = none;
        }
        keeper 40
    ∷ []

shop-Reserved : Reserved memory_database shop
unfolding total
shop-Reserved = record { ids = tt; balanced = λ p w. refl }

after_stock_calls-Reserved_example :
    Reserved memory_database (after_stock_calls memory_database stock_calls shop)
unfolding stored_qty
after_stock_calls-Reserved_example =
    after_stock_calls-Reserved memory_database stock_calls shop
      ((omega arith, (omega arith, tt)), (tt, (tt, tt))) shop-Reserved

abbrev lock_input : CreateStockLock
lock_input = record {
  product_id = text "p1";
  warehouse_id = text "w1";
  deal_id = text "d1";
  quantity = one;
  ttl_minutes = some (some 7);
  idempotency_key = some (text " k1");
}

create_stock_lock-LockMade_example :
    Ensures shop (create_stock_lock memory_database lock_input vendor 1000 1001) (λ lock t.
      (has_role stock_lock_create_role_codes vendor ≡ Bool.true)
      × LockMade memory_database 1000 lock t)
create_stock_lock-LockMade_example =
    create_stock_lock-LockMade memory_database lock_input vendor 1000 1001 shop

abbrev made_lock : StockLock
made_lock = record {
  id = 1 ∷ [];
  product_id = text "p1";
  warehouse_id = text "w1";
  deal_id = some (text "d1");
  qty = 1_000_000;
  status = StockLockStatus.active;
  idempotency_key = some (text "k1");
  expires_at = 421_000;
  released_at = none;
  created_by = text "u2";
}

abbrev locked_shop : Db memory_database
locked_shop = record shop { stock_locks = made_lock ∷ [] }

made :
    create_stock_lock memory_database lock_input vendor 1000 1001 shop ≡ (ok made_lock, locked_shop)
unfolding create_stock_lock ◌>>=◌ text_eq role_code_eq stock_lock_status_eq any first add trim
    stored_qty
made = refl

-- The order is reserved for twice, and one of the reservations is released.
stock_calls_run :
    map (λ r. r.status) (after_stock_calls memory_database stock_calls shop).reservations
    ≡ ReservationStatus.active ∷ ReservationStatus.released ∷ []
unfolding after_stock_calls ◌>>=◌ text_eq role_code_eq any first add change reservation_status_eq
    stored_qty
stock_calls_run = refl

is_vendor : has_role stock_lock_release_role_codes vendor ≡ Bool.true
unfolding any role_code_eq
is_vendor = refl

lock_runs_out_example :
    release_stock_lock memory_database made_lock.id vendor 601_000 601_000 locked_shop
    ≡ (err (conflict_exception transition_not_allowed), locked_shop)
lock_runs_out_example =
    lock_runs_out memory_database lock_input vendor vendor 1000 1001 shop made is_vendor 601_000
      601_000 (omega arith)

lock_is_released_example :
    Succeeds locked_shop
      (release_stock_lock memory_database made_lock.id vendor 300_000 300_001)
      (λ answer t.
        (answer.status ≡ StockLockStatus.released)
        × (t.stock_locks
            ≡ change (λ l. l.id == made_lock.id) (released_lock 300_001) locked_shop.stock_locks))
lock_is_released_example =
    lock_is_released memory_database lock_input vendor vendor 1000 1001 shop made is_vendor 300_000
      300_001 (omega arith)

abbrev request_calls : List RequestCall
request_calls = confirm (text "q1") (text "2026-05-02") vendor ∷ pay (text "q1") clerk 50 ∷ []

shop-Documented : Documented memory_database shop
shop-Documented = record { ids = (tt, tt); documented = (tt, tt) }

after_request_calls-Documented_example :
    Documented memory_database (after_request_calls memory_database request_calls shop)
after_request_calls-Documented_example =
    after_request_calls-Documented memory_database request_calls shop shop-Documented

-- The request is paid.
request_calls_run :
    map (λ r. r.status) (after_request_calls memory_database request_calls shop).supplier_requests
    ≡ SupplierRequestStatus.paid ∷ []
unfolding after_request_calls ◌>>=◌ text_eq role_code_eq any first change
    assert_supplier_request_status_transition supplier_request_status_eq
request_calls_run = refl
