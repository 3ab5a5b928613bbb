-- ===== src/Database.antt =====
-- The tables of the database (apps/api/prisma/schema.prisma) with their unique constraints, and
-- the state that a command passes on. The client that answers is a parameter.
use sanmarino_crm.Base.{
  ℕ, ◌-◌, ◌≤◌, ◌<◌, ltb, arith, ◌≡◌, refl, Bool, true, false, List, [], ◌∷◌, any, ◌&&◌, ◌||◌,
  text_eq, ◌==◌,
}
use sanmarino_crm.Records.{
  Order, OrderItem, Fulfillment, FulfillmentItem, Payment, ReturnRequest, ReturnRequestItem,
  CashOperation, FinanceEntry, IdempotencyRecord, OutboxRecord, AuditLogRecord, Reservation,
  InventoryMovement, DeliveryTask, PickupWindow, Product, Warehouse, Deal, StockLock,
  SupplierRequest,
}
use sanmarino_crm.Status.{payment_external_source_eq}
use sanmarino_crm.Table.{Table}
use sanmarino_crm.Table.Memory.{memory_table}

-- No constraint but the primary key, which the table gives out itself.
abbrev pub unconstrained : {Row : Type 0} → Row → Row → Bool
unconstrained _ _ = false

pub any-unconstrained : {A : Type 0} (r : A) (l : List A) → any (unconstrained r) l ≡ false
unfolding any
any-unconstrained r [] = refl
any-unconstrained r (x ∷ xs) = any-unconstrained r xs

-- `paymentNumber @unique`, `@@unique([externalSource, externalEventId])`
abbrev pub payment_clash : Payment → Payment → Bool
payment_clash p q =
    p.payment_number == q.payment_number
    || (p.external_source == q.external_source && p.external_event_id == q.external_event_id)

-- `@@unique([scope, idempotencyKey])`
abbrev pub idempotency_clash : IdempotencyRecord → IdempotencyRecord → Bool
idempotency_clash r s = r.scope == s.scope && r.idempotency_key == s.idempotency_key

-- `@@unique([fulfillmentId, orderItemId])`
abbrev pub fulfillment_item_clash : FulfillmentItem → FulfillmentItem → Bool
fulfillment_item_clash a b =
    a.fulfillment_id == b.fulfillment_id && a.order_item_id == b.order_item_id

-- `@@unique([returnRequestId, orderItemId])`
abbrev pub return_request_item_clash : ReturnRequestItem → ReturnRequestItem → Bool
return_request_item_clash a b =
    a.return_request_id == b.return_request_id && a.order_item_id == b.order_item_id

-- `eventId @unique`
abbrev pub audit_clash : AuditLogRecord → AuditLogRecord → Bool
audit_clash a b = a.event_id == b.event_id

-- The test `total - Math.max(0, gross - refunded) > 0` on amounts that the services hold as `number`s,
-- by the hundredths of the three. The differences of doubles are not exact, and the test has no
-- tolerance: what is known of it is that it is passed when a hundredth or more is missing, and not when
-- the order is paid more than it asks for, or exactly and nothing was refunded.
pub record Doubles : Type 0 where
  pub is_uncovered : ℕ → ℕ → ℕ → Bool
  pub missing :
      (total gross refunded : ℕ)
      → gross - refunded < total
      → is_uncovered total gross refunded ≡ true
  pub beyond :
      (total gross refunded : ℕ)
      → total < gross - refunded
      → is_uncovered total gross refunded ≡ false
  pub exact : (total : ℕ) → is_uncovered total total 0 ≡ false

pub covered_by : (total paid : ℕ) → total ≤ paid → ltb paid total ≡ false
covered_by total paid h = ground (arith, h)

pub uncovered_by : (total paid : ℕ) → paid < total → ltb paid total ≡ true
uncovered_by total paid h = ground (arith, h)

abbrev exact_doubles : Doubles
exact_doubles = record {
  is_uncovered = λ total gross refunded. ltb (gross - refunded) total;
  missing = λ total gross refunded h. uncovered_by total (gross - refunded) h;
  beyond = λ total gross refunded h. covered_by total (gross - refunded) (omega (arith, h));
  exact = λ total. covered_by total (total - 0) (omega arith);
}

pub record Database : Type 1 where
  pub doubles : Doubles
  pub orders : Table Order (λ r. r.id) unconstrained
  pub order_items : Table OrderItem (λ r. r.id) unconstrained
  pub fulfillments : Table Fulfillment (λ r. r.id) unconstrained
  pub fulfillment_items : Table FulfillmentItem (λ r. r.id) fulfillment_item_clash
  pub delivery_tasks : Table DeliveryTask (λ r. r.id) unconstrained
  pub pickup_windows : Table PickupWindow (λ r. r.id) unconstrained
  pub products : Table Product (λ r. r.id) unconstrained
  pub warehouses : Table Warehouse (λ r. r.id) unconstrained
  pub deals : Table Deal (λ r. r.id) unconstrained
  pub stock_locks : Table StockLock (λ r. r.id) unconstrained
  pub supplier_requests : Table SupplierRequest (λ r. r.id) unconstrained
  pub reservations : Table Reservation (λ r. r.id) unconstrained
  pub inventory_movements : Table InventoryMovement (λ r. r.id) unconstrained
  pub payments : Table Payment (λ r. r.id) payment_clash
  pub return_requests : Table ReturnRequest (λ r. r.id) unconstrained
  pub return_request_items : Table ReturnRequestItem (λ r. r.id) return_request_item_clash
  pub cash_operations : Table CashOperation (λ r. r.id) unconstrained
  pub finance_entries : Table FinanceEntry (λ r. r.id) unconstrained
  pub idempotency_records : Table IdempotencyRecord (λ r. r.id) idempotency_clash
  pub outbox_records : Table OutboxRecord (λ r. r.id) unconstrained
  pub audit_log : Table AuditLogRecord (λ r. r.id) audit_clash

pub record Db (D : Database) : Type 0 where
  pub orders : D.orders.Store
  pub order_items : D.order_items.Store
  pub fulfillments : D.fulfillments.Store
  pub fulfillment_items : D.fulfillment_items.Store
  pub delivery_tasks : D.delivery_tasks.Store
  pub pickup_windows : D.pickup_windows.Store
  pub products : D.products.Store
  pub warehouses : D.warehouses.Store
  pub deals : D.deals.Store
  pub stock_locks : D.stock_locks.Store
  pub supplier_requests : D.supplier_requests.Store
  pub reservations : D.reservations.Store
  pub inventory_movements : D.inventory_movements.Store
  pub payments : D.payments.Store
  pub return_requests : D.return_requests.Store
  pub return_request_items : D.return_request_items.Store
  pub cash_operations : D.cash_operations.Store
  pub finance_entries : D.finance_entries.Store
  pub idempotency_records : D.idempotency_records.Store
  pub outbox_records : D.outbox_records.Store
  pub audit_log : D.audit_log.Store

abbrev pub memory_database : Database
memory_database = record {
  doubles = exact_doubles;
  orders = memory_table (λ r. r.id) unconstrained;
  order_items = memory_table (λ r. r.id) unconstrained;
  fulfillments = memory_table (λ r. r.id) unconstrained;
  fulfillment_items = memory_table (λ r. r.id) fulfillment_item_clash;
  delivery_tasks = memory_table (λ r. r.id) unconstrained;
  pickup_windows = memory_table (λ r. r.id) unconstrained;
  products = memory_table (λ r. r.id) unconstrained;
  warehouses = memory_table (λ r. r.id) unconstrained;
  deals = memory_table (λ r. r.id) unconstrained;
  stock_locks = memory_table (λ r. r.id) unconstrained;
  supplier_requests = memory_table (λ r. r.id) unconstrained;
  reservations = memory_table (λ r. r.id) unconstrained;
  inventory_movements = memory_table (λ r. r.id) unconstrained;
  payments = memory_table (λ r. r.id) payment_clash;
  return_requests = memory_table (λ r. r.id) unconstrained;
  return_request_items = memory_table (λ r. r.id) return_request_item_clash;
  cash_operations = memory_table (λ r. r.id) unconstrained;
  finance_entries = memory_table (λ r. r.id) unconstrained;
  idempotency_records = memory_table (λ r. r.id) idempotency_clash;
  outbox_records = memory_table (λ r. r.id) unconstrained;
  audit_log = memory_table (λ r. r.id) audit_clash;
}
