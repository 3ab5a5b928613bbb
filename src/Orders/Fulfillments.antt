-- ===== src/Orders/Fulfillments.antt =====
-- apps/api/src/modules/orders/fulfillments.service.ts: the payload of a new fulfillment, the reads of a
-- fulfillment and the checks that a new one must pass. The order of a row, which the client joins in, is looked up
-- by its foreign key; no identifier is the empty text.

pub mod Create
pub mod Stock
pub mod Confirm
pub mod Ledger
pub mod SameStock
pub mod Covered
pub mod Again
pub mod Fits
pub mod Inserted
pub mod Created
use sanmarino_crm.Base.{
  ℕ, ◌+◌, Bool, true, false, ◌&&◌, ◌||◌, not, Option, none, some, List, [], ◌∷◌, ◌++◌, map, Text,
  text_eq, text, ◌==◌, ltb, leb, length, contains, get, set, if◌then◌else◌,
}
use sanmarino_crm.Records.{
  Order, OrderItem, Fulfillment, FulfillmentItem, Reservation, InventoryMovement, Actor,
  AuditLogRecord, AuditPayload, execution_payload, ResponseBody, fulfillment_reference,
  LoggedAction,
}
use sanmarino_crm.Errors.{
  Exception, not_found_exception, conflict_exception, bad_request_exception, other_error,
  validation_error, transition_not_allowed,
}
use sanmarino_crm.Action.{
  Result, ok, err, Action, ◌>>=◌, ◌>>◌, pure, gets, or_throw, from_result, throw_if, modify,
  transaction,
}
use sanmarino_crm.Database.{Database, Db}
use sanmarino_crm.Status.{
  OrderStatus, order_status_eq, FulfillmentStatus, fulfillment_status_eq, OrderFulfillmentType,
  order_fulfillment_type_eq, ReservationStatus, reservation_status_eq, InventoryMovementType,
  inventory_movement_type_eq, InventoryBucketStatus,
}
use sanmarino_crm.Table.Insert.{create_in}
use sanmarino_crm.Transition.Matrices.{assert_order_status_transition}
use sanmarino_crm.Orders.Read.{resolve_order_read_scope, restriction, owned_by}
use sanmarino_crm.Orders.Service.{
  refuse, status_patch, update_order_row, read_order_shipment_progress,
}
use sanmarino_crm.Orders.Shipment.{QtyMap}
use sanmarino_crm.Orders.Issue.{IssueItem, IssueLine, issue_lines}
use sanmarino_crm.Payments.Digest.{HashInput, confirm_execution_request, execution_event, take}
use sanmarino_crm.Payments.Idempotency.{
  CommandContext, Surroundings, AcquiredIdempotencyRecord, acquire_idempotency, marking_failed,
  complete, update_record,
}
use sanmarino_crm.Payments.Normalize.{trim}

-- `CreateFulfillmentItemInput`: `qty` is the number that the text writes, `none` where that is not
-- a finite number or is negative. A text has at most six digits after the point.
pub record CreateFulfillmentItemInput : Type 0 where
  pub order_item_id : Text
  pub qty : Option ℕ

pub record CreateFulfillmentInput : Type 0 where
  pub order_id : Text
  pub fulfillment_type : Option OrderFulfillmentType
  pub delivery_task_id : Option Text
  pub pickup_window_id : Option Text
  pub items : List CreateFulfillmentItemInput

-- An item that has passed `normalize_create_items`.
pub record NormalizedItem : Type 0 where
  pub order_item_id : Text
  pub qty : ℕ

abbrev pub is_empty : Text → Bool
is_empty [] = true
is_empty (c ∷ t) = false

-- `!Number.isFinite(qty_value) || qty_value <= 0` refuses.
abbrev pub positive : Option ℕ → Option ℕ
positive none = none
positive (some n) = if ltb 0 n then some n else none

-- `normalize_create_items`, with the identifiers seen so far
unfoldable pub normalize_items_from :
    List Text → List CreateFulfillmentItemInput → Result (List NormalizedItem)
unfolding trim
normalize_items_from seen [] = ok []
normalize_items_from seen (item ∷ items) =
    let order_item_id = trim item.order_item_id in
    let rest = normalize_items_from (order_item_id ∷ seen) items in
    if is_empty order_item_id
    then err (bad_request_exception validation_error)
    else if contains seen order_item_id
    then err (bad_request_exception validation_error)
    else elim (positive item.qty) [
      | none ↦ err (bad_request_exception validation_error)
      | some qty ↦ elim rest [
        | err e ↦ err e
        | ok normalized ↦ ok (record { order_item_id = order_item_id; qty = qty } ∷ normalized)
      ]
    ]

abbrev pub normalize_create_items : List CreateFulfillmentItemInput → Result (List NormalizedItem)
normalize_create_items = normalize_items_from []

-- `order_item_by_id`
unfoldable pub qty_by_id : QtyMap → List OrderItem → QtyMap
unfolding set
qty_by_id m [] = m
qty_by_id m (item ∷ items) = qty_by_id (set item.id item.qty m) items

-- The loop over the items that the order must have: `some` is what it throws.
unfoldable pub check_items : QtyMap → List NormalizedItem → Option Exception
unfolding get
check_items m [] = none
check_items m (item ∷ items) =
    let rest = check_items m items in
    elim (get item.order_item_id m) [
      | none ↦ some (conflict_exception validation_error)
      | some max_qty ↦
          if ltb max_qty item.qty then some (conflict_exception validation_error) else rest
    ]

abbrev pub refused : Option Exception → Result (Unit {0})
refused none = ok tt
refused (some e) = err e

module _ (D : Database) where
  abbrev pub order_of : Text → Db D → Option Order
  order_of order_id db = D.orders.find_first (λ o. o.id == order_id) db.orders

  -- `order: { deal: { responsibleUserId } }` in a `where`
  abbrev pub is_in_scope : Option Text → Text → Db D → Bool
  is_in_scope scope order_id db = elim (order_of order_id db) [
    | none ↦ false
    | some o ↦ owned_by scope o
  ]

  abbrev pub scoped : Option Text → Text → Db D → Bool
  scoped scope order_id db = elim (restriction scope) [
    | none ↦ true
    | some u ↦ is_in_scope (some u) order_id db
  ]

  abbrev pub find_fulfillment : Text → Option Text → Db D → Option Fulfillment
  find_fulfillment id scope db =
      D.fulfillments.find_first (λ f. f.id == id && scoped scope f.order_id db) db.fulfillments

  abbrev pub items_of_fulfillment : Text → Db D → List FulfillmentItem
  items_of_fulfillment id db =
      D.fulfillment_items.find_many (λ i. i.fulfillment_id == id) db.fulfillment_items

  -- `getFulfillment`
  unfoldable pub get_fulfillment : Text → Actor → Action (Db D) (Fulfillment × List FulfillmentItem)
  unfolding resolve_order_read_scope
  get_fulfillment id actor = do
    scope ← from_result (resolve_order_read_scope actor none)
    found ← gets (find_fulfillment id scope)
    fulfillment ← or_throw found not_found_exception
    gets (λ (db : Db D). (
      fulfillment,
      D.fulfillment_items.find_many_by (λ i. i.fulfillment_id == id) (λ i. i.created_at)
          db.fulfillment_items,
    ))

  -- The check of the requested items against those of the order.
  unfoldable pub check_requested_items : Text → List NormalizedItem → Action (Db D) (Unit {0})
  unfolding check_items qty_by_id
  check_requested_items order_id [] = pure tt
  check_requested_items order_id (item ∷ items) = do
    let requested = map (λ (i : NormalizedItem). i.order_item_id) (item ∷ items)
    order_items ← gets (λ (db : Db D).
        D.order_items.find_many (λ i. i.order_id == order_id && contains requested i.id)
          db.order_items)
    from_result (refused (check_items (qty_by_id [] order_items) (item ∷ items)))

  unfoldable pub check_delivery_task : Text → Option Text → Action (Db D) (Unit {0})
  check_delivery_task order_id none = pure tt
  check_delivery_task order_id (some id) = do
    found ← gets (λ (db : Db D).
        D.delivery_tasks.find_first (λ t. t.id == id && t.order_id == order_id) db.delivery_tasks)
    task ← or_throw found (conflict_exception validation_error)
    pure tt

  unfoldable pub check_pickup_window : Option Text → Action (Db D) (Unit {0})
  check_pickup_window none = pure tt
  check_pickup_window (some id) = do
    found ← gets (λ (db : Db D). D.pickup_windows.find_first (λ w. w.id == id) db.pickup_windows)
    window ← or_throw found not_found_exception
    pure tt
