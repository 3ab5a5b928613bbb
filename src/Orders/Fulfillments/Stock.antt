-- ===== src/Orders/Fulfillments/Stock.antt =====
-- The stock issue of apps/api/src/modules/orders/fulfillments.service.ts: the movements that a
-- confirmed fulfillment writes for its items.
use sanmarino_crm.Base.{
  ℕ, Bool, false, not, ◌&&◌, ◌||◌, Option, none, some, List, [], ◌∷◌, map, Text, text_eq, text,
  ◌==◌, ltb, length, contains, if◌then◌else◌,
}
use sanmarino_crm.Records.{FulfillmentItem, Reservation, InventoryMovement}
use sanmarino_crm.Errors.{conflict_exception, validation_error}
use sanmarino_crm.Action.{Action, ◌>>=◌, ◌>>◌, pure, gets, from_result, throw_if}
use sanmarino_crm.Database.{Database, Db}
use sanmarino_crm.Status.{
  order_status_eq, fulfillment_status_eq, ReservationStatus, reservation_status_eq,
  InventoryMovementType, inventory_movement_type_eq, InventoryBucketStatus,
}
use sanmarino_crm.Table.Insert.{create_in}
use sanmarino_crm.Orders.Issue.{IssueItem, IssueLine, issue_lines}
use sanmarino_crm.Orders.Fulfillments.{items_of_fulfillment}

abbrev pub is_one_of : List Text → Option Text → Bool
is_one_of ids none = false
is_one_of ids (some id) = contains ids id

abbrev is_text : Text → Option Text → Bool
is_text id none = false
is_text id (some t) = t == id

-- `movementType: "issue"` and `fulfillmentId` in a `where`
abbrev pub is_issue_for : Text → InventoryMovement → Bool
is_issue_for fulfillment_id m =
    is_text fulfillment_id m.fulfillment_id && m.movement_type == InventoryMovementType.issue

-- The `where` of the reservations that can be issued.
abbrev pub is_issuable : Text → List Text → Reservation → Bool
is_issuable order_id product_ids r =
    r.order_id == order_id
    && contains product_ids r.product_id
    && (r.status == ReservationStatus.active || r.status == ReservationStatus.consumed)

module _ (D : Database) where
  -- The product of an order item. The foreign key makes the item exist.
  abbrev pub product_of : Text → Db D → Text
  product_of order_item_id db =
      elim (D.order_items.find_first (λ i. i.id == order_item_id) db.order_items) [
        | none ↦ []
        | some i ↦ i.product_id
      ]

  abbrev pub issue_item : Db D → FulfillmentItem → IssueItem
  issue_item db i = record { product_id = product_of i.order_item_id db; qty = i.qty }

  abbrev pub issuable_reservations : Text → List IssueItem → Db D → List Reservation
  issuable_reservations order_id items db =
      D.reservations.find_many_by
        (is_issuable order_id (map (λ (i : IssueItem). i.product_id) items)) (λ r. r.created_at)
        db.reservations

  -- `existingIssueByReservation`; without reservations the query is not made, and finds none.
  abbrev pub issues_of : List Reservation → Db D → List InventoryMovement
  issues_of reservations db =
      D.inventory_movements.find_many
        (λ m.
          m.movement_type == InventoryMovementType.issue
          && is_one_of (map (λ (r : Reservation). r.id) reservations) m.reservation_id)
        db.inventory_movements

  abbrev pub issue_movement : Text → Text → Text → ℕ → IssueLine → Db D → InventoryMovement
  issue_movement fulfillment_id order_id user_id now line db = record {
    id = D.inventory_movements.next_id db.inventory_movements;
    movement_type = InventoryMovementType.issue;
    product_id = line.product_id;
    warehouse_id = line.warehouse_id;
    qty = line.qty;
    bucket_from = some InventoryBucketStatus.reserved;
    bucket_to = none;
    order_id = some order_id;
    fulfillment_id = some fulfillment_id;
    return_request_id = none;
    reservation_id = some line.reservation_id;
    reason = some (text "fulfillment_confirm_execution");
    performed_by = user_id;
    created_at = now;
  }

  unfoldable pub create_movement : (Db D → InventoryMovement) → Action (Db D) (Unit {0})
  unfolding create_in
  create_movement row db =
      create_in D.inventory_movements (λ (x : Db D). x.inventory_movements)
        (λ t x. record x { inventory_movements = t }) (row db) db

  -- `inventoryInventoryMovement.createMany`
  unfoldable pub create_issues : Text → Text → Text → ℕ → List IssueLine → Action (Db D) (Unit {0})
  unfolding create_movement
  create_issues fulfillment_id order_id user_id now [] = pure tt
  create_issues fulfillment_id order_id user_id now (line ∷ lines) =
      create_movement (issue_movement fulfillment_id order_id user_id now line)
      >> create_issues fulfillment_id order_id user_id now lines

  abbrev pub count_issues : Text → Db D → ℕ
  count_issues fulfillment_id db =
      D.inventory_movements.sum (is_issue_for fulfillment_id) (λ m. 1) db.inventory_movements

  -- What `issue_stock` does when the fulfillment has no issue yet.
  unfoldable pub issue_items_of : Text → Text → Text → ℕ → Action (Db D) ℕ
  unfolding create_issues issue_lines
  issue_items_of fulfillment_id order_id user_id now = do
    items ← gets (λ (db : Db D). map (issue_item db) (items_of_fulfillment D fulfillment_id db))
    throw_if (not (ltb 0 (length items))) (conflict_exception validation_error)
    reservations ← gets (issuable_reservations order_id items)
    issues ← gets (issues_of reservations)
    lines ← from_result (issue_lines reservations issues items)
    create_issues fulfillment_id order_id user_id now lines
    pure (length lines)

  -- `create_inventory_issue_side_effects`
  unfoldable pub create_inventory_issue_side_effects : Text → Text → Text → ℕ → Action (Db D) ℕ
  unfolding issue_items_of
  create_inventory_issue_side_effects fulfillment_id order_id user_id now = do
    count ← gets (count_issues fulfillment_id)
    if ltb 0 count then pure 0 else issue_items_of fulfillment_id order_id user_id now
