-- ===== src/Orders/Returns/Goods.antt =====
-- The goods of a return in return-requests.service.ts: the stock movements that its items need
-- (`assert_return_consequences_complete`), and where they are written from.
use sanmarino_crm.Base.{
  ℕ, ◌+◌, ◌*◌, Bool, true, false, ◌&&◌, ◌||◌, not, Option, none, some, List, [], ◌∷◌, ◌++◌, Text,
  text, text_eq, ◌==◌, ltb, leb, get, set, select, if◌then◌else◌,
}
use sanmarino_crm.Records.{
  ReturnRequest, ReturnRequestItem, ReturnRequestItemResolution, return_request_item_resolution_eq,
  return_to_quarantine, writeoff, refund_only, InventoryMovement, Reservation,
}
use sanmarino_crm.Database.{Database, Db}
use sanmarino_crm.Status.{
  InventoryMovementType, inventory_movement_type_eq, InventoryBucketStatus,
  inventory_bucket_status_eq, ReservationStatus, reservation_status_eq, CashOperationType,
  cash_operation_type_eq, FinanceEntryType, finance_entry_type_eq,
}
use sanmarino_crm.Orders.Shipment.{QtyMap, or_zero}
use sanmarino_crm.Orders.Returns.{return_tolerance}
use sanmarino_crm.Orders.Fulfillments.Stock.{product_of}

-- An item with the product of its order item.
pub record GoodsItem : Type 0 where
  pub product_id : Text
  pub qty : ℕ
  pub resolution : ReturnRequestItemResolution

abbrev pub is_goods : GoodsItem → Bool
is_goods i = not (i.resolution == refund_only)

-- `movementType` of an item that is not only refunded
abbrev pub movement_type_of : ReturnRequestItemResolution → InventoryMovementType
movement_type_of writeoff = InventoryMovementType.writeoff
movement_type_of return_to_quarantine = InventoryMovementType.transfer_to_quarantine
movement_type_of refund_only = InventoryMovementType.transfer_to_quarantine

abbrev type_text : InventoryMovementType → Text
type_text InventoryMovementType.receipt = text "receipt"
type_text InventoryMovementType.issue = text "issue"
type_text InventoryMovementType.return_to_stock = text "return_to_stock"
type_text InventoryMovementType.writeoff = text "writeoff"
type_text InventoryMovementType.adjustment = text "adjustment"
type_text InventoryMovementType.reservation_create = text "reservation_create"
type_text InventoryMovementType.reservation_release = text "reservation_release"
type_text InventoryMovementType.transfer_to_quarantine = text "transfer_to_quarantine"
type_text InventoryMovementType.release_from_quarantine = text "release_from_quarantine"

unfoldable pub build_return_goods_consequence_key : Text → InventoryMovementType → Text
build_return_goods_consequence_key product_id t = product_id ++ text ":" ++ type_text t

abbrev is_bucket : InventoryBucketStatus → Option InventoryBucketStatus → Bool
is_bucket b none = false
is_bucket b (some c) = c == b

abbrev is_no_bucket : Option InventoryBucketStatus → Bool
is_no_bucket none = true
is_no_bucket (some c) = false

-- The tests of the loop over the movements.
abbrev pub counts : InventoryMovement → Bool
counts m =
    if m.movement_type == InventoryMovementType.transfer_to_quarantine
    then is_bucket InventoryBucketStatus.quarantine m.bucket_to
    else m.movement_type == InventoryMovementType.writeoff && is_no_bucket m.bucket_to

abbrev pub movement_key : InventoryMovement → Text
movement_key m = build_return_goods_consequence_key m.product_id m.movement_type

abbrev pub goods_key : GoodsItem → Text
goods_key i = build_return_goods_consequence_key i.product_id (movement_type_of i.resolution)

-- `movementQtyByKey`
unfoldable pub add_movements : QtyMap → List InventoryMovement → QtyMap
unfolding get set build_return_goods_consequence_key
add_movements m [] = m
add_movements m (x ∷ xs) =
    let rest =
      add_movements (set (movement_key x) (or_zero (get (movement_key x) m) + x.qty) m) xs in
    let skip = add_movements m xs in if counts x then rest else skip

-- `requiredQtyByKey`
unfoldable pub add_required : QtyMap → List GoodsItem → QtyMap
unfolding get set build_return_goods_consequence_key
add_required m [] = m
add_required m (i ∷ is) =
    add_required (set (goods_key i) (or_zero (get (goods_key i) m) + i.qty) m) is

-- The loop over the required quantities.
unfoldable pub is_moved : QtyMap → QtyMap → Bool
unfolding get
is_moved movements [] = true
is_moved movements ((key, required) ∷ rest) =
    leb required (or_zero (get key movements) + return_tolerance) && is_moved movements rest

unfoldable pub are_goods_moved : List InventoryMovement → List GoodsItem → Bool
unfolding add_movements add_required is_moved select
are_goods_moved movements items =
    is_moved (add_movements [] movements) (add_required [] (select is_goods items))

abbrev pub requested_of : Option ℕ → ℕ
requested_of none = 0
requested_of (some a) = a

-- `a + 0.005 < b`
abbrev pub falls_short : ℕ → ℕ → Bool
falls_short a b = ltb (10 * a + 5) (10 * b)

abbrev pub is_return_text : Text → Option Text → Bool
is_return_text id none = false
is_return_text id (some t) = t == id

-- The `where` of the movements of a return.
abbrev pub is_movement_of : Text → InventoryMovement → Bool
is_movement_of id m =
    is_return_text id m.return_request_id
    && (m.movement_type == InventoryMovementType.transfer_to_quarantine
        || m.movement_type == InventoryMovementType.writeoff)

abbrev first_warehouse : List Reservation → Option Text
first_warehouse [] = none
first_warehouse (r ∷ rs) = some r.warehouse_id

abbrev last_warehouse : List InventoryMovement → Option Text
last_warehouse [] = none
last_warehouse (m ∷ []) = some m.warehouse_id
last_warehouse (m ∷ n ∷ ms) = last_warehouse (n ∷ ms)

abbrev or_last : Option Text → Option Text → Option Text
or_last (some w) _ = some w
or_last none w = w

module _ (D : Database) where
  abbrev pub goods_item : Db D → ReturnRequestItem → GoodsItem
  goods_item db i = record {
    product_id = product_of D i.order_item_id db;
    qty = i.qty;
    resolution = i.resolution;
  }

  -- The goods part of `assert_return_consequences_complete`; without goods no movement is read.
  unfoldable pub goods_are_complete : Text → List GoodsItem → Db D → Bool
  unfolding are_goods_moved
  goods_are_complete id items db =
      are_goods_moved (D.inventory_movements.find_many (is_movement_of id) db.inventory_movements)
        items

  -- `resolve_warehouse_for_return_item`: the first reservation, or else the last issue. The rows of
  -- equal instants stand in the order that the ascending query gives.
  unfoldable pub resolve_warehouse_for_return_item : Text → Text → Db D → Option Text
  resolve_warehouse_for_return_item order_id product_id db =
      or_last
        (first_warehouse (
          D.reservations.find_many_by
            (λ r.
              r.order_id == order_id
              && r.product_id == product_id
              && (r.status == ReservationStatus.active
                  || r.status == ReservationStatus.consumed
                  || r.status == ReservationStatus.released))
            (λ r. r.created_at) db.reservations))
        (last_warehouse (
          D.inventory_movements.find_many_by
            (λ m.
              is_return_text order_id m.order_id
              && m.product_id == product_id
              && m.movement_type == InventoryMovementType.issue)
            (λ m. m.created_at) db.inventory_movements))

  abbrev pub refunds_of : Text → Db D → ℕ
  refunds_of id db =
      D.cash_operations.sum
        (λ o. is_return_text id o.return_request_id && o.operation_type == CashOperationType.refund)
        (λ o. o.amount) db.cash_operations

  abbrev pub adjustments_of : Text → Db D → ℕ
  adjustments_of id db =
      D.finance_entries.sum
        (λ e. is_return_text id e.return_request_id && e.entry_type == FinanceEntryType.adjustment)
        (λ e. e.amount) db.finance_entries

  -- The refund part of `assert_return_consequences_complete`
  abbrev pub refund_is_complete : ReturnRequest → Db D → Bool
  refund_is_complete r db =
      let requested = requested_of r.requested_refund_amount in
      leb requested 0
      || not (
          falls_short (refunds_of r.id db) requested
          || falls_short (adjustments_of r.id db) requested)
