-- ===== src/Orders/Shipment.antt =====
-- apps/api/src/modules/orders/order-shipment-status.policy.ts: what the completed fulfillments of an
-- order allow. Quantities are millionths, where `qty_epsilon` is 1.
pub mod Sums
pub mod Laws
use sanmarino_crm.Base.{
  get, set, ℕ, ◌+◌, Bool, true, false, ◌&&◌, not, Option, none, some, List, [], ◌∷◌, Text, text_eq,
  ◌==◌, ltb, leb, if◌then◌else◌, any, length,
}
use sanmarino_crm.Status.{OrderStatus}

abbrev pub qty_epsilon : ℕ
qty_epsilon = 1

-- `OrderShipmentProgressOrderItemInput` and `OrderShipmentProgressCompletedItemInput`
pub record Item : Type 0 where
  pub order_item_id : Text
  pub qty : ℕ

pub record ProgressInput : Type 0 where
  pub order_items : List Item
  pub completed_fulfillment_count : ℕ
  pub pending_fulfillment_count : ℕ
  pub completed_shipment_items : List Item

pub record ProgressSummary : Type 0 where
  pub has_order_items : Bool
  pub has_completed_fulfillment : Bool
  pub has_pending_fulfillment : Bool
  pub has_item_level_shipment_evidence : Bool
  pub is_fully_fulfilled : Bool
  pub recommended_status : Option OrderStatus

-- `OrderShipmentProgressError`, by its message.
pub data ProgressError : Type 0 where
  not_linked exceeds_order : Text → ProgressError

pub data Progress (A : Type 0) : Type 0 where
  returns : A → Progress A
  throws : ProgressError → Progress A

-- `Map<string, number>`, in the order of insertion.
abbrev pub QtyMap : Type 0
QtyMap = List (Text × ℕ)

-- `map.get(k) ?? 0`
abbrev pub or_zero : Option ℕ → ℕ
or_zero none = 0
or_zero (some n) = n

-- The loop over the order items.
unfoldable pub add_order_items : QtyMap → List Item → QtyMap
unfolding get set
add_order_items m [] = m
add_order_items m (item ∷ items) =
    add_order_items (set item.order_item_id (or_zero (get item.order_item_id m) + item.qty) m) items

-- The loop over the completed items, with its two throws.
unfoldable pub add_completed_items : QtyMap → QtyMap → List Item → Progress QtyMap
unfolding get set
add_completed_items ordered m [] = returns m
add_completed_items ordered m (item ∷ items) =
    let completed_qty = or_zero (get item.order_item_id m) + item.qty in
    let rest = add_completed_items ordered (set item.order_item_id completed_qty m) items in
    elim (get item.order_item_id ordered) [
      | none ↦ throws (not_linked item.order_item_id)
      | some order_item_qty ↦
          if ltb (order_item_qty + qty_epsilon) completed_qty
          then throws (exceeds_order item.order_item_id)
          else rest
    ]

-- `Array.prototype.every`
abbrev pub every : (Item → Bool) → List Item → Bool
every p [] = true
every p (x ∷ xs) = p x && every p xs

abbrev pub is_fulfilled : QtyMap → Item → Bool
is_fulfilled completed item =
    leb item.qty (or_zero (get item.order_item_id completed) + qty_epsilon)

-- The answer for an order without items.
unfoldable pub progress_without_items : ProgressInput → ProgressSummary
progress_without_items input =
    let has_completed = ltb 0 input.completed_fulfillment_count in
    let has_pending = ltb 0 input.pending_fulfillment_count in
    record {
      has_order_items = false;
      has_completed_fulfillment = has_completed;
      has_pending_fulfillment = has_pending;
      has_item_level_shipment_evidence = false;
      is_fully_fulfilled = has_completed && not has_pending;
      recommended_status =
          if not has_completed
          then none
          else some (if has_pending then OrderStatus.partially_shipped else OrderStatus.shipped);
    }

-- The answer for an order with items, once the loops are through.
unfoldable pub progress_of_items : ProgressInput → QtyMap → ProgressSummary
progress_of_items input completed =
    let has_completed = ltb 0 input.completed_fulfillment_count in
    let evidence = any (λ (k, n). ltb qty_epsilon n) completed in
    let fulfilled = every (is_fulfilled completed) input.order_items in
    record {
      has_order_items = true;
      has_completed_fulfillment = has_completed;
      has_pending_fulfillment = ltb 0 input.pending_fulfillment_count;
      has_item_level_shipment_evidence = evidence;
      is_fully_fulfilled = fulfilled;
      recommended_status =
          if not has_completed
          then none
          else if fulfilled
          then some OrderStatus.shipped
          else if evidence
          then some OrderStatus.partially_shipped
          else none;
    }

unfoldable pub evaluate_order_shipment_progress : ProgressInput → Progress ProgressSummary
unfolding add_order_items add_completed_items progress_without_items progress_of_items
evaluate_order_shipment_progress input =
    if ltb 0 (length input.order_items)
    then elim (add_completed_items (add_order_items [] input.order_items) []
        input.completed_shipment_items) [
          | throws e ↦ throws e
          | returns completed ↦ returns (progress_of_items input completed)
        ]
    else returns (progress_without_items input)
