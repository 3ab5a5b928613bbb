-- ===== src/Tests/Orders.antt =====
-- The shipment policy and the commands of the orders at a concrete order.
use sanmarino_crm.Transition.Matrices.{
  assert_order_status_transition, assert_order_control_overlay_transition,
}
use sanmarino_crm.Base.{
  first, select, total, change, ◌+◌, ◌≤◌, ◌<◌, ◌≡◌, ◌≢◌, ◌↔◌, refl, Bool, true, some, none, [], ◌∷◌,
  text, All, arith, text_eq, any,
}
use sanmarino_crm.Action.{◌>>=◌, ok}
use sanmarino_crm.Action.Ensures.{Ensures}
use sanmarino_crm.Database.{Db, memory_database}
use sanmarino_crm.Orders.Laws.{
  IsFulfilled, shipped-IsFulfilled, uncovered_is_controlled, Controlled,
  transition_order_control_overlay-Controlled, net_paid_of_order,
}
use sanmarino_crm.Orders.Service.{
  transition_order_status, transition_order_control_overlay, is_shipment_status,
}
use sanmarino_crm.Orders.Shipment.{
  ProgressInput, ProgressSummary, returns, evaluate_order_shipment_progress, qty_epsilon,
}
use sanmarino_crm.Orders.Shipment.Laws.{Fits, shipped_iff, evaluate_iff}
use sanmarino_crm.Orders.Shipment.Sums.{qty_of}
use sanmarino_crm.Records.{Order}
use sanmarino_crm.Status.{
  OrderFulfillmentType, OrderStatus, OrderControlOverlayStatus, FulfillmentStatus, order_status_eq,
  fulfillment_status_eq, order_control_overlay_status_eq,
}
use sanmarino_crm.Tests.Payments.{start, clerk}

abbrev pub ready : Order
ready = record {
  id = text "o2";
  status = OrderStatus.ready_for_shipment;
  payment_control_status = OrderControlOverlayStatus.none;
  payment_control_due_at = none;
  total_amount = 9_000;
  ready_for_partial_shipment_at = none;
  ready_for_shipment_at = some 100;
  partially_shipped_at = none;
  shipped_at = none;
  responsible_user_id = text "u7";
  fulfillment_type = OrderFulfillmentType.delivery;
  is_deleted = Bool.false;
}

abbrev shop : Db memory_database
shop = record start {
  orders = ready ∷ [];
  order_items =
      record { id = text "i1"; order_id = text "o2"; product_id = text "p1"; qty = 2_000_000 } ∷ [];
  fulfillments =
      record {
        id = text "f1";
        order_id = text "o2";
        status = FulfillmentStatus.completed;
        fulfillment_type = OrderFulfillmentType.delivery;
        delivery_task_id = none;
        pickup_window_id = none;
        fulfilled_at = some 1;
        created_by = text "u1";
      }
      ∷ [];
  fulfillment_items =
      record {
        id = text "g1";
        fulfillment_id = text "f1";
        order_item_id = text "i1";
        qty = 2_000_000;
        created_at = 1;
      }
      ∷ [];
}

shipped-IsFulfilled_example :
    Ensures shop
      (transition_order_status memory_database (text "o2") OrderStatus.shipped clerk 500)
      (λ o _.
        (o.status ≡ OrderStatus.shipped)
        × IsFulfilled memory_database (text "o2") clerk 500 shop o.id)
shipped-IsFulfilled_example =
    shipped-IsFulfilled memory_database (text "o2") clerk 500 shop (tt, tt)

is_shipment : is_shipment_status OrderStatus.shipped ≡ true
unfolding order_status_eq
is_shipment = refl

uncovered_is_controlled_example :
    Ensures shop
      (transition_order_status memory_database (text "o2") OrderStatus.shipped clerk 500)
      (λ o _.
        (net_paid_of_order memory_database o.id shop < o.total_amount
          → o.payment_control_status ≢ OrderControlOverlayStatus.none))
uncovered_is_controlled_example =
    uncovered_is_controlled memory_database (text "o2") clerk 500 shop OrderStatus.shipped
      is_shipment (tt, tt)

transition_order_control_overlay-Controlled_example :
    Ensures shop
      (transition_order_control_overlay memory_database
        (text "o2")
        OrderControlOverlayStatus.on_control
        clerk
        500)
      (Controlled memory_database (text "o2") clerk 500 shop OrderControlOverlayStatus.on_control)
transition_order_control_overlay-Controlled_example =
    transition_order_control_overlay-Controlled memory_database (text "o2") clerk 500 shop
      OrderControlOverlayStatus.on_control (tt, tt)

-- Two items, of which one is fulfilled.
abbrev half : ProgressInput
half = record {
  order_items =
      record { order_item_id = text "a"; qty = 1_000_000 }
      ∷ record { order_item_id = text "b"; qty = 3_000_000 }
      ∷ [];
  completed_fulfillment_count = 1;
  pending_fulfillment_count = 1;
  completed_shipment_items = record { order_item_id = text "a"; qty = 1_000_000 } ∷ [];
}

abbrev half_summary : ProgressSummary
half_summary = record {
  has_order_items = true;
  has_completed_fulfillment = true;
  has_pending_fulfillment = true;
  has_item_level_shipment_evidence = true;
  is_fully_fulfilled = Bool.false;
  recommended_status = some OrderStatus.partially_shipped;
}

half_returns : evaluate_order_shipment_progress half ≡ returns half_summary
unfolding evaluate_order_shipment_progress text_eq any
half_returns = refl

shipped_iff_example : (half_summary.recommended_status ≡ some OrderStatus.shipped) ↔ (
    (0 < half.completed_fulfillment_count)
    × All
        (λ i. i.qty ≤ qty_of i.order_item_id half.completed_shipment_items + qty_epsilon)
        half.order_items)
shipped_iff_example = shipped_iff half (omega arith) half_returns

evaluate_iff_example :
    ((s : ProgressSummary) × (evaluate_order_shipment_progress half ≡ returns s)) ↔ Fits half
evaluate_iff_example = evaluate_iff half (omega arith)

abbrev shipped : Order
shipped = record ready {
  status = OrderStatus.shipped;
  payment_control_status = OrderControlOverlayStatus.on_control;
  payment_control_due_at = some 500;
  shipped_at = some 500;
}

-- The order is shipped, and put under payment control since nothing is paid.
ship_runs :
    (transition_order_status memory_database (text "o2") OrderStatus.shipped clerk 500 shop).0
    ≡ ok shipped
unfolding transition_order_status ◌>>=◌ text_eq any first select total change order_status_eq
    fulfillment_status_eq order_control_overlay_status_eq assert_order_status_transition
    assert_order_control_overlay_transition
ship_runs = refl
